-- ===== src/Update/Task.antt =====
-- src/update/UpdateCheckTask.h: the check in the background. The owner's thread and the worker are each
-- at a place of their code; an action lets one of them go on to its next place, and does nothing where
-- that thread is not at the action's place or has to wait. The fetch is an argument, which has for each
-- version an answer at each moment; a string is its characters.
pub mod Protocol
pub mod Waiting
mod Examples
use low_latency_capture_view.Common.{
  ℕ, Bool, true, false, List, [], ◌∷◌, ◌++◌, Option, none, some, if◌then◌else◌,
}
use low_latency_capture_view.Update.Response.{CheckResult, no_result}

-- Where the function of the thread is. `finished` is a thread that may still be joined.
pub data Place : Type 0 where
  delaying : Place
  fetching : Place
  fetched : CheckResult → Place
  storing : CheckResult → Place
  notifying : Place
  finished : Place

pub data Worker : Type 0 where
  absent : Worker
  thread : (version : List ℕ) → Place → Worker

-- Between two calls, in `CancelAndWait` before `join`, and in `TakeResult` before `join`. With a version
-- it is the call of `CancelAndWait` in `Start`.
pub data Owner : Type 0 where
  ready : Owner
  stopping : Option (List ℕ) → Owner
  joining : CheckResult → Owner

pub record Task : Type 0 where
  pub owner : Owner
  pub worker : Worker
  pub result : Option CheckResult
  pub running : Bool
  pub stop : Bool

abbrev pub new_task : Task
new_task = record {
  owner = Owner.ready;
  worker = absent;
  result = none;
  running = false;
  stop = false;
}

-- What is seen from outside: a thread is created, `notify` is reached, `TakeResult` returns a result,
-- and `CancelAndWait` is over.
pub data Event : Type 0 where
  started : (version : List ℕ) → Event
  announced : Event
  delivered : CheckResult → Event
  cancelled : Event

-- What a call of the fetch does.
pub data Fetched : Type 0 where
  returned : Bool → CheckResult → Fetched
  thrown : Fetched

abbrev pub answered : Fetched → CheckResult
answered (returned success result) = if success then result else no_result
answered thrown = no_result

-- The calls of the owner, the return of its `join` (and whether the system then creates the thread),
-- and the steps of the worker.
pub data Action : Type 0 where
  start : (version : List ℕ) → Action
  take_result : Action
  cancel_and_wait : Action
  join : (launched : Bool) → Action
  wake : Action
  fetch : (moment : ℕ) → Action
  check_stop : Action
  store : Action
  notify : Action

abbrev pub start_ready : List ℕ → Owner → Task → List Event × Task
start_ready version ready t =
    if t.running then ([], t) else ([], record t { owner = stopping (some version); stop = true })
start_ready version (stopping next) t = ([], t)
start_ready version (joining result) t = ([], t)

abbrev pub take_stored : Option CheckResult → Task → List Event × Task
take_stored none t = ([], t)
take_stored (some result) t = ([], record t { owner = joining result; result = none })

abbrev pub take_ready : Owner → Task → List Event × Task
take_ready ready t = take_stored t.result t
take_ready (stopping next) t = ([], t)
take_ready (joining result) t = ([], t)

abbrev pub cancel_ready : Owner → Task → List Event × Task
cancel_ready ready t = ([], record t { owner = stopping none; stop = true })
cancel_ready (stopping next) t = ([], t)
cancel_ready (joining result) t = ([], t)

-- The rest of the call, once the worker is joined.
abbrev pub joined : Bool → Owner → Task → List Event × Task
joined launched ready t = ([], t)
joined launched (stopping none) t = (
  cancelled ∷ [],
  record t { owner = Owner.ready; worker = absent; result = none; running = false },
)
joined true (stopping (some version)) t = (
  cancelled ∷ started version ∷ [],
  record {
    owner = Owner.ready;
    worker = thread version Place.delaying;
    result = none;
    running = true;
    stop = false;
  },
)
joined false (stopping (some version)) t = (
  cancelled ∷ [],
  record { owner = Owner.ready; worker = absent; result = none; running = false; stop = true },
)
joined launched (joining result) t =
    (delivered result ∷ [], record t { owner = Owner.ready; worker = absent; running = false })

-- `join`, which waits for a thread that has not finished.
abbrev pub join_worker : Bool → Worker → Task → List Event × Task
join_worker launched absent t = joined launched t.owner t
join_worker launched (thread version finished) t = joined launched t.owner t
join_worker launched (thread version place) t = ([], t)

module _ (fetch_release : List ℕ → ℕ → Fetched) where
  -- The steps of the thread.
  abbrev pub work : Action → Worker → Task → List Event × Task
  work wake (thread version delaying) t =
      ([], record t { worker = thread version (if t.stop then finished else fetching) })
  work (fetch moment) (thread version fetching) t =
      ([], record t { worker = thread version (fetched (answered (fetch_release version moment))) })
  work check_stop (thread version (fetched result)) t =
      ([], record t { worker = thread version (if t.stop then finished else storing result) })
  work store (thread version (storing result)) t =
      ([], record t { worker = thread version notifying; result = some result })
  work notify (thread version notifying) t =
      (announced ∷ [], record t { worker = thread version finished })
  work action worker t = ([], t)

  abbrev pub step : Action → Task → List Event × Task
  step (start version) t = start_ready version t.owner t
  step take_result t = take_ready t.owner t
  step cancel_and_wait t = cancel_ready t.owner t
  step (join launched) t = join_worker launched t.worker t
  step action t = work action t.worker t

  unfoldable pub run : List Action → Task → List Event × Task
  run [] t = ([], t)
  run (action ∷ actions) t =
      let (events, next) = step action t in
      let (later, end) = run actions next in (events ++ later, end)
