-- ===== src/Update/Task/Waiting.antt =====
-- The owner's calls that wait for the thread come to an end.
use low_latency_capture_view.Common.{
  ℕ, ◌≡◌, refl, Bool, true, false, List, [], ◌∷◌, Option, none, some,
}
use low_latency_capture_view.Update.Response.{CheckResult}
use low_latency_capture_view.Update.Task.{
  delaying, fetching, fetched, storing, notifying, finished, Worker, absent, thread, Owner, ready,
  stopping, joining, Task, Fetched, Action, join, wake, fetch, check_stop, store, notify, joined,
  run,
}

-- The steps of the thread in their order, and then the owner's `join`.
abbrev pub turns : ℕ → Bool → List Action
turns moment launched = wake ∷ fetch moment ∷ check_stop ∷ store ∷ notify ∷ join launched ∷ []

-- What the owner's call has become: it is over, and leaves nothing of the check behind. A thread is
-- there exactly when `Start` wanted one and the system created it.
pub data Ended : Bool → Owner → Task → Type 0 where
  no_call : {launched : Bool} {t : Task} → t.owner ≡ ready → Ended launched ready t
  stopped :
      {launched stop : Bool}
      → Ended launched
          (stopping none)
          (record { owner = ready; worker = absent; result = none; running = false; stop = stop })
  restarted :
      {version : List ℕ}
      → Ended true (stopping (some version)) (record {
        owner = ready;
        worker = thread version delaying;
        result = none;
        running = true;
        stop = false;
      })
  not_launched :
      {version : List ℕ}
      → Ended false
          (stopping (some version))
          (record { owner = ready; worker = absent; result = none; running = false; stop = true })
  took :
      {taken : CheckResult} {result : Option CheckResult} {launched stop : Bool}
      → Ended launched
          (joining taken)
          (record { owner = ready; worker = absent; result = result; running = false; stop = stop })

joined-Ended :
    (launched : Bool) (o : Owner) (w : Worker) (result : Option CheckResult) (running stop : Bool)
    → Ended launched o
        (joined launched o
          (record { owner = o; worker = w; result = result; running = running; stop = stop })).1
joined-Ended launched ready w result running stop = no_call refl
joined-Ended launched (stopping none) w result running stop = stopped
joined-Ended true (stopping (some version)) w result running stop = restarted
joined-Ended false (stopping (some version)) w result running stop = not_launched
joined-Ended launched (joining taken) w result running stop = took

module _ (fetch_release : List ℕ → ℕ → Fetched) where
  worker-Ended :
      (moment : ℕ) (launched : Bool) (o : Owner) (w : Worker) (result : Option CheckResult)
      (running stop : Bool)
      → Ended launched o
          (run fetch_release
            (turns moment launched)
            (record { owner = o; worker = w; result = result; running = running; stop = stop })).1
  unfolding run
  worker-Ended m l o absent result running stop = joined-Ended l o absent result running stop
  worker-Ended m l o (thread v delaying) result running true =
      joined-Ended l o (thread v finished) result running true
  worker-Ended m l o (thread v delaying) result running false =
      joined-Ended l o (thread v finished) _ running false
  worker-Ended m l o (thread v fetching) result running true =
      joined-Ended l o (thread v finished) result running true
  worker-Ended m l o (thread v fetching) result running false =
      joined-Ended l o (thread v finished) _ running false
  worker-Ended m l o (thread v (fetched r)) result running true =
      joined-Ended l o (thread v finished) result running true
  worker-Ended m l o (thread v (fetched r)) result running false =
      joined-Ended l o (thread v finished) (some r) running false
  worker-Ended m l o (thread v (storing r)) result running stop =
      joined-Ended l o (thread v finished) (some r) running stop
  worker-Ended m l o (thread v notifying) result running stop =
      joined-Ended l o (thread v finished) result running stop
  worker-Ended m l o (thread v finished) result running stop =
      joined-Ended l o (thread v finished) result running stop

  -- For any task, wherever its threads are, and any fetch that returns or throws: after at most five
  -- steps of the worker and the `join`, the owner is between two calls again. `CancelAndWait` leaves
  -- no thread, no result and no check running; `Start` has the new thread running if the system created
  -- it, and else no thread and no check running; and `TakeResult` leaves no thread and no check running.
  pub run-Ended :
      (moment : ℕ) (launched : Bool) (t : Task)
      → Ended launched t.owner (run fetch_release (turns moment launched) t).1
  run-Ended moment launched t =
      worker-Ended moment launched t.owner t.worker t.result t.running t.stop
