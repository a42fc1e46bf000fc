-- ===== src/Update/Task/Protocol.antt =====
-- The order of what is seen of a check, and how the task stands in each phase of it.
pub mod Steps
use low_latency_capture_view.Common.{
  ℕ, ◌≡◌, refl, Bool, true, false, List, [], ◌∷◌, ◌++◌, Option, none, some, if◌then◌else◌,
  Bool-cases, inl, inr,
}
use low_latency_capture_view.Update.Response.{CheckResult}
use low_latency_capture_view.Update.Task.{
  Place, Worker, absent, thread, Owner, Task, new_task, Event, started, announced, delivered,
  cancelled, Fetched, answered, Action, start, take_result, cancel_and_wait, join, wake, fetch,
  check_stop, store, notify, step, run,
}

-- No check is asked for; one is; and one is, and `notify` has been reached.
pub data CheckPhase : Type 0 where
  idle : CheckPhase
  asked : (version : List ℕ) → CheckPhase
  told : (version : List ℕ) → CheckPhase

-- The owner's places while a check runs, and while none does.
pub data Busy : Owner → Type 0 where
  between_calls : Busy Owner.ready
  cancelling : Busy (Owner.stopping none)

pub data Free : Owner → Type 0 where
  unoccupied : Free Owner.ready
  halting : {next : Option (List ℕ)} → Free (Owner.stopping next)

module _ (fetch_release : List ℕ → ℕ → Fetched) where
  -- A result that the fetch gives for the version, at some moment.
  pub data Answer (version : List ℕ) : CheckResult → Type 0 where
    answer : (moment : ℕ) → Answer version (answered (fetch_release version moment))

  pub data Allows : CheckPhase → Event → CheckPhase → Type 0 where
    starts : {v : List ℕ} → Allows idle (started v) (asked v)
    announces : {v : List ℕ} → Allows (asked v) announced (told v)
    delivers : {v : List ℕ} {r : CheckResult} → Answer v r → Allows (told v) (delivered r) idle
    cancels : {p : CheckPhase} → Allows p cancelled idle

  pub data Follows : CheckPhase → List Event → CheckPhase → Type 0 where
    over : {p : CheckPhase} → Follows p [] p
    event :
        {p q r : CheckPhase} {e : Event} {es : List Event}
        → Allows p e q
        → Follows q es r
        → Follows p (e ∷ es) r

  pub Follows-append :
      {p q r : CheckPhase} {ds es : List Event}
      → Follows p ds q
      → Follows q es r
      → Follows p (ds ++ es) r
  Follows-append over b = b
  Follows-append (event a more) b = event a (Follows-append more b)

  -- The thread's places before its result is stored.
  pub data Early (version : List ℕ) : Place → Type 0 where
    is_delaying : Early version Place.delaying
    is_fetching : Early version Place.fetching
    is_fetched : {r : CheckResult} → Answer version r → Early version (Place.fetched r)
    is_storing : {r : CheckResult} → Answer version r → Early version (Place.storing r)
    has_ended : Early version Place.finished

  -- How the task stands in each phase.
  pub data Stands : CheckPhase → Task → Type 0 where
    unused :
        {o : Owner} {stop : Bool}
        → Free o
        → Stands idle
            (record { owner = o; worker = absent; result = none; running = false; stop = stop })
    working :
        {o : Owner} {v : List ℕ} {p : Place} {stop : Bool}
        → Busy o
        → Early v p
        → Stands
            (asked v)
            (record { owner = o; worker = thread v p; result = none; running = true; stop = stop })
    stored :
        {o : Owner} {v : List ℕ} {r : CheckResult} {stop : Bool}
        → Busy o
        → Answer v r
        → Stands (asked v) (record {
          owner = o;
          worker = thread v Place.notifying;
          result = some r;
          running = true;
          stop = stop;
        })
    waiting :
        {o : Owner} {v : List ℕ} {r : CheckResult} {stop : Bool}
        → Busy o
        → Answer v r
        → Stands (told v) (record {
          owner = o;
          worker = thread v Place.finished;
          result = some r;
          running = true;
          stop = stop;
        })
    taken :
        {v : List ℕ} {r : CheckResult} {stop : Bool}
        → Answer v r
        → Stands (asked v) (record {
          owner = Owner.joining r;
          worker = thread v Place.notifying;
          result = none;
          running = true;
          stop = stop;
        })
    returning :
        {v : List ℕ} {r : CheckResult} {stop : Bool}
        → Answer v r
        → Stands (told v) (record {
          owner = Owner.joining r;
          worker = thread v Place.finished;
          result = none;
          running = true;
          stop = stop;
        })

  -- A step's events are allowed, and lead to a phase in which the task then stands.
  pub data Goes (p : CheckPhase) : List Event × Task → Type 0 where
    goes :
        {q : CheckPhase} {es : List Event} {t : Task} → Follows p es q → Stands q t → Goes p (es, t)

pub stays :
    {fetch_release : List ℕ → ℕ → Fetched} {p : CheckPhase} {t : Task}
    → Stands fetch_release p t
    → Goes fetch_release p ([], t)
stays s = goes over s

pub single :
    {fetch_release : List ℕ → ℕ → Fetched} {p q : CheckPhase} {e : Event} {t : Task}
    → Allows fetch_release p e q
    → Stands fetch_release q t
    → Goes fetch_release p (e ∷ [], t)
single a s = goes (event a over) s
