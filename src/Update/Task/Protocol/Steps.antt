-- ===== src/Update/Task/Protocol/Steps.antt =====
-- Each step of the owner or of the worker keeps the order of what is seen.
use low_latency_capture_view.Common.{ℕ, true, false, Bool, List, [], ◌∷◌, ◌++◌, none, some}
use low_latency_capture_view.Update.Response.{CheckResult}
use low_latency_capture_view.Update.Task.{
  Place, absent, thread, Owner, Task, Event, Fetched, Action, start, take_result, cancel_and_wait,
  join, wake, fetch, check_stop, store, notify, step, run,
}
use low_latency_capture_view.Update.Task.Protocol.{
  CheckPhase, idle, asked, told, Busy, Free, Answer, answer, starts, announces, delivers, cancels,
  Follows, over, event, Follows-append, Early, between_calls, cancelling, unoccupied, halting,
  is_delaying, is_fetching, is_fetched, is_storing, has_ended, Stands, unused, working, stored,
  waiting, taken, returning, Goes, goes, stays, single,
}

module _ (fetch_release : List ℕ → ℕ → Fetched) where
  step-unused :
      (action : Action) (stop : Bool) {o : Owner}
      → Free o
      → Goes fetch_release idle (
          step fetch_release action
            (record { owner = o; worker = absent; result = none; running = false; stop = stop }))
  step-unused (start version) s unoccupied = stays (unused halting)
  step-unused (start version) s halting = stays (unused halting)
  step-unused take_result s unoccupied = stays (unused unoccupied)
  step-unused take_result s halting = stays (unused halting)
  step-unused cancel_and_wait s unoccupied = stays (unused halting)
  step-unused cancel_and_wait s halting = stays (unused halting)
  step-unused (join launched) s unoccupied = stays (unused unoccupied)
  step-unused (join launched) s (halting {next = none}) = single cancels (unused unoccupied)
  step-unused (join true) s (halting {next = some version}) =
      goes (event cancels (event starts over)) (working between_calls is_delaying)
  step-unused (join false) s (halting {next = some version}) = single cancels (unused unoccupied)
  step-unused wake s f = stays (unused f)
  step-unused (fetch moment) s f = stays (unused f)
  step-unused check_stop s f = stays (unused f)
  step-unused store s f = stays (unused f)
  step-unused notify s f = stays (unused f)

  -- While the thread is at work.
  step-working :
      (action : Action) (stop : Bool) {o : Owner} {v : List ℕ} {p : Place}
      → Busy o
      → Early fetch_release v p
      → Goes fetch_release (asked v) (
          step fetch_release action
            (record { owner = o; worker = thread v p; result = none; running = true; stop = stop }))
  step-working (start version) s between_calls e = stays (working between_calls e)
  step-working (start version) s cancelling e = stays (working cancelling e)
  step-working take_result s between_calls e = stays (working between_calls e)
  step-working take_result s cancelling e = stays (working cancelling e)
  step-working cancel_and_wait s between_calls e = stays (working cancelling e)
  step-working cancel_and_wait s cancelling e = stays (working cancelling e)
  step-working (join launched) s b is_delaying = stays (working b is_delaying)
  step-working (join launched) s b is_fetching = stays (working b is_fetching)
  step-working (join launched) s b (is_fetched a) = stays (working b (is_fetched a))
  step-working (join launched) s b (is_storing a) = stays (working b (is_storing a))
  step-working (join launched) s between_calls has_ended = stays (working between_calls has_ended)
  step-working (join launched) s cancelling has_ended = single cancels (unused unoccupied)
  step-working wake true b is_delaying = stays (working b has_ended)
  step-working wake false b is_delaying = stays (working b is_fetching)
  step-working wake s b is_fetching = stays (working b is_fetching)
  step-working wake s b (is_fetched a) = stays (working b (is_fetched a))
  step-working wake s b (is_storing a) = stays (working b (is_storing a))
  step-working wake s b has_ended = stays (working b has_ended)
  step-working (fetch moment) s b is_delaying = stays (working b is_delaying)
  step-working (fetch moment) s b is_fetching = stays (working b (is_fetched (answer moment)))
  step-working (fetch moment) s b (is_fetched a) = stays (working b (is_fetched a))
  step-working (fetch moment) s b (is_storing a) = stays (working b (is_storing a))
  step-working (fetch moment) s b has_ended = stays (working b has_ended)
  step-working check_stop s b is_delaying = stays (working b is_delaying)
  step-working check_stop s b is_fetching = stays (working b is_fetching)
  step-working check_stop true b (is_fetched a) = stays (working b has_ended)
  step-working check_stop false b (is_fetched a) = stays (working b (is_storing a))
  step-working check_stop s b (is_storing a) = stays (working b (is_storing a))
  step-working check_stop s b has_ended = stays (working b has_ended)
  step-working store s b is_delaying = stays (working b is_delaying)
  step-working store s b is_fetching = stays (working b is_fetching)
  step-working store s b (is_fetched a) = stays (working b (is_fetched a))
  step-working store s b (is_storing a) = stays (stored b a)
  step-working store s b has_ended = stays (working b has_ended)
  step-working notify s b is_delaying = stays (working b is_delaying)
  step-working notify s b is_fetching = stays (working b is_fetching)
  step-working notify s b (is_fetched a) = stays (working b (is_fetched a))
  step-working notify s b (is_storing a) = stays (working b (is_storing a))
  step-working notify s b has_ended = stays (working b has_ended)

  step-stored :
      (action : Action) (stop : Bool) {v : List ℕ} {r : CheckResult} {o : Owner}
      → Busy o
      → Answer fetch_release v r
      → Goes fetch_release (asked v) (
          step fetch_release action (record {
            owner = o;
            worker = thread v Place.notifying;
            result = some r;
            running = true;
            stop = stop;
          }))
  step-stored (start version) s between_calls a = stays (stored between_calls a)
  step-stored (start version) s cancelling a = stays (stored cancelling a)
  step-stored take_result s between_calls a = stays (taken a)
  step-stored take_result s cancelling a = stays (stored cancelling a)
  step-stored cancel_and_wait s between_calls a = stays (stored cancelling a)
  step-stored cancel_and_wait s cancelling a = stays (stored cancelling a)
  step-stored (join launched) s b a = stays (stored b a)
  step-stored wake s b a = stays (stored b a)
  step-stored (fetch moment) s b a = stays (stored b a)
  step-stored check_stop s b a = stays (stored b a)
  step-stored store s b a = stays (stored b a)
  step-stored notify s b a = single announces (waiting b a)

  step-waiting :
      (action : Action) (stop : Bool) {v : List ℕ} {r : CheckResult} {o : Owner}
      → Busy o
      → Answer fetch_release v r
      → Goes fetch_release (told v) (
          step fetch_release action (record {
            owner = o;
            worker = thread v Place.finished;
            result = some r;
            running = true;
            stop = stop;
          }))
  step-waiting (start version) s between_calls a = stays (waiting between_calls a)
  step-waiting (start version) s cancelling a = stays (waiting cancelling a)
  step-waiting take_result s between_calls a = stays (returning a)
  step-waiting take_result s cancelling a = stays (waiting cancelling a)
  step-waiting cancel_and_wait s between_calls a = stays (waiting cancelling a)
  step-waiting cancel_and_wait s cancelling a = stays (waiting cancelling a)
  step-waiting (join launched) s between_calls a = stays (waiting between_calls a)
  step-waiting (join launched) s cancelling a = single cancels (unused unoccupied)
  step-waiting wake s b a = stays (waiting b a)
  step-waiting (fetch moment) s b a = stays (waiting b a)
  step-waiting check_stop s b a = stays (waiting b a)
  step-waiting store s b a = stays (waiting b a)
  step-waiting notify s b a = stays (waiting b a)

  step-taken :
      (action : Action) (stop : Bool) {v : List ℕ} {r : CheckResult}
      → Answer fetch_release v r
      → Goes fetch_release (asked v) (
          step fetch_release action (record {
            owner = Owner.joining r;
            worker = thread v Place.notifying;
            result = none;
            running = true;
            stop = stop;
          }))
  step-taken (start version) s a = stays (taken a)
  step-taken take_result s a = stays (taken a)
  step-taken cancel_and_wait s a = stays (taken a)
  step-taken (join launched) s a = stays (taken a)
  step-taken wake s a = stays (taken a)
  step-taken (fetch moment) s a = stays (taken a)
  step-taken check_stop s a = stays (taken a)
  step-taken store s a = stays (taken a)
  step-taken notify s a = single announces (returning a)

  step-returning :
      (action : Action) (stop : Bool) {v : List ℕ} {r : CheckResult}
      → Answer fetch_release v r
      → Goes fetch_release (told v) (
          step fetch_release action (record {
            owner = Owner.joining r;
            worker = thread v Place.finished;
            result = none;
            running = true;
            stop = stop;
          }))
  step-returning (start version) s a = stays (returning a)
  step-returning take_result s a = stays (returning a)
  step-returning cancel_and_wait s a = stays (returning a)
  step-returning (join launched) s a = single (delivers a) (unused unoccupied)
  step-returning wake s a = stays (returning a)
  step-returning (fetch moment) s a = stays (returning a)
  step-returning check_stop s a = stays (returning a)
  step-returning store s a = stays (returning a)
  step-returning notify s a = stays (returning a)

  step-Goes :
      (action : Action) {p : CheckPhase} {t : Task}
      → Stands fetch_release p t
      → Goes fetch_release p (step fetch_release action t)
  step-Goes action (unused {stop = s} f) = step-unused action s f
  step-Goes action (working {stop = s} b e) = step-working action s b e
  step-Goes action (stored {stop = s} b a) = step-stored action s b a
  step-Goes action (waiting {stop = s} b a) = step-waiting action s b a
  step-Goes action (taken {stop = s} a) = step-taken action s a
  step-Goes action (returning {stop = s} a) = step-returning action s a

  behind :
      {p q : CheckPhase} {es : List Event} {out : List Event × Task}
      → Follows fetch_release p es q
      → Goes fetch_release q out
      → Goes fetch_release p (es ++ out.0, out.1)
  behind f (goes g s) = goes (Follows-append fetch_release f g) s

  further :
      (actions : List Action) {p : CheckPhase} {out : List Event × Task}
      → ((q : CheckPhase) (t : Task)
          → Stands fetch_release q t
          → Goes fetch_release q (run fetch_release actions t))
      → Goes fetch_release p out
      → Goes fetch_release p
          (out.0 ++ (run fetch_release actions out.1).0, (run fetch_release actions out.1).1)
  further actions h (goes {q} {t} f s) = behind f (h q t s)

  -- For any actions in any order, any fetch, and any task that stands in a phase, such as a new one,
  -- which is idle: the events are allowed from that phase on, one after the other, and the task stands
  -- in the phase they lead to. So a check is started only when none is asked for, is announced at most
  -- once, and delivered at most once and after that, with an answer of the fetch for the version that
  -- was asked for last; and when `CancelAndWait` is over, nothing of the check comes any more.
  pub run-Goes :
      (actions : List Action) (p : CheckPhase) (t : Task)
      → Stands fetch_release p t
      → Goes fetch_release p (run fetch_release actions t)
  unfolding run
  run-Goes [] p t s = stays s
  run-Goes (action ∷ actions) p t s = further actions (run-Goes actions) (step-Goes action s)
