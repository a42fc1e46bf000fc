-- ===== src/Update/Task/Examples.antt =====
-- A check in the background at concrete inputs.
use low_latency_capture_view.Common.{ℕ, ◌≡◌, refl, true, List, [], ◌∷◌}
use low_latency_capture_view.Update.Response.{CheckResult, no_result}
use low_latency_capture_view.Update.Task.{
  Fetched, new_task, Task, started, announced, delivered, cancelled, Action, start, take_result,
  cancel_and_wait, join, wake, fetch, check_stop, store, notify, run,
}
use low_latency_capture_view.Update.Task.Protocol.{Goes, idle, unused, unoccupied}
use low_latency_capture_view.Update.Task.Protocol.Steps.{run-Goes}
use low_latency_capture_view.Update.Task.Waiting.{Ended, turns, run-Ended}

abbrev nothing_new : CheckResult
nothing_new = record no_result { success = true }

abbrev replies : List ℕ → ℕ → Fetched
replies version moment = Fetched.returned true nothing_new

-- A check that is taken, and a second one that is cancelled while it fetches.
abbrev two_checks : List Action
two_checks =
    start (49 ∷ [])
    ∷ join true
    ∷ wake
    ∷ fetch 0
    ∷ check_stop
    ∷ store
    ∷ take_result
    ∷ join true
    ∷ notify
    ∷ join true
    ∷ start (50 ∷ [])
    ∷ join true
    ∷ wake
    ∷ cancel_and_wait
    ∷ join true
    ∷ fetch 1
    ∷ check_stop
    ∷ join true
    ∷ []

two_checks_events :
    (run replies two_checks new_task).0
    ≡ cancelled
      ∷ started (49 ∷ [])
      ∷ announced
      ∷ delivered nothing_new
      ∷ cancelled
      ∷ started (50 ∷ [])
      ∷ cancelled
      ∷ []
unfolding run
two_checks_events = refl

run-Goes_example : Goes replies idle (run replies two_checks new_task)
run-Goes_example = run-Goes replies two_checks idle new_task (unused unoccupied)

abbrev waiting_task : Task
waiting_task = (run replies (start (49 ∷ []) ∷ join true ∷ wake ∷ cancel_and_wait ∷ []) new_task).1

run-Ended_example : Ended true waiting_task.owner (run replies (turns 0 true) waiting_task).1
run-Ended_example = run-Ended replies 0 true waiting_task
