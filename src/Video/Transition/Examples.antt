-- ===== src/Video/Transition/Examples.antt =====
-- The output policies at concrete inputs.
use low_latency_capture_view.Common.{◌≡◌, refl, none, true, false, List, [], ◌∷◌}
use low_latency_capture_view.Common.Int.{pos}
use low_latency_capture_view.Video.Transition.{create, AttemptGate, begin_attempt, reset}
use low_latency_capture_view.Video.Transition.Owed.{
  Event, begins, ends, sizes, drags, run, run-pending,
}
use low_latency_capture_view.Video.Transition.Attempts.{
  Request, resets, tried, forgot, outcomes, NoRepeat, outcomes-NoRepeat,
}
use low_latency_capture_view.Video.Transition.Attempts

-- A change of fullscreen with two sizes inside, and a drag.
abbrev events : List Event
events =
    begins
    ∷ sizes (pos 1920) (pos 1080)
    ∷ sizes (pos 2560) (pos 1440)
    ∷ ends true
    ∷ drags true
    ∷ sizes (pos 800) (pos 600)
    ∷ drags false
    ∷ []

run-pending_example :
    (run create create.pending events).0.pending ≡ (run create create.pending events).1
run-pending_example = run-pending create events

abbrev gate : AttemptGate
gate = record { revision = 0; wanted_last = false; attempted = false }

-- An attempt, the same wish again, another revision, and the same once more after a reset.
abbrev requests : List Request
requests =
    Attempts.begins 3 true false
    ∷ Attempts.begins 3 true false
    ∷ Attempts.begins 4 true false
    ∷ resets
    ∷ Attempts.begins 4 true false
    ∷ Attempts.begins 4 true true
    ∷ []

outcomes-NoRepeat_example : NoRepeat none (outcomes requests gate)
outcomes-NoRepeat_example = outcomes-NoRepeat requests gate

three_tries :
    outcomes requests gate
    ≡ tried 3 true false ∷ tried 4 true false ∷ forgot ∷ tried 4 true false ∷ []
unfolding begin_attempt reset
three_tries = refl
