-- ===== src/Recording/Status/Examples.antt =====
-- The phases and failures of a recording at concrete inputs.
use low_latency_capture_view.Common.{◌≡◌, [], ◌∷◌}
use low_latency_capture_view.Recording.Status.{starting}
use low_latency_capture_view.Recording.Status.Phases.{
  publishes, finalizes, race, outcome, race-outcome,
}

race-outcome_example :
    race starting (publishes ∷ finalizes ∷ publishes ∷ [])
    ≡ outcome (publishes ∷ finalizes ∷ publishes ∷ [])
race-outcome_example = race-outcome (publishes ∷ finalizes ∷ publishes ∷ [])
