-- ===== src/Audio/Recovery/Examples.antt =====
-- The retry budgets at concrete inputs.
use low_latency_capture_view.Common.{
  ℕ, ◌+◌, ◌-◌, ◌≡◌, List, [], ◌∷◌, ◌++◌, take, replicate, true, arith,
}
use low_latency_capture_view.Audio.Recovery.{World, Event, ran, broke, delays, input_timeout}
use low_latency_capture_view.Audio.Recovery.Budget.{delays-schedule, backoff, failures}

-- An input that never answers; the world counts the calls.
abbrev silent : World ℕ
silent = record {
  attempt = λ s. (s + 1, input_timeout);
  running = λ s. (s + 1, true);
  wait = λ ms s. (s + 1, true);
  notify = λ n s. s + 1;
}

abbrev history : List Event
history = broke ∷ ran 1000 ∷ broke ∷ broke ∷ ran 29999 ∷ broke ∷ []

delays-schedule_example :
    delays (record { attempts = 0 }) history
    ≡ take (failures history) backoff ++ replicate (failures history - 3) 0
delays-schedule_example = delays-schedule history (omega arith, (omega arith, tt))
