-- ===== src/Recording/Status/Phases.antt =====
-- The race between the thread that publishes a recording and those that end it.
use low_latency_capture_view.Common.{
  ℕ, ◌+◌, ◌≡◌, refl, Bool, true, false, List, [], ◌∷◌, if◌then◌else◌,
}
use low_latency_capture_view.Recording.Status.{
  Phase, starting, recording, finalizing, try_publish_recording, begin_finalizing,
}

-- A call that one of the threads makes on the phase.
pub data Signal : Type 0 where
  publishes finalizes : Signal

-- The phase after the calls, and how many of them reported a success to their thread.
pub race : Phase → List Signal → Phase × ℕ
race p [] = (p, 0)
race p (publishes ∷ ss) =
    let (p', won) = try_publish_recording p in
    let (q, n) = race p' ss in (q, (if won then 1 else 0) + n)
race p (finalizes ∷ ss) = race (begin_finalizing p) ss

abbrev pub ends : List Signal → Bool
ends [] = false
ends (publishes ∷ ss) = ends ss
ends (finalizes ∷ ss) = true

race-finalizing : (ss : List Signal) → race finalizing ss ≡ (finalizing, 0)
unfolding race try_publish_recording begin_finalizing
race-finalizing [] = refl
race-finalizing (publishes ∷ ss) = rw (race-finalizing ss) refl
race-finalizing (finalizes ∷ ss) = race-finalizing ss

race-recording :
    (ss : List Signal) → race recording ss ≡ (if ends ss then finalizing else recording, 0)
unfolding race try_publish_recording begin_finalizing
race-recording [] = refl
race-recording (publishes ∷ ss) = rw (race-recording ss) refl
race-recording (finalizes ∷ ss) = race-finalizing ss

abbrev pub outcome : List Signal → Phase × ℕ
outcome [] = (starting, 0)
outcome (publishes ∷ ss) = (if ends ss then finalizing else recording, 1)
outcome (finalizes ∷ ss) = (finalizing, 0)

-- In whatever order the calls come from a starting recording: the recording is published once when
-- the first call publishes it, and never when a finalization comes first; and once any call
-- finalizes, the phase is finalizing and no later publication reopens it.
pub race-outcome : (ss : List Signal) → race starting ss ≡ outcome ss
unfolding race try_publish_recording begin_finalizing
race-outcome [] = refl
race-outcome (publishes ∷ ss) = rw (race-recording ss) refl
race-outcome (finalizes ∷ ss) = race-finalizing ss
