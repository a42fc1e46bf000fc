-- ===== src/Capture/LatestSample/Examples.antt =====
-- The video slot at concrete inputs.
use low_latency_capture_view.Common.{ℕ, ◌≡◌, List, [], ◌∷◌, none, some}
use low_latency_capture_view.Common.Int.{pos}
use low_latency_capture_view.Capture.LatestSample.{Sample, Config, create, take_latest}
use low_latency_capture_view.Capture.LatestSample.History
use low_latency_capture_view.Capture.LatestSample.History.{
  after, newest, failure_of, take_latest-newest,
}
use low_latency_capture_view.Capture.LatestSample.Balance.{
  pushes, rejects, takes, refreshes, run, Balanced, create-Balanced,
}

abbrev config : Config
config = record { expected_bytes = 16; tracking_start = some 5 }

abbrev frame : ℕ → Sample
frame n = record { frame = n; data_length = pos 16; size = pos 32 }

-- The newest first: two frames before a rejection, and one after it.
abbrev history : List History.Call
history =
    History.pushes (some (frame 3)) (pos 300) 7 7
    ∷ History.rejects 0
    ∷ History.pushes (some (frame 2)) (pos 200) 6 6
    ∷ History.pushes (some (frame 1)) (pos 100) 4 4
    ∷ []

take_latest-newest_example :
    ((take_latest (after config (create (some 0) (some 0)) history)).1 ≡ newest config history)
    × ((after config (create (some 0) (some 0)) history).format_failure ≡ failure_of history)
take_latest-newest_example = take_latest-newest config (some 0) (some 0) history

create-Balanced_example : Balanced 2 (
    run config
      (record { slot = create none none; owned = [] })
      (pushes (some (frame 1)) (pos 1) 0 0
        ∷ pushes (some (frame 2)) (pos 2) 0 0
        ∷ takes
        ∷ pushes (some (frame 3)) (pos 3) 0 0
        ∷ refreshes (pos 2) 9
        ∷ rejects 0x80004005
        ∷ []))
create-Balanced_example =
    create-Balanced config none none
      (pushes (some (frame 1)) (pos 1) 0 0
        ∷ pushes (some (frame 2)) (pos 2) 0 0
        ∷ takes
        ∷ pushes (some (frame 3)) (pos 3) 0 0
        ∷ refreshes (pos 2) 9
        ∷ rejects 0x80004005
        ∷ [])
      2
