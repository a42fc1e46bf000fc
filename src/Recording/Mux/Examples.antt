-- ===== src/Recording/Mux/Examples.antt =====
-- The timeline of a fragmented file at concrete inputs.
use low_latency_capture_view.Common.{ℕ, Bool, true, false, List, [], ◌∷◌, if◌then◌else◌, ltb}
use low_latency_capture_view.Common.Int.{ℤ, pos}
use low_latency_capture_view.Recording.Mux.{Sample, World, create}
use low_latency_capture_view.Recording.Mux.Tiles.{Tiles}
use low_latency_capture_view.Recording.Mux.Worker.{worker, worker-Tiles}

abbrev sample : ℕ → ℕ → Sample
sample time duration = record {
  time_hr = 0;
  duration_hr = 0;
  time = pos time;
  duration = pos duration;
}

-- The writer fails from its sixth sample on.
abbrev world : World
world = record {
  write_hr = λ n. if ltb n 5 then 0 else 0x80004005;
  make_hr = λ n. 0;
  set_hr = λ n. 0;
}

abbrev samples : List (Bool × Sample)
samples =
    (true, sample 2000 166667)
    ∷ (false, sample 1000 100000)
    ∷ (true, sample 168667 166667)
    ∷ (true, sample 400000 166667)
    ∷ []

worker-Tiles_example : (to : ℤ) × Tiles (pos 0) (worker world samples create).writes to
worker-Tiles_example = worker-Tiles world samples
