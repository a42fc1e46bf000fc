-- ===== src/Recording/Buffers/Examples.antt =====
-- The buffer pool at concrete inputs.
use low_latency_capture_view.Common.{[], ◌∷◌, arith}
use low_latency_capture_view.Recording.Buffers.{Pool, acquire}
use low_latency_capture_view.Recording.Buffers.Leases.{Acquired, acquire-Acquired}

-- Three buffers, of which the encoder holds the second and the third.
abbrev pool : Pool
pool = record { references = 1 ∷ 3 ∷ 2 ∷ []; next = 1 }

acquire-Acquired_example : Acquired pool (acquire pool)
acquire-Acquired_example = acquire-Acquired pool (omega arith)
