-- ===== src/Audio/LogQueue/Examples.antt =====
-- The log queue at concrete inputs.
use low_latency_capture_view.Common.{ℕ, ◌<◌, ◌≡◌, refl, [], ◌∷◌, ◌++◌}
use low_latency_capture_view.Audio.LogQueue.Order.{slots, waiting}
use low_latency_capture_view.Audio.LogQueue.Threads.{Threads, Producer, here, next, push_loads}
use low_latency_capture_view.Audio.LogQueue.Fifo.{start, Reach-fifo}

-- A producer that has loaded its position, and a consumer that starts in between.
abbrev interleaved : Threads
interleaved = record (start 2) { producer = Producer.loaded (65 ∷ []) 0 }

Reach-fifo_example :
    (k : ℕ) × (k < slots interleaved.queue)
    × (interleaved.published ≡ interleaved.received ++ waiting interleaved.queue k)
Reach-fifo_example = Reach-fifo 2 (next here (push_loads (start 2) (65 ∷ []) refl))
