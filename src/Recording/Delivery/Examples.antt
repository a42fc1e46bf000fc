-- ===== src/Recording/Delivery/Examples.antt =====
-- The delivery at concrete inputs.
use low_latency_capture_view.Common.{
  ℕ, ◌+◌, ◌*◌, ◌≡◌, refl, true, false, List, [], ◌∷◌, none, some, replicate, get_or, arith,
}
use low_latency_capture_view.Common.Int.{pos}
use low_latency_capture_view.Recording.Session.Formats.{rgb32}
use low_latency_capture_view.Recording.Buffers.{Pool}
use low_latency_capture_view.Recording.Limiter.{fresh_limiter}
use low_latency_capture_view.Recording.Delivery.{
  Packet, Queue, Picture, empty_queue, prepare_queues,
}
use low_latency_capture_view.Recording.Delivery.Budget.{Ready, prepare_queues-Ready}
use low_latency_capture_view.Recording.Delivery.Chunks.{push_audio_chunks}
use low_latency_capture_view.Recording.Delivery.Chunks.Delivered.{
  Delivered, push_audio_chunks-Delivered,
}
use low_latency_capture_view.Recording.Delivery.Push.{
  Sample, World, Producer, take_time, frame_ticks, enqueue, video_bytes,
}
use low_latency_capture_view.Recording.Delivery.Push.Packing.{video_bytes-pixel}
use low_latency_capture_view.Recording.Delivery.Push.Enqueued.{Enqueued, enqueue-Enqueued}
use low_latency_capture_view.Recording.Delivery.Push.Anchored.{
  AudioCall, push_all, push_all-contiguous,
}

abbrev pool : Pool
pool = record { references = 1 ∷ 2 ∷ 1 ∷ []; next = 1 }

-- One packet waits, and the counters are about to wrap around.
abbrev waiting : Queue
waiting = record { packets = none ∷ none ∷ none ∷ []; write = 0; read = 0xFFFFFFFFFFFFFFFF }

abbrev buffer : List ℕ
buffer = replicate 19204 7

push_audio_chunks-Delivered_example :
    Delivered 500 buffer waiting pool (push_audio_chunks (λ k. 0) 0 500 buffer waiting pool)
push_audio_chunks-Delivered_example =
    push_audio_chunks-Delivered (λ k. 0) 0 500 buffer waiting pool (omega arith)

abbrev packet : ℕ → Packet
packet i = record {
  time = 100;
  duration = 10;
  pause_generation = 0;
  video = false;
  buffer = i;
  bytes = 1 ∷ 2 ∷ 3 ∷ 4 ∷ [];
}

enqueue-Enqueued_example : Enqueued none packet waiting pool (enqueue none packet waiting pool)
enqueue-Enqueued_example = enqueue-Enqueued none packet waiting pool (omega arith)

-- Two rows of one pixel, each padded to eight bytes.
abbrev picture : Picture
picture = record { format = rgb32; width = 1; height = 2; fps = 60; stride = 8; bytes = 0 }

abbrev rows : List ℕ
rows = 1 ∷ 2 ∷ 3 ∷ 4 ∷ 0 ∷ 0 ∷ 0 ∷ 0 ∷ 5 ∷ 6 ∷ 7 ∷ 8 ∷ 0 ∷ 0 ∷ 0 ∷ 0 ∷ []

video_bytes-pixel_example :
    get_or (video_bytes picture 16 rows) (1 * 4 + 2) 0 ≡ get_or rows (1 * 8 + 2) 0
video_bytes-pixel_example =
    video_bytes-pixel picture 16 rows 1 2 refl (omega arith) (omega arith) (omega arith)
      (omega arith)

abbrev producer : Producer
producer = record {
  picture = picture;
  arrival_clock = true;
  audio_anchor = pos 7000;
  audio_frames = 480;
  limiter = fresh_limiter 0 60;
  queues = record {
    video_queue = empty_queue 4;
    audio_queue = empty_queue 4;
    video_buffers = pool;
    audio_buffers = pool;
    video_buffer_bytes = 8;
  };
}

abbrev sample : Sample
sample = record {
  time_result = 0;
  start = pos 0;
  end = pos 0;
  pointer = some (1 ∷ 2 ∷ 3 ∷ 4 ∷ []);
  actual_length = pos 4;
  size = pos 8;
}

-- The second call comes while paused.
abbrev world : ℕ → World
world generation = record {
  recording = true;
  generation = generation;
  now = pos 120000;
  max_length = (0, 8);
  calls = λ k. 0;
}

abbrev calls : List AudioCall
calls =
    record { sample = sample; world = world 0; recording = refl }
    ∷ record { sample = sample; world = world 1; recording = refl }
    ∷ []

push_all-contiguous_example :
    (take_time false (some sample) (pos 999999) (push_all producer calls)).2
    ≡ pos (7000 + frame_ticks (480 + 2))
push_all-contiguous_example = push_all-contiguous 7000 producer calls sample (pos 999999) refl refl

-- 4K in 32 bits: four frames are within the budget.
abbrev large : Picture
large = record { format = rgb32; width = 3840; height = 2160; fps = 60; stride = 15360; bytes = 0 }

prepare_queues-Ready_example : Ready large (prepare_queues large)
prepare_queues-Ready_example = prepare_queues-Ready large
