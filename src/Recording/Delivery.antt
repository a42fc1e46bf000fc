-- ===== src/Recording/Delivery.antt =====
-- src/recording/Recorder.cpp and .h: the delivery queues between the capture callbacks and the worker,
-- and RecordingDeliveryPolicy.h and RgbRecordingPolicy.h, which size them. A buffer is its place in
-- the pool; a packet carries the bytes written into its buffer. A slot is empty until a packet is
-- published there: the worker reads no other.
pub mod Chunks
pub mod Push
pub mod Budget
mod Examples
use low_latency_capture_view.Common.{
  ℕ, zero, suc, ◌+◌, ◌-◌, ◌*◌, ◌/◌, ◌%◌, ◌^◌, min, Bool, true, false, not, ◌&&◌, ◌||◌, List, [],
  ◌∷◌, ◌==◌, ltb, leb, Option, none, some, if◌then◌else◌, length, set, get_or, replicate,
}
use low_latency_capture_view.Common.Hresult.{e_outofmemory}
use low_latency_capture_view.Recording.Session.State.{sub_u64, add_u64}
use low_latency_capture_view.Recording.Session.Formats.{
  PixelFormat, yuy2, rgb24, rgb32, is_mjpeg, is_rgb,
}
use low_latency_capture_view.Recording.Buffers.{Pool, allocate}
use low_latency_capture_view.Recording.Status.{Operation}

pub record Packet : Type 0 where
  pub time : ℕ
  pub duration : ℕ
  pub pause_generation : ℕ
  pub video : Bool
  pub buffer : ℕ
  pub bytes : List ℕ

-- `Ring` of the source.
pub record Queue : Type 0 where
  pub packets : List (Option Packet)
  pub write : ℕ  -- size_t
  pub read : ℕ  -- size_t

-- A call of `Fail`.
abbrev pub Failed : Type 0
Failed = Option (ℕ × Operation)

abbrev pub used : Queue → ℕ
used q = sub_u64 q.write q.read

-- Packet `i` behind those that are published.
abbrev pub slot_of : Queue → ℕ → ℕ
slot_of q i = (q.write + i) % length q.packets

abbrev pub audio_buffer_bytes : ℕ
audio_buffer_bytes = 19200

-- 48 kHz, 16-bit stereo, in units of 100 ns.
abbrev pub audio_ticks : ℕ → ℕ
audio_ticks bytes = bytes / 4 * 10000000 / 48000

pub record Policy : Type 0 where
  pub video_packets : ℕ
  pub video_buffers : ℕ
  pub audio_packets : ℕ
  pub audio_buffers : ℕ

unfoldable pub recording_delivery_policy : Bool → Policy
recording_delivery_policy mjpeg =
    let n = if mjpeg then 8 else 16 in
    record { video_packets = n; video_buffers = n; audio_packets = 32; audio_buffers = 64 }

abbrev pub rgb_capture_budget : ℕ
rgb_capture_budget = 128 * 1024 * 1024

unfoldable pub rgb_buffer_count : ℕ → ℕ → ℕ
rgb_buffer_count frame_bytes budget =
    if not (frame_bytes == 0) && leb frame_bytes budget then min 16 (budget / frame_bytes) else 0

-- The capture format, as far as the delivery reads it; the numbers are positive.
pub record Picture : Type 0 where
  pub format : PixelFormat
  pub width : ℕ
  pub height : ℕ
  pub fps : ℕ
  pub stride : ℕ
  pub bytes : ℕ

abbrev pub is_yuy2 : PixelFormat → Bool
is_yuy2 yuy2 = true
is_yuy2 _ = false

abbrev pub is_rgb24 : PixelFormat → Bool
is_rgb24 rgb24 = true
is_rgb24 _ = false

-- The bytes of a frame in a capture buffer.
unfoldable pub capture_bytes : Picture → ℕ
capture_bytes v =
    if is_rgb v.format
    then v.width * v.height * (if is_rgb24 v.format then 3 else 4)
    else v.width
      * v.height
      * (if is_yuy2 v.format then 2 else 3)
      / (if is_yuy2 v.format then 1 else 2)

pub record Queues : Type 0 where
  pub video_queue : Queue
  pub audio_queue : Queue
  pub video_buffers : Pool
  pub audio_buffers : Pool
  pub video_buffer_bytes : ℕ

abbrev pub empty_queue : ℕ → Queue
empty_queue size = record { packets = replicate size none; write = 0; read = 0 }

-- The policy in force: `none` where the budget holds too few RGB frames, and `E_OUTOFMEMORY` is thrown.
unfoldable pub policy_for : Picture → Option Policy
policy_for v =
    let policy = recording_delivery_policy (is_mjpeg v.format) in
    let count = rgb_buffer_count (capture_bytes v) rgb_capture_budget in
    if is_rgb v.format
    then (if ltb count 4
        then none
        else some (record policy { video_buffers = count; video_packets = count }))
    else some policy

unfoldable pub prepare_queues : Picture → Option Queues
unfolding policy_for allocate
prepare_queues v = elim (policy_for v) [
  | none ↦ none
  | some policy ↦ some (record {
    video_queue = empty_queue policy.video_packets;
    audio_queue = empty_queue policy.audio_packets;
    video_buffers = allocate policy.video_buffers;
    audio_buffers = allocate policy.audio_buffers;
    video_buffer_bytes =
        if is_mjpeg v.format
        then (if v.bytes == 0 then v.width * v.height * 3 else v.bytes)
        else capture_bytes v;
  })
]
