-- ===== src/Recording/Delivery/Push.antt =====
-- src/recording/Recorder.cpp, `Recorder::Push`: what a capture callback does with a sample. `World` is
-- what the call finds: whether the tests of the session pass, the pause generation, the clock in
-- units of 100 ns, and what the media buffer's calls return. Audio counts and times do not wrap.
pub mod Packing
pub mod Enqueued
pub mod Anchored
use low_latency_capture_view.Common.{
  ℕ, zero, suc, ◌+◌, ◌-◌, ◌*◌, ◌/◌, ◌%◌, min, Bool, true, false, not, ◌&&◌, ◌||◌, List, [], ◌∷◌,
  ◌++◌, ◌==◌, ltb, leb, Option, none, some, if◌then◌else◌, length, set, take, drop,
}
use low_latency_capture_view.Common.Hresult.{
  s_ok, e_pointer, e_invalidarg, e_buffer_overflow, failed,
}
use low_latency_capture_view.Common.Int.{
  ℤ, pos, negsuc, pos_part, ltb_ℤ, leb_ℤ, max_ℤ, tdiv_ℤ, ◌+ℤ◌, ◌-ℤ◌, ◌*ℤ◌,
}
use low_latency_capture_view.Recording.Session.State.{add_u64}
use low_latency_capture_view.Recording.Session.Formats.{PixelFormat, nv12, rgb24, rgb32, is_mjpeg}
use low_latency_capture_view.Recording.Buffers.{Pool, acquire, release}
use low_latency_capture_view.Recording.Status.{Operation, input, encoder, queue}
use low_latency_capture_view.Recording.Limiter.{Limiter, accept}
use low_latency_capture_view.Recording.Delivery.{
  Packet, Queue, Queues, Picture, Failed, used, slot_of, audio_buffer_bytes, audio_ticks,
}
use low_latency_capture_view.Recording.Delivery.Chunks.{push_audio_chunks}

-- A media sample; `pointer` is none where `GetPointer` fails or gives the null pointer.
pub record Sample : Type 0 where
  pub time_result : ℕ
  pub start : ℤ
  pub end : ℤ
  pub pointer : Option (List ℕ)
  pub actual_length : ℤ
  pub size : ℤ

pub record World : Type 0 where
  pub recording : Bool
  pub generation : ℕ
  pub now : ℤ
  pub max_length : ℕ × ℕ  -- the result of `GetMaxLength`, and the length
  pub calls : ℕ → ℕ

pub record Producer : Type 0 where
  pub picture : Picture
  pub arrival_clock : Bool
  pub audio_anchor : ℤ
  pub audio_frames : ℕ
  pub limiter : Limiter
  pub queues : Queues

-- `length / 4 * 10000000 / 48000`
abbrev pub pcm_ticks : ℤ → ℤ
pcm_ticks n = tdiv_ℤ (tdiv_ℤ n (pos 4) *ℤ pos 10000000) (pos 48000)

abbrev pub frame_ticks : ℕ → ℕ
frame_ticks frames = frames * 10000000 / 48000

-- The producer after the time is taken, its result, and the time.
abbrev pub Timed : Type 0
Timed = Producer × ℕ × ℤ × ℤ

unfoldable pub audio_arrival : Sample → ℤ → Producer → Timed
audio_arrival s now r =
    let duration = pcm_ticks s.actual_length in
    let anchor = if ltb_ℤ r.audio_anchor (pos 0) then now -ℤ duration else r.audio_anchor in
    let start = anchor +ℤ pos (frame_ticks r.audio_frames) in
    (
      record r {
        audio_anchor = anchor;
        audio_frames = r.audio_frames + pos_part s.actual_length / 4;
      },
      s_ok,
      start,
      start +ℤ duration,
    )

unfoldable pub take_time : Bool → Option Sample → ℤ → Producer → Timed
unfolding audio_arrival
take_time video none now r =
    let duration = if video then pos (10000000 / r.picture.fps) else pos 0 in
    if r.arrival_clock then (r, s_ok, now -ℤ duration, now) else (r, e_pointer, pos 0, pos 0)
take_time video (some s) now r =
    if not r.arrival_clock
    then (r, s.time_result, s.start, s.end)
    else if video
    then (r, s_ok, now -ℤ pos (10000000 / r.picture.fps), now)
    else audio_arrival s now r

abbrev pub row_width : PixelFormat → ℕ
row_width rgb24 = 3
row_width rgb32 = 4
row_width nv12 = 1
row_width _ = 2

abbrev pub row_of : Picture → ℕ
row_of v = v.width * row_width v.format

abbrev pub is_nv12 : PixelFormat → Bool
is_nv12 nv12 = true
is_nv12 _ = false

abbrev pub rows_of : Picture → ℕ
rows_of v = v.height * (if is_nv12 v.format then 3 else 2) / 2

-- The copy of the rows, from row `y` on.
unfoldable pub copy_rows : ℕ → ℕ → ℕ → ℕ → List ℕ → List ℕ
copy_rows zero y row stride source = []
copy_rows (suc rows) y row stride source =
    take row (drop (y * stride) source) ++ copy_rows rows (y + 1) row stride source

-- The bytes that a video buffer receives.
unfoldable pub video_bytes : Picture → ℕ → List ℕ → List ℕ
unfolding copy_rows
video_bytes v n source =
    if is_mjpeg v.format
    then take n source
    else if row_of v == v.stride
    then take (row_of v * rows_of v) source
    else copy_rows (rows_of v) 0 (row_of v) v.stride source

abbrev pub mf_e_buffertoosmall : ℕ
mf_e_buffertoosmall = 0xC00D36B1

-- Why a sample of `n` bytes is refused once it has its buffer.
unfoldable pub unfit : Bool → Picture → World → ℕ → Failed
unfit video v w n =
    let capacity = w.max_length in
    if not video
    then (if not (n % 4 == 0) then some (e_invalidarg, input) else none)
    else if not (is_mjpeg v.format) && ltb n (v.stride * rows_of v)
    then some (e_invalidarg, input)
    else if is_mjpeg v.format && failed capacity.0
    then some (capacity.0, encoder)
    else if is_mjpeg v.format && ltb capacity.1 n
    then some (mf_e_buffertoosmall, input)
    else none

unfoldable pub broken_buffer : Bool → Picture → World → ℕ → Failed
unfolding unfit
broken_buffer video v w n = elim (unfit video v w n) [
  | some f ↦ some f
  | none ↦ if failed (w.calls 0) then some (w.calls 0, encoder) else none
]

abbrev pub video_duration : Producer → ℤ → ℤ → ℕ
video_duration r start end =
    if r.limiter.fps == 0
    then (if ltb_ℤ start end then pos_part (end -ℤ start) else 10000000 / r.picture.fps)
    else 10000000 / r.limiter.fps

unfoldable pub packet_of : Bool → Producer → World → ℤ → ℤ → ℕ → List ℕ → ℕ → Packet
unfolding video_bytes
packet_of video r w start end n source buffer = record {
  time = pos_part start;
  duration = if video then video_duration r start end else audio_ticks n;
  pause_generation = w.generation;
  video = video;
  buffer = buffer;
  bytes = if video then video_bytes r.picture n source else take n source;
}

abbrev pub store : Queue → Packet → Queue
store q x = record q { packets = set q.packets (slot_of q 0) (some x); write = add_u64 q.write 1 }

-- One packet, from the test of the queue on; the packet is a function of its buffer.
unfoldable pub enqueue : Failed → (ℕ → Packet) → Queue → Pool → Queue × Pool × Failed
unfolding acquire release
enqueue broken packet q p =
    let leased = acquire p in
    if leb (length q.packets) (used q)
    then (q, p, some (e_buffer_overflow, queue))
    else elim (leased.1) [
      | none ↦ (q, leased.0, some (e_buffer_overflow, queue))
      | some i ↦ elim broken [
        | some f ↦ (q, release i leased.0, some f)
        | none ↦ (store q (packet i), leased.0, none)
      ]
    ]

abbrev pub with_video : Producer → Queue × Pool × Failed → Producer × Failed
with_video r (q, p, f) =
    (record r { queues = record (r.queues) { video_queue = q; video_buffers = p } }, f)

abbrev pub with_audio : Producer → Queue × Pool × Failed → Producer × Failed
with_audio r (q, p, f) =
    (record r { queues = record (r.queues) { audio_queue = q; audio_buffers = p } }, f)

-- A sample that is timed and tested.
unfoldable pub deliver : Bool → World → ℤ → ℤ → ℕ → List ℕ → Producer → Producer × Failed
unfolding enqueue push_audio_chunks broken_buffer packet_of
deliver true w start end n source r = with_video r (
    enqueue (broken_buffer true r.picture w n) (packet_of true r w start end n source)
      r.queues.video_queue r.queues.video_buffers)
deliver false w start end n source r = with_audio r (
    if ltb audio_buffer_bytes n
    then push_audio_chunks w.calls w.generation (pos_part start) (take n source)
        r.queues.audio_queue r.queues.audio_buffers
    else enqueue (broken_buffer false r.picture w n) (packet_of false r w start end n source)
        r.queues.audio_queue r.queues.audio_buffers)

unfoldable pub limit : Bool → ℤ → Producer → Producer × Bool
unfolding accept
limit video start r =
    let (l, kept) = accept start r.limiter in
    if video then (record r { limiter = l }, kept) else (r, true)

-- From the tests of the sample on.
unfoldable pub push_timed : Bool → World → Option Sample → Timed → Producer × Failed
unfolding limit deliver
push_timed video w none (r, hr, start, end) = (r, some (e_invalidarg, input))
push_timed video w (some s) (r, hr, start, end) = elim (s.pointer) [
  | none ↦ (r, some (e_invalidarg, input))
  | some source ↦
      let (r', kept) = limit video start r in
      if failed hr || ltb_ℤ start (pos 0)
      then (r, some (e_invalidarg, input))
      else if leb_ℤ s.actual_length (pos 0) || ltb_ℤ s.size s.actual_length
      then (r, some (e_invalidarg, input))
      else if not kept
      then (r', none)
      else deliver video w start end (pos_part s.actual_length) source r'
]

unfoldable pub push : Bool → Option Sample → World → Producer → Producer × Failed
unfolding take_time push_timed
push video sample w r =
    let timed = take_time video sample w.now r in
    if not w.recording
    then (r, none)
    else if w.generation % 2 == 1
    then (timed.0, none)
    else push_timed video w sample timed
