-- ===== src/Recording/Pause.antt =====
-- src/recording/RecordingPauseTimeline.h: the worker's map from capture time to recording time, which
-- leaves out what was captured while paused. Times are in units of 100 ns; int64 does not wrap.
pub mod Order
pub mod Runs
mod Examples
use low_latency_capture_view.Common.{
  ℕ, zero, suc, ◌+◌, ◌-◌, ◌*◌, ◌/◌, ◌%◌, ◌^◌, Bool, true, false, not, ◌&&◌, ◌||◌, ◌==◌, ltb,
  if◌then◌else◌,
}
use low_latency_capture_view.Common.Int.{ℤ, pos, negsuc, pos_part, ltb_ℤ, leb_ℤ, max_ℤ, ◌+ℤ◌, ◌-ℤ◌}

pub record Timeline : Type 0 where
  pub generation : ℕ
  pub offset : ℤ
  pub cut_source : ℤ
  pub video_end : ℤ
  pub audio_end : ℤ

pub record Mapped : Type 0 where
  pub time : ℤ
  pub duration : ℤ
  pub skip_audio_frames : ℕ  -- uint32
  pub keep : Bool

unfoldable pub create : Timeline
create = record {
  generation = 0;
  offset = negsuc 0;
  cut_source = negsuc 0;
  video_end = pos 0;
  audio_end = pos 0;
}

pub needs_video : ℕ → Timeline → Bool
needs_video generation t = ltb t.generation generation

abbrev pub nothing : Mapped
nothing = record { time = pos 0; duration = pos 0; skip_audio_frames = 0; keep = false }

-- Frames of 48 kHz that cover `lead`, rounded up, as an uint32.
abbrev pub skip_frames : ℕ → ℕ
skip_frames lead = (lead * 48000 + 9999999) / 10000000 % 4294967296

abbrev pub frames_time : ℕ → ℕ
frames_time frames = frames * 10000000 / 48000

-- A resumed epoch is anchored by its first video frame.
unfoldable pub resume : ℕ → ℤ → Timeline → Timeline
resume generation time t = if generation == t.generation then t else record t {
  generation = generation;
  cut_source = time;
  offset = time -ℤ max_ℤ t.video_end t.audio_end;
}

-- The first stream anchors the start of the recording.
unfoldable pub anchor : ℤ → Timeline → Timeline
anchor time t =
    if ltb_ℤ t.cut_source (pos 0) then record t { offset = time; cut_source = time } else t

-- How many frames of audio lie before the cut or before what is recorded.
unfoldable pub skipped : Bool → ℤ → Timeline → ℕ
skipped true time t = 0
skipped false time t =
    let first = max_ℤ t.cut_source (t.audio_end +ℤ t.offset) in
    if ltb_ℤ time first then skip_frames (pos_part (first -ℤ time)) else 0

-- `end=std::max(end,…)` of the stream's own end.
unfoldable pub advanced : Bool → ℤ → Timeline → Timeline
advanced true to t = record t { video_end = max_ℤ t.video_end to }
advanced false to t = record t { audio_end = max_ℤ t.audio_end to }

-- The end of `Map`: `skip` frames are trimmed, and the stream's end moves on.
unfoldable pub place : Bool → ℕ → ℤ → ℤ → Timeline → Timeline × Mapped
place video skip time duration t =
    let removed = pos (frames_time skip) in
    let time' = time +ℤ removed in
    let duration' = duration -ℤ removed in
    let out = time' -ℤ t.offset in
    if ltb_ℤ time' t.offset || leb_ℤ duration' (pos 0) then (t, nothing) else (
      advanced video (out +ℤ duration') t,
      record { time = out; duration = duration'; skip_audio_frames = skip; keep = true },
    )

unfoldable pub map : Bool → ℕ → ℤ → ℤ → Timeline → Timeline × Mapped
map video generation time duration t =
    let t' = anchor time (resume generation time t) in
    if leb_ℤ duration (pos 0)
      || ltb_ℤ time (pos 0)
      || generation % 2 == 1
      || ltb generation t.generation
    then (t, nothing)
    else if not (generation == t.generation) && not video
    then (t, nothing)
    else place video (skipped video time t') time duration t'
