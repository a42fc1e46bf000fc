-- ===== src/Audio/Ring/Converted.antt =====
-- src/audio/PcmPipeline.cpp, `PcmRing::PushConverted`: the samples of a capture buffer are converted
-- frame by frame into the ring.
pub mod Frames
pub mod Pushes
pub mod Histories
mod Examples
use low_latency_capture_view.Common.{
  ℕ, zero, suc, ◌+◌, ◌-◌, ◌*◌, ◌%◌, Bool, true, false, not, ◌||◌, List, [], ◌∷◌, Option, none, some,
  ◌==◌, leb, if◌then◌else◌, drop,
}
use low_latency_capture_view.Common.Arrays.{blit}
use low_latency_capture_view.Common.Int.{ℤ}
use low_latency_capture_view.Audio.Formats.{Format, is_surround}
use low_latency_capture_view.Audio.Formats.Convert.{Floats, convert_frame, convert_surround_frame}
use low_latency_capture_view.Audio.Ring.{Ring, Observer, prepare_write, publish_available}

-- A ring for surround takes surround frames only, and any other ring takes none.
abbrev pub other_layout : Format → Ring ℤ → Bool
other_layout f r = if r.channels == 6 then not (is_surround f.path) else is_surround f.path

module _ (floats : Floats) (f : Format) where
  -- One frame for a ring of `channels` channels.
  unfoldable pub converted_frame : ℕ → List ℕ → List ℤ
  converted_frame channels source =
      let (left, right) = convert_frame floats source f in
      if channels == 6 then convert_surround_frame floats (some source) f else left ∷ right ∷ []

  -- The `for`: the frames from `i` on, on the rounds that are left.
  unfoldable pub write_frames : ℕ → ℕ → List ℕ → Ring ℤ → Ring ℤ
  unfolding converted_frame
  write_frames zero i source r = r
  write_frames (suc rounds) i source r =
      let destination = (r.write_frame + i) % r.capacity_frames * r.channels in
      let frame = converted_frame r.channels (drop (i * f.block_align) source) in
      write_frames rounds (i + 1) source (record r { samples = blit r.samples destination frame })

  -- Under the lock, after the early returns.
  unfoldable pub push_frames : Observer → List ℕ → ℕ → Ring ℤ → Ring ℤ
  unfolding write_frames publish_available prepare_write
  push_frames observer source frames r =
      let from =
        if leb r.capacity_frames frames
        then drop ((frames - r.capacity_frames) * f.block_align) source
        else source in
      let (r', n) = prepare_write observer frames r in
      let written = write_frames n 0 from r' in
      publish_available (record written {
        write_frame = (written.write_frame + n) % written.capacity_frames;
        available = written.available + n;
      })

  unfoldable pub push_converted : Observer → Option (List ℕ) → ℕ → Ring ℤ → Ring ℤ
  unfolding push_frames
  push_converted observer none frames r = r
  push_converted observer (some source) frames r =
      if frames == 0 || f.block_align == 0
      then r
      else if other_layout f r
      then r
      else push_frames observer source frames r
