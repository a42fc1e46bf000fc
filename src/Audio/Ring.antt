-- ===== src/Audio/Ring.antt =====
-- src/audio/PcmPipeline.h and .cpp, class PcmRing: the mailbox between the capture callback and the
-- audio renderer. A sample is any type `A`; `z` is the sample that `data_.assign(…, 0)` writes. The
-- mutex makes each call one step. `overrunObserver_` is what the observer answers to this call, if
-- one is set. Sums of `size_t` do not wrap: they count samples of a vector in memory.
pub mod Space
pub mod View
pub mod Setup
pub mod Mailbox
pub mod Converted
mod Examples
use low_latency_capture_view.Common.{
  ℕ, zero, suc, ◌+◌, ◌-◌, ◌*◌, ◌%◌, ◌^◌, min, max, Bool, true, false, not, ◌||◌, ◌&&◌, List, [],
  ◌++◌, ◌==◌, Option, none, some, ltb, leb, if◌then◌else◌, take, drop, replicate,
}
use low_latency_capture_view.Common.Arrays.{blit, slice}
use mathlib.Core.Option

pub record Ring {ℓ} (A : Type ℓ) : Type ℓ where
  pub channels : ℕ
  pub capacity_frames : ℕ
  pub samples : List A  -- data_
  pub read_frame : ℕ
  pub write_frame : ℕ
  pub available : ℕ
  pub overruns : ℕ  -- uint64
  pub published_frames : Option ℕ  -- the value behind the pointer, if it is set

abbrev pub uint32_max : ℕ
uint32_max = 0xFFFFFFFF

-- What the observer answers to a number of dropped frames; `none` is the null pointer.
abbrev pub Observer : Type 0
Observer = Option (ℕ → Bool)

abbrev pub answers : Observer → ℕ → Bool
answers none dropped = false
answers (some f) dropped = f dropped

-- The `while` of `PrepareWrite` makes one round at most; the fuel is one more.
abbrev pub space_fuel : ℕ
space_fuel = 2

module _ {ℓ} {A : Type ℓ} where
  unfoldable pub publish_available : Ring A → Ring A
  publish_available r = record r {
    published_frames = Option.map (λ _. min r.available uint32_max) r.published_frames;
  }

  unfoldable pub create : A → ℕ → Option ℕ → Ring A
  unfolding publish_available
  create z capacity published = publish_available (record {
    channels = 2;
    capacity_frames = max 1 capacity;
    samples = replicate (max 1 capacity * 2) z;
    read_frame = 0;
    write_frame = 0;
    available = 0;
    overruns = 0;
    published_frames = published;
  })

  -- `none` is the exception of an unsupported channel count.
  unfoldable pub configure_channels : A → ℕ → Ring A → Option (Ring A)
  unfolding publish_available
  configure_channels z n r =
      if not (n == 2) && not (n == 6)
      then none
      else some (
          publish_available (record r {
            samples = replicate (r.capacity_frames * n) z;
            channels = n;
            read_frame = 0;
            write_frame = 0;
            available = 0;
          }))

  unfoldable pub count_overrun : Bool → Ring A → Ring A
  count_overrun seen r = if seen then record r { overruns = (r.overruns + 1) % 2 ^ 64 } else r

  -- The body of the `while` of `PrepareWrite`.
  unfoldable pub drop_oldest : Observer → ℕ → Ring A → Ring A
  unfolding count_overrun
  drop_oldest observer frames r =
      let dropped = min (r.available + frames - r.capacity_frames) r.available in
      count_overrun (answers observer dropped) (record r {
        read_frame = (r.read_frame + dropped) % r.capacity_frames;
        available = r.available - dropped;
      })

  -- The `while` itself, on fuel.
  unfoldable pub make_space : ℕ → Observer → ℕ → Ring A → Ring A
  make_space zero observer frames r = r
  make_space (suc fuel) observer frames r =
      let rest = make_space fuel observer frames (drop_oldest observer frames r) in
      if ltb r.capacity_frames (r.available + frames) then rest else r

  unfoldable pub prepare_write : Observer → ℕ → Ring A → Ring A × ℕ
  unfolding make_space count_overrun
  prepare_write observer frames r =
      let dropped = r.available + (frames - r.capacity_frames) in
      let flushed = record r { read_frame = 0; write_frame = 0; available = 0 } in
      if leb r.capacity_frames frames
      then (
        count_overrun (not (dropped == 0) && answers observer dropped) flushed,
        r.capacity_frames,
      )
      else (make_space space_fuel observer frames r, frames)

  -- Both `copy_n` and the publication, on a ring with room for `frames`.
  unfoldable pub write_spans : List A → ℕ → Ring A → Ring A
  unfolding publish_available
  write_spans s frames r =
      let first = min frames (r.capacity_frames - r.write_frame) in
      let upper = blit r.samples (r.write_frame * r.channels) (take (first * r.channels) s) in
      let both =
        blit upper 0 (take ((frames - first) * r.channels) (drop (first * r.channels) s)) in
      publish_available (record r {
        samples = both;
        write_frame = (r.write_frame + frames) % r.capacity_frames;
        available = r.available + frames;
      })

  -- `samples += (frames - capacityFrames_) * channels_`
  abbrev pub newest : List A → ℕ → Ring A → List A
  newest s frames r =
      if leb r.capacity_frames frames then drop ((frames - r.capacity_frames) * r.channels) s else s

  unfoldable pub push_samples : Observer → List A → ℕ → Ring A → Ring A
  unfolding prepare_write write_spans
  push_samples observer s frames r =
      let (r', n) = prepare_write observer frames r in write_spans (newest s frames r) n r'

  unfoldable pub push : Observer → Option (List A) → ℕ → Ring A → Ring A
  unfolding push_samples
  push observer none frames r = r
  push observer (some s) frames r = if frames == 0 then r else push_samples observer s frames r

  -- The frames popped, their samples, and the ring after; `valid` is that `output` is not null.
  unfoldable pub pop : Bool → ℕ → Ring A → ℕ × List A × Ring A
  unfolding publish_available
  pop valid frames r =
      let count = min frames r.available in
      let first = min count (r.capacity_frames - r.read_frame) in
      let out =
        slice r.samples (r.read_frame * r.channels) (first * r.channels)
        ++ slice r.samples 0 ((count - first) * r.channels) in
      if not valid || frames == 0 then (0, [], r) else (
        count,
        out,
        publish_available (record r {
          read_frame = (r.read_frame + count) % r.capacity_frames;
          available = r.available - count;
        }),
      )

  unfoldable pub clear : Ring A → Ring A
  unfolding publish_available
  clear r = publish_available (record r { read_frame = 0; write_frame = 0; available = 0 })
