-- ===== src/Audio/Ring/View/Pop.antt =====
-- `Pop` against the list of samples that wait: it copies out the oldest, and drops them.
use low_latency_capture_view.Common.{
  ℕ, zero, suc, ◌+◌, ◌-◌, ◌*◌, ◌%◌, ◌≤◌, ◌<◌, ◌≡◌, refl, sym, ap, ◌∙◌, min, inl, inr, ◌++◌, arith,
  length, take, drop, Bool, true, false, ◌==◌, Bool-cases, suc-ne-zero,
}
use low_latency_capture_view.Common.Arrays.{take-window, slice, window, take-min, drop-min}
use low_latency_capture_view.Common.Cyclic.{min-mul, sub-mul, cell, slices-window}
use native.Mathlib.Nat.{mod-lt, mul-le-mul_right}
use mathlib.Core.Path.{ap₂}
use low_latency_capture_view.Audio.Ring.{Ring, pop, publish_available}
use low_latency_capture_view.Audio.Ring.Space.{IsValid}
use low_latency_capture_view.Audio.Ring.View.{contents, length-contents, advance, write_stays}

module _ {ℓ} {A : Type ℓ} (z : A) where
  module _ (frames : ℕ) (r : Ring A) (v : IsValid r) where
    count : ℕ
    count = min frames r.available

    -- The samples of the frames popped, of those asked for.
    count-mul : count * r.channels ≡ min (frames * r.channels) (length (contents z r))
    unfolding count
    count-mul =
        min-mul frames r.available r.channels
        ∙ ap (min (frames * r.channels)) (sym (length-contents z r))

    first-mul :
        min count (r.capacity_frames - r.read_frame) * r.channels
        ≡ min (count * r.channels) (r.capacity_frames * r.channels - r.read_frame * r.channels)
    first-mul =
        min-mul count (r.capacity_frames - r.read_frame) r.channels
        ∙ ap (min (count * r.channels)) (sub-mul r.capacity_frames r.read_frame r.channels)

    -- The two `copy_n` of `Pop` copy the oldest samples in order.
    popped-contents :
        slice r.samples
            (r.read_frame * r.channels)
            (min count (r.capacity_frames - r.read_frame) * r.channels)
          ++ slice r.samples 0 ((count - min count (r.capacity_frames - r.read_frame)) * r.channels)
        ≡ take (frames * r.channels) (contents z r)
    unfolding contents count
    popped-contents =
        let size = r.capacity_frames * r.channels in
        let start = r.read_frame * r.channels in
        let first = min count (r.capacity_frames - r.read_frame) in
        let inside : start < size = grind (arith, v.read_inside, v.has_channels) in
        let few : count ≤ r.available = omega arith in
        let fits : count * r.channels ≤ size =
          mul-le-mul_right r.channels (omega (arith, v.available_fits)) in
        ap₂ (λ a b. slice r.samples start a ++ slice r.samples 0 b) first-mul
          (sub-mul count first r.channels ∙ ap (λ t. count * r.channels - t) first-mul)
        ∙ slices-window z r.samples size start (count * r.channels) v.sized inside fits
        ∙ sym (
            take-window (cell z r.samples size) start (count * r.channels)
              (r.available * r.channels) (mul-le-mul_right r.channels few))
        ∙ ap (λ t. take t (contents z r)) count-mul
        ∙ take-min (frames * r.channels) (contents z r)

    remaining-contents :
        window
          (cell z r.samples (r.capacity_frames * r.channels))
          ((r.read_frame + count) % r.capacity_frames * r.channels)
          ((r.available - count) * r.channels)
        ≡ drop (frames * r.channels) (contents z r)
    unfolding contents count
    remaining-contents =
        advance z r.samples r.capacity_frames r.channels r.read_frame r.available count
          v.has_channels v.read_inside v.available_fits (omega arith)
        ∙ ap (λ t. drop t (contents z r)) count-mul
        ∙ drop-min (frames * r.channels) (contents z r)

  pub pop-contents :
      (frames : ℕ) (r : Ring A)
      → IsValid r
      → ((pop true frames r).1 ≡ take (frames * r.channels) (contents z r))
        × (contents z (pop true frames r).2 ≡ drop (frames * r.channels) (contents z r))
  unfolding pop contents count
  pop-contents zero r v = let nothing : 0 * r.channels ≡ 0 = omega arith in rw nothing (refl, refl)
  pop-contents (suc n) r v =
      rw (suc-ne-zero n) (popped-contents (suc n) r v, remaining-contents (suc n) r v)

  popped-IsValid :
      (frames : ℕ) (r : Ring A)
      → IsValid r
      → IsValid (record r {
        read_frame = (r.read_frame + min frames r.available) % r.capacity_frames;
        available = r.available - min frames r.available;
      })
  popped-IsValid frames r v = record {
    has_capacity = v.has_capacity;
    has_channels = v.has_channels;
    sized = v.sized;
    read_inside = mod-lt _ v.has_capacity;
    available_fits = omega (arith, v.available_fits);
    write_follows =
        v.write_follows
        ∙ write_stays z r.read_frame r.available (min frames r.available) r.capacity_frames
            (omega arith);
  }

  publish-IsValid : (r : Ring A) → IsValid r → IsValid (publish_available r)
  unfolding publish_available
  publish-IsValid r v = record {
    has_capacity = v.has_capacity;
    has_channels = v.has_channels;
    sized = v.sized;
    read_inside = v.read_inside;
    available_fits = v.available_fits;
    write_follows = v.write_follows;
  }

  pub pop-IsValid :
      (valid : Bool) (frames : ℕ) (r : Ring A) → IsValid r → IsValid (pop valid frames r).2
  unfolding pop
  pop-IsValid false frames r v = v
  pop-IsValid true frames r v = elim (Bool-cases (frames == 0)) [
    | inl e ↦ rw e v
    | inr e ↦ rw e (publish-IsValid _ (popped-IsValid frames r v))
  ]
