-- ===== src/Audio/Ring/Converted/Pushes.antt =====
-- `PushConverted` against `Push`.
use low_latency_capture_view.Common.{
  ℕ, zero, suc, ◌+◌, ◌-◌, ◌*◌, ◌%◌, ◌≤◌, ◌<◌, ◌≡◌, refl, sym, ap, subst, ◌∙◌, false, not, ◌&&◌, ◌⊎◌,
  inl, inr, List, [], ◌++◌, some, ◌==◌, drop, length, arith, lt→leb_false, le→leb, length-append,
  suc-ne-zero, pos-ne-zero,
}
use low_latency_capture_view.Common.Arrays.{take-all, drop-drop, drop-append_over, window}
use low_latency_capture_view.Common.Cyclic.{lt_or_le, cell}
use low_latency_capture_view.Common.Int.{ℤ}
use native.Mathlib.Nat.{mod-lt, mod-eq_of_lt, add-mul}
use mathlib.Core.Path.{ap₂}
use low_latency_capture_view.Audio.Formats.{Format}
use low_latency_capture_view.Audio.Formats.Convert.{Floats}
use low_latency_capture_view.Audio.Ring.{
  Ring, Observer, answers, prepare_write, make_space, space_fuel, publish_available, push,
  push_samples, write_spans,
}
use low_latency_capture_view.Audio.Ring.Space.{IsValid}
use low_latency_capture_view.Audio.Ring.View.{contents, write_spans-contents}
use low_latency_capture_view.Audio.Ring.View.Calls.{
  push_samples_small, push_samples_large, all_dropped, made_space, spaced-IsValid, has_room,
  flushed-IsValid, flushed-fields,
}
use low_latency_capture_view.Audio.Ring.Converted.{
  converted_frame, write_frames, push_frames, push_converted, other_layout,
}
use low_latency_capture_view.Audio.Ring.Converted.Frames.{
  all_frames, moved_on, write_frames-contents, length-converted_frame,
}

module _ (floats : Floats) (f : Format) (channels : ℕ) (c : (channels ≡ 2) ⊎ (channels ≡ 6)) where
  length-all_frames :
      (source : List ℕ) (i n : ℕ) → length (all_frames floats f channels source i n) ≡ n * channels
  length-all_frames source i zero = omega arith
  length-all_frames source i (suc n) =
      length-append (converted_frame floats f channels (drop (i * f.block_align) source)) _
      ∙ ap₂ ◌+◌ (length-converted_frame floats f channels _ c) (length-all_frames source (i + 1) n)
      ∙ sym (grind arith)

  -- A source that starts `k` frames later.
  all_frames-drop :
      (source : List ℕ) (k i n : ℕ)
      → all_frames floats f channels (drop (k * f.block_align) source) i n
        ≡ all_frames floats f channels source (k + i) n
  all_frames-drop source k i zero = refl
  all_frames-drop source k i (suc n) =
      ap₂ ◌++◌
        (ap (converted_frame floats f channels) (
          drop-drop (i * f.block_align) (k * f.block_align) source
          ∙ ap (λ t. drop t source) (sym (add-mul k i f.block_align))))
        (all_frames-drop source k (i + 1) n
          ∙ ap (λ t. all_frames floats f channels source t n) {x = k + (i + 1)} (omega arith))

  drop-all_frames :
      (source : List ℕ) (k i n : ℕ)
      → drop (k * channels) (all_frames floats f channels source i (k + n))
        ≡ all_frames floats f channels source (i + k) n
  drop-all_frames source zero i n =
      let none_dropped : 0 * channels ≡ 0 = omega arith in
      let as_many : 0 + n ≡ n = omega arith in
      ap₂ (λ a b. drop a (all_frames floats f channels source i b)) none_dropped as_many
      ∙ ap (λ t. all_frames floats f channels source t n) {x = i} {y = i + 0} (omega arith)
  drop-all_frames source (suc k) i n =
      let frame = converted_frame floats f channels (drop (i * f.block_align) source) in
      let rest = all_frames floats f channels source (i + 1) (k + n) in
      let e : length frame ≡ channels = length-converted_frame floats f channels _ c in
      let more : suc k + n ≡ suc (k + n) = omega arith in
      let over : suc k * channels ≡ channels + k * channels = grind arith in
      rw (more, over)
        (drop-append_over (channels + k * channels) frame rest (omega arith)
          ∙ ap (λ t. drop t rest) {x = channels + k * channels - length frame} {y = k * channels}
              (omega arith)
          ∙ drop-all_frames source k (i + 1) n
          ∙ ap (λ t. all_frames floats f channels source t n) {x = i + 1 + k} (omega arith))

not_moved-IsValid : (r : Ring ℤ) → IsValid r → IsValid (moved_on 0 r)
not_moved-IsValid r v = record {
  has_capacity = v.has_capacity;
  has_channels = v.has_channels;
  sized = v.sized;
  read_inside = v.read_inside;
  available_fits = omega (arith, v.available_fits);
  write_follows =
      let inside : r.write_frame < r.capacity_frames =
        let e = v.write_follows in
        let l = mod-lt (r.read_frame + r.available) v.has_capacity in omega arith in
      (let same : r.write_frame + 0 ≡ r.write_frame = omega arith in rw same (mod-eq_of_lt inside))
      ∙ v.write_follows
      ∙ ap (λ t. (r.read_frame + t) % r.capacity_frames) {x = r.available} (omega arith);
}

publish-contents : (z : ℤ) (r : Ring ℤ) → contents z (publish_available r) ≡ contents z r
unfolding contents publish_available
publish-contents z r = refl

not_moved-contents : (z : ℤ) (r : Ring ℤ) → contents z (moved_on 0 r) ≡ contents z r
unfolding contents
not_moved-contents z r =
    ap
      (λ t.
        window (cell z r.samples (r.capacity_frames * r.channels)) (r.read_frame * r.channels)
          (t * r.channels))
      {x = r.available + 0} (omega arith)

module _ (z : ℤ) (floats : Floats) (f : Format) where
  -- Both ways to write `n` frames into a ring with room for them.
  written-contents :
      (source : List ℕ) (n : ℕ) (r : Ring ℤ)
      → (r.channels ≡ 2) ⊎ (r.channels ≡ 6)
      → IsValid r
      → 0 < n
      → r.available + n ≤ r.capacity_frames
      → contents z (publish_available (moved_on n (write_frames floats f n 0 source r)))
        ≡ contents z (write_spans (all_frames floats f r.channels source 0 n) n r)
  written-contents source n r c v p h =
      let s = all_frames floats f r.channels source 0 n in
      let l = length-all_frames floats f r.channels c source 0 n in
      publish-contents z (moved_on n (write_frames floats f n 0 source r))
      ∙ ap (λ t. contents z (moved_on t (write_frames floats f n 0 source r))) {x = n} {y = 0 + n}
          (omega arith)
      ∙ write_frames-contents z floats f source n 0 r c (not_moved-IsValid r v) (omega arith)
      ∙ ap₂ ◌++◌ (not_moved-contents z r) (sym (take-all (n * r.channels) s (omega arith)))
      ∙ sym (write_spans-contents z s n r v p h (omega arith))

  module _ (o : Observer) (source : List ℕ) (frames : ℕ) (r : Ring ℤ) where
    pub push_frames_few :
        frames < r.capacity_frames
        → push_frames floats f o source frames r
          ≡ publish_available (
              moved_on frames
                (write_frames floats f frames 0 source (make_space space_fuel o frames r)))
    unfolding push_frames prepare_write
    push_frames_few h = rw (lt→leb_false r.capacity_frames frames h) refl

    pub push_frames_many :
        r.capacity_frames ≤ frames
        → push_frames floats f o source frames r
          ≡ publish_available (
              moved_on r.capacity_frames (
                write_frames floats f r.capacity_frames 0
                  (drop ((frames - r.capacity_frames) * f.block_align) source)
                  (all_dropped o [] frames r)))
    unfolding push_frames prepare_write
    push_frames_many h = rw (le→leb r.capacity_frames frames h) refl

  module _ (o : Observer) (source : List ℕ) (frames : ℕ) (r : Ring ℤ)
      (c : (r.channels ≡ 2) ⊎ (r.channels ≡ 6)) (v : IsValid r) (p : 0 < frames) where
    few-contents :
        frames < r.capacity_frames
        → contents z (push_frames floats f o source frames r)
          ≡ contents z (push_samples o (all_frames floats f r.channels source 0 frames) frames r)
    few-contents h =
        let r' = make_space space_fuel o frames r in
        let same : r'.channels ≡ r.channels = (made_space z o [] frames r v h).same_channels in
        let s = all_frames floats f r.channels source 0 frames in
        ap (contents z) (push_frames_few o source frames r h)
        ∙ written-contents source frames r' (subst (λ n. (n ≡ 2) ⊎ (n ≡ 6)) (sym same) c)
            (spaced-IsValid z o [] frames r v h) p (has_room z o [] frames r v h)
        ∙ ap (λ n. contents z (write_spans (all_frames floats f n source 0 frames) frames r')) same
        ∙ ap (contents z) (sym (push_samples_small o s frames r h))

    many-contents :
        r.capacity_frames ≤ frames
        → contents z (push_frames floats f o source frames r)
          ≡ contents z (push_samples o (all_frames floats f r.channels source 0 frames) frames r)
    many-contents h =
        let extra = frames - r.capacity_frames in
        let r' = all_dropped o [] frames r in
        let dropped = r.available + extra in
        let seen = not (dropped == 0) && answers o dropped in
        let (empty, capacity, same) = flushed-fields z seen r in
        let s = all_frames floats f r.channels source 0 frames in
        let newest : all_frames floats f r.channels (drop (extra * f.block_align) source) 0
              r.capacity_frames
            ≡ drop (extra * r.channels) s =
          all_frames-drop floats f r.channels c source extra 0 r.capacity_frames
          ∙ ap (λ t. all_frames floats f r.channels source t r.capacity_frames) {x = extra + 0}
              {y = 0 + extra} (omega arith)
          ∙ sym (drop-all_frames floats f r.channels c source extra 0 r.capacity_frames)
          ∙ ap (λ t. drop (extra * r.channels) (all_frames floats f r.channels source 0 t))
              {x = extra + r.capacity_frames} (omega arith) in
        ap (contents z) (push_frames_many o source frames r h)
        ∙ written-contents (drop (extra * f.block_align) source) r.capacity_frames r'
            (subst (λ n. (n ≡ 2) ⊎ (n ≡ 6)) (sym same) c) (flushed-IsValid z seen r v)
            v.has_capacity (omega (arith, empty, capacity))
        ∙ ap
            (λ n. contents z (
              write_spans
                (all_frames floats f n (drop (extra * f.block_align) source) 0 r.capacity_frames)
                r.capacity_frames r'))
            same
        ∙ ap (λ t. contents z (write_spans t r.capacity_frames r')) newest
        ∙ ap (contents z) (sym (push_samples_large o s frames r h))

  -- On a valid ring of two or six channels, for frames of at least one byte and a format whose path
  -- goes with the channels: after `PushConverted` of a buffer, the samples that wait in the ring are
  -- those that wait after `Push` of the converted frames.
  pub push_converted-push :
      (o : Observer) (source : List ℕ) (frames : ℕ) (r : Ring ℤ)
      → (r.channels ≡ 2) ⊎ (r.channels ≡ 6)
      → IsValid r
      → 0 < f.block_align
      → other_layout f r ≡ false
      → contents z (push_converted floats f o (some source) frames r)
        ≡ contents z (push o (some (all_frames floats f r.channels source 0 frames)) frames r)
  unfolding push_converted push
  push_converted-push o source zero r c v b h = refl
  push_converted-push o source (suc n) r c v b h =
      rw (suc-ne-zero n, pos-ne-zero f.block_align b, h)
        (elim (lt_or_le (suc n) r.capacity_frames) [
          | inl few ↦ few-contents o source (suc n) r c v (omega arith) few
          | inr many ↦ many-contents o source (suc n) r c v (omega arith) many
        ])
