-- ===== src/Audio/Ring/View.antt =====
-- The ring seen as the list of samples that wait in it, oldest first.
pub mod Calls
pub mod Pop
use low_latency_capture_view.Common.{
  ℕ, zero, suc, ◌+◌, ◌-◌, ◌*◌, ◌%◌, ◌≤◌, ◌<◌, ◌≡◌, refl, sym, ap, ◌∙◌, min, List, arith, length,
  length-take, length-drop, ◌++◌, take, drop,
}
use low_latency_capture_view.Common.Arrays.{
  blit, slice, window, length-blit, length-window, drop-window,
}
use low_latency_capture_view.Common.Cyclic.{
  wrapped, wrapped_bound, mod-wrapped, wrapped-mul, min-mul, sub-mul, cell, window-cell-wrapped,
  slices-window, blit_spans, blit_spans-window,
}
use native.Mathlib.Nat.{mod-lt, mod-add-mod, add-mul, mul-le-mul_right}
use mathlib.Core.Path.{ap₂}
use low_latency_capture_view.Audio.Ring.{Ring, write_spans, publish_available}
use low_latency_capture_view.Audio.Ring.Space.{IsValid, Dropped}

-- The storage read around from the read position.
unfoldable pub contents {ℓ} : {A : Type ℓ} → A → Ring A → List A
contents z r =
    window (cell z r.samples (r.capacity_frames * r.channels)) (r.read_frame * r.channels)
      (r.available * r.channels)

module _ {ℓ} {A : Type ℓ} (z : A) where
  pub length-contents : (r : Ring A) → length (contents z r) ≡ r.available * r.channels
  unfolding contents
  length-contents r = length-window _ (r.read_frame * r.channels) (r.available * r.channels)

  -- `write_frame` of a position that moves with the read position and the fill.
  pub write_stays :
      (read available k cap : ℕ)
      → k ≤ available
      → (read + available) % cap ≡ ((read + k) % cap + (available - k)) % cap
  write_stays read available k cap h =
      let same : read + k + (available - k) ≡ read + available = omega arith in
      sym (mod-add-mod (read + k) cap (available - k) ∙ ap (λ t. t % cap) same)

  pub Dropped-IsValid :
      (frames : ℕ) (r r' : Ring A)
      → IsValid r
      → Dropped frames r r'
      → frames ≤ r.capacity_frames
      → IsValid r'
  Dropped-IsValid frames r r' v d f = record {
    has_capacity = omega (arith, v.has_capacity, d.same_capacity);
    has_channels = omega (arith, v.has_channels, d.same_channels);
    sized = rw (d.same_samples, d.same_capacity, d.same_channels) v.sized;
    read_inside = rw (d.moved, d.same_capacity) (mod-lt _ v.has_capacity);
    available_fits = omega (arith, v.available_fits, d.same_capacity, d.kept);
    write_follows =
        rw (d.same_write, d.moved, d.kept, d.same_capacity)
          (v.write_follows
            ∙ write_stays r.read_frame r.available (r.available + frames - r.capacity_frames)
                r.capacity_frames (omega arith));
  }

  -- Moving the read position on by `k` frames drops their samples from the view.
  pub advance :
      (d : List A) (cap ch read available k : ℕ)
      → 0 < ch
      → read < cap
      → available ≤ cap
      → k ≤ available
      → window (cell z d (cap * ch)) ((read + k) % cap * ch) ((available - k) * ch)
        ≡ drop (k * ch) (window (cell z d (cap * ch)) (read * ch) (available * ch))
  advance d cap ch read available k c r a h =
      let n = cap * ch in
      let start : (read + k) % cap * ch ≡ wrapped n (read * ch + k * ch) =
        ap (λ t. t * ch) (mod-wrapped cap (read + k) (omega arith))
        ∙ wrapped-mul ch cap (read + k) c
        ∙ ap (wrapped n) (add-mul read k ch) in
      let inside : read * ch < n = grind arith in
      let taken : k * ch ≤ available * ch = mul-le-mul_right ch h in
      let fits : available * ch ≤ n = mul-le-mul_right ch a in
      ap₂ (window (cell z d n)) start (sub-mul available k ch)
      ∙ window-cell-wrapped z d n (read * ch + k * ch) (available * ch - k * ch) (omega arith)
          (omega (arith, wrapped_bound n (read * ch + k * ch))) (omega arith)
      ∙ sym (drop-window (cell z d n) (read * ch) (k * ch) (available * ch) taken)

  -- Dropping the oldest frames drops their samples.
  pub Dropped-contents :
      (frames : ℕ) (r r' : Ring A)
      → IsValid r
      → Dropped frames r r'
      → frames ≤ r.capacity_frames
      → contents z r'
        ≡ drop ((r.available + frames - r.capacity_frames) * r.channels) (contents z r)
  unfolding contents
  Dropped-contents frames r r' v d f =
      rw (d.same_samples, d.same_channels, d.moved, d.kept, d.same_capacity)
        (advance r.samples r.capacity_frames r.channels r.read_frame r.available
          (r.available + frames - r.capacity_frames) v.has_channels v.read_inside v.available_fits
          (omega arith))

  -- The two `copy_n` of `Push`, counted in samples.
  write_spans_samples :
      (s : List A) (n : ℕ) (r : Ring A)
      → (write_spans s n r).samples
        ≡ blit_spans z r.samples
            (r.capacity_frames * r.channels)
            (r.write_frame * r.channels)
            s
            (n * r.channels)
  unfolding write_spans publish_available
  write_spans_samples s n r =
      let ch = r.channels in
      let first = min n (r.capacity_frames - r.write_frame) in
      let upper : first * ch ≡ min (n * ch) (r.capacity_frames * ch - r.write_frame * ch) =
        min-mul n (r.capacity_frames - r.write_frame) ch
        ∙ ap (min (n * ch)) (sub-mul r.capacity_frames r.write_frame ch) in
      ap₂ (λ a b. blit (blit r.samples (r.write_frame * ch) (take a s)) 0 (take b (drop a s))) upper
        (sub-mul n first ch ∙ ap (λ t. n * ch - t) upper)

  pub write_spans-IsValid :
      (s : List A) (n : ℕ) (r : Ring A)
      → IsValid r
      → r.available + n ≤ r.capacity_frames
      → IsValid (write_spans s n r)
  unfolding write_spans publish_available
  write_spans-IsValid s n r v h = record {
    has_capacity = v.has_capacity;
    has_channels = v.has_channels;
    sized = length-blit _ 0 _ ∙ length-blit r.samples _ _ ∙ v.sized;
    read_inside = v.read_inside;
    available_fits = h;
    write_follows =
        ap (λ t. (t + n) % r.capacity_frames) v.write_follows
        ∙ mod-add-mod (r.read_frame + r.available) r.capacity_frames n
        ∙ ap (λ t. t % r.capacity_frames) (omega arith);
  }

  -- Written into free space, `n` frames wait behind those that waited.
  pub write_spans-contents :
      (s : List A) (n : ℕ) (r : Ring A)
      → IsValid r
      → 0 < n
      → r.available + n ≤ r.capacity_frames
      → n * r.channels ≤ length s
      → contents z (write_spans s n r) ≡ contents z r ++ take (n * r.channels) s
  unfolding contents write_spans
  write_spans-contents s n r v p h l =
      rw (written, added)
        (blit_spans-window z r.samples size (r.read_frame * ch) (r.available * ch) s (n * ch)
          v.sized inside fits l some_samples)
    where
      ch : ℕ
      ch = r.channels

      size : ℕ
      size = r.capacity_frames * r.channels

      inside : r.read_frame * r.channels < size
      inside = grind (arith, v.read_inside, v.has_channels)

      some_samples : 0 < n * r.channels
      some_samples = grind (arith, v.has_channels)

      added : (r.available + n) * r.channels ≡ r.available * r.channels + n * r.channels
      added = add-mul r.available n r.channels

      fits : r.available * r.channels + n * r.channels ≤ size
      fits = rw (← added) (mul-le-mul_right r.channels h)

      position :
          r.write_frame * r.channels
          ≡ wrapped size (r.read_frame * r.channels + r.available * r.channels)
      position =
          ap (λ t. t * r.channels)
            (v.write_follows
              ∙ mod-wrapped r.capacity_frames (r.read_frame + r.available)
                  (omega (arith, v.read_inside, v.available_fits)))
          ∙ wrapped-mul r.channels r.capacity_frames (r.read_frame + r.available) v.has_channels
          ∙ ap (wrapped size) (add-mul r.read_frame r.available r.channels)

      written :
          (write_spans s n r).samples
          ≡ blit_spans z r.samples size
              (wrapped size (r.read_frame * r.channels + r.available * r.channels))
              s
              (n * r.channels)
      written =
          write_spans_samples s n r
          ∙ ap (λ t. blit_spans z r.samples size t s (n * r.channels)) position
