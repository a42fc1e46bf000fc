-- ===== src/Audio/Ring/Converted/Frames.antt =====
-- `PushConverted` against `Push` of the frames that it converts.
use low_latency_capture_view.Common.{
  ℕ, zero, suc, ◌+◌, ◌-◌, ◌*◌, ◌%◌, ◌≤◌, ◌<◌, ◌≡◌, refl, sym, ap, ◌∙◌, true, false, not, ◌||◌, ◌⊎◌,
  inl, inr, List, [], ◌∷◌, ◌++◌, append-nil, append_assoc, some, ◌==◌, drop, take, length, arith,
  ◌&&◌, min, Bool-cases,
}
use low_latency_capture_view.Common.Arrays.{blit, take-all, window}
use native.Mathlib.Nat.{mod-lt, mod-add-mod}
use low_latency_capture_view.Common.Int.{ℤ}
use low_latency_capture_view.Audio.Formats.{Format, is_surround}
use low_latency_capture_view.Audio.Formats.Convert.{Floats, convert_surround_frame}
use low_latency_capture_view.Audio.Ring.{Ring, publish_available, write_spans}
use low_latency_capture_view.Audio.Ring.Space.{IsValid}
use low_latency_capture_view.Audio.Ring.View.{contents, write_spans-IsValid, write_spans-contents}
use low_latency_capture_view.Common.Cyclic.{cell}
use mathlib.Core.Path.{ap₂}
use low_latency_capture_view.Audio.Ring.Converted.{converted_frame, write_frames}

-- The samples of `n` frames, from frame `i` on.
abbrev pub all_frames : Floats → Format → ℕ → List ℕ → ℕ → ℕ → List ℤ
all_frames floats f channels source i zero = []
all_frames floats f channels source i (suc n) =
    converted_frame floats f channels (drop (i * f.block_align) source)
    ++ all_frames floats f channels source (i + 1) n

blit-nil : (d : List ℤ) → blit d 0 [] ≡ d
blit-nil [] = refl
blit-nil (x ∷ d) = refl

length-surround :
    (floats : Floats) (f : Format) (source : List ℕ)
    → length (convert_surround_frame floats (some source) f) ≡ 6
unfolding convert_surround_frame
length-surround floats f source =
    elim (Bool-cases
      (not (is_surround f.path) || (not (f.channels == 6) && not (f.channels == 8)))) [
        | inl e ↦ rw e refl
        | inr e ↦ rw e refl
      ]

module _ (floats : Floats) (f : Format) where
  pub length-converted_frame :
      (channels : ℕ) (source : List ℕ)
      → (channels ≡ 2) ⊎ (channels ≡ 6)
      → length (converted_frame floats f channels source) ≡ channels
  unfolding converted_frame
  length-converted_frame channels source (inl h) =
      let other : (channels == 6) ≡ false = rw h refl in rw other (sym h)
  length-converted_frame channels source (inr h) =
      let same : (channels == 6) ≡ true = rw h refl in
      rw same (length-surround floats f source ∙ sym h)

-- The ring with `k` more frames behind its write position counted in.
abbrev pub moved_on : ℕ → Ring ℤ → Ring ℤ
moved_on k r = record r {
  write_frame = (r.write_frame + k) % r.capacity_frames;
  available = r.available + k;
}

-- One more frame, written as `Push` writes it.
one_more :
    (frame : List ℤ) (k : ℕ) (r : Ring ℤ)
    → 0 < r.capacity_frames
    → length frame ≡ r.channels
    → (write_spans frame 1 (moved_on k r)).samples
      ≡ blit r.samples ((r.write_frame + k) % r.capacity_frames * r.channels) frame
unfolding write_spans publish_available
one_more frame k r c e =
    let w = (r.write_frame + k) % r.capacity_frames in
    let inside : w < r.capacity_frames = mod-lt (r.write_frame + k) c in
    let first : min 1 (r.capacity_frames - w) ≡ 1 = omega arith in
    let one : 1 * r.channels ≡ r.channels = omega arith in
    let zero_left : (1 - 1) * r.channels ≡ 0 = omega arith in
    let whole : take r.channels frame ≡ frame = take-all r.channels frame (omega arith) in
    rw (first, one, whole, zero_left) (blit-nil _)

-- `Push` of one frame, and the same frame written by the loop, show the same.
module _ (z : ℤ) (frame : List ℤ) (k : ℕ) (r : Ring ℤ) (e : length frame ≡ r.channels) where
  abbrev next_ring : Ring ℤ
  next_ring = record r {
    samples = blit r.samples ((r.write_frame + k) % r.capacity_frames * r.channels) frame;
  }

  next-contents :
      0 < r.capacity_frames
      → contents z (moved_on (k + 1) next_ring) ≡ contents z (write_spans frame 1 (moved_on k r))
  unfolding contents write_spans publish_available
  next-contents c =
      let more : r.available + (k + 1) ≡ r.available + k + 1 = omega arith in
      let written = one_more frame k r c e in
      ap₂
        (λ s a.
          window (cell z s (r.capacity_frames * r.channels)) (r.read_frame * r.channels)
            (a * r.channels))
        (sym written) more

  next-IsValid :
      0 < r.capacity_frames
      → IsValid (write_spans frame 1 (moved_on k r))
      → IsValid (moved_on (k + 1) next_ring)
  unfolding write_spans publish_available
  next-IsValid c v = record {
    has_capacity = v.has_capacity;
    has_channels = v.has_channels;
    sized = ap length (sym (one_more frame k r c e)) ∙ v.sized;
    read_inside = v.read_inside;
    available_fits = omega (arith, v.available_fits);
    write_follows =
        ap (λ t. t % r.capacity_frames) {x = r.write_frame + (k + 1)} (omega arith)
        ∙ sym (mod-add-mod (r.write_frame + k) r.capacity_frames 1)
        ∙ v.write_follows
        ∙ ap (λ t. (r.read_frame + t) % r.capacity_frames) (omega arith);
  }

module _ (z : ℤ) (floats : Floats) (f : Format) (source : List ℕ) where
  -- What the loop has written, from frame `i` on.
  pub write_frames-contents :
      (n i : ℕ) (r : Ring ℤ)
      → (r.channels ≡ 2) ⊎ (r.channels ≡ 6)
      → IsValid (moved_on i r)
      → r.available + i + n ≤ r.capacity_frames
      → contents z (moved_on (i + n) (write_frames floats f n i source r))
        ≡ contents z (moved_on i r) ++ all_frames floats f r.channels source i n
  unfolding write_frames
  write_frames-contents zero i r c v h =
      ap (λ t. contents z (moved_on t r)) {x = i + 0} (omega arith)
      ∙ sym (append-nil (contents z (moved_on i r)))
  write_frames-contents (suc n) i r c v h =
      let frame = converted_frame floats f r.channels (drop (i * f.block_align) source) in
      let e = length-converted_frame floats f r.channels (drop (i * f.block_align) source) c in
      let valid =
        next-IsValid z frame i r e v.has_capacity
          (write_spans-IsValid z frame 1 (moved_on i r) v (omega arith)) in
      let next = next_ring z frame i r e in
      let rest = all_frames floats f r.channels source (i + 1) n in
      let whole : take (1 * r.channels) frame ≡ frame =
        take-all (1 * r.channels) frame (omega arith) in
      ap (λ t. contents z (moved_on t (write_frames floats f n (i + 1) source next)))
        {x = i + suc n} {y = i + 1 + n} (omega arith)
      ∙ write_frames-contents n (i + 1) next c valid (omega arith)
      ∙ ap (λ l. l ++ rest)
          (next-contents z frame i r e v.has_capacity
            ∙ write_spans-contents z frame 1 (moved_on i r) v (omega arith) (omega arith)
                (omega arith)
            ∙ ap (λ l. contents z (moved_on i r) ++ l) whole)
      ∙ append_assoc (contents z (moved_on i r)) frame rest
