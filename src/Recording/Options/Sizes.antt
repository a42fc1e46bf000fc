-- ===== src/Recording/Options/Sizes.antt =====
-- The size of the recorded picture.
use low_latency_capture_view.Common.{
  ℕ, ◌+◌, ◌*◌, ◌/◌, max, ◌%◌, ◌≤◌, ◌<◌, ◌≡◌, refl, true, Bool-cases, inl, inr, arith, and_true,
  ◌&&◌, ◌⊎◌, ◌||◌,
}
use low_latency_capture_view.Common.Int.{ℤ, pos, negsuc, leb_ℤ, max_ℤ, tdiv_ℤ, ◌*ℤ◌, eqb_ℤ}
use native.Mathlib.Nat.{mul-le-mul_left, add-mul, div-lt_iff_lt-mul}
use low_latency_capture_view.Recording.Options.{
  Options, output_size, valid, valid_rest, known_fps, within, known_height, even_floor,
}

valid-known_height : (o : Options) → valid o ≡ true → known_height o.max_height ≡ true
unfolding valid
valid-known_height o v =
    (and_true (within 0 2 o.codec && known_fps o.max_fps) (known_height o.max_height)
      (and_true (within 0 2 o.codec && known_fps o.max_fps && known_height o.max_height)
        (valid_rest o) v).0).1

-- A picture that is even each way, of at least two pixels, and no larger than the source.
pub record Fits (width height : ℕ) (size : ℤ × ℤ) : Type 0 where
  pub across : ℕ
  pub down : ℕ
  pub is_size : size ≡ (pos across, pos down)
  pub even_across : across % 2 ≡ 0
  pub even_down : down % 2 ≡ 0
  pub some_across : 2 ≤ across
  pub some_down : 2 ≤ down
  pub as_wide : across ≤ width
  pub as_high : down ≤ height

scaled_le : (w m h : ℕ) → m ≤ h → 0 < h → w * m / h ≤ w
scaled_le w m h l p =
    let fits : w * m ≤ w * h = mul-le-mul_left w l in
    let more : (w + 1) * h ≡ w * h + h = omega (arith, add-mul w 1 h) in
    let below : w * m / h < w + 1 = (div-lt_iff_lt-mul p).1 (omega (arith, fits, more)) in
    omega arith

mul_pos : (a b : ℕ) → pos a *ℤ pos b ≡ pos (a * b)
unfolding ◌*ℤ◌
mul_pos a b = ground arith

even_max : (k : ℕ) → max 2 (k * 2) % 2 ≡ 0
even_max k = omega arith

max_two : (n : ℕ) → max_ℤ (pos 2) (pos n) ≡ pos (max 2 n)
unfolding max_ℤ
max_two n = ground arith

known : (x : ℤ) → known_height x ≡ true → (m : ℕ) × (x ≡ pos m) × (m % 2 ≡ 0) × ((m ≡ 0) ⊎ (2 ≤ m))
known (pos m) e = (m, refl, ground arith, ground arith)
known (negsuc m) e = ground arith

-- For valid options and a source that is even each way and of at least two pixels: the recorded
-- picture is even each way, of at least two pixels, and no larger than the source either way.
pub output_size-Fits :
    (o : Options) (width height : ℕ)
    → valid o ≡ true
    → width % 2 ≡ 0
    → height % 2 ≡ 0
    → 2 ≤ width
    → 2 ≤ height
    → Fits width height (output_size o (pos width) (pos height))
unfolding output_size
output_size-Fits o width height v w h w2 h2 =
    let (m, e, even, zero_or) = known o.max_height (valid-known_height o v) in
    elim (Bool-cases (eqb_ℤ (pos m) (pos 0) || leb_ℤ (pos height) (pos m))) [
      | inl small ↦
          rw (e, small)
            (record {
              across = width;
              down = height;
              is_size = refl;
              even_across = w;
              even_down = h;
              some_across = w2;
              some_down = h2;
              as_wide = omega arith;
              as_high = omega arith;
            })
      | inr large ↦ rw (e, large) (scaled m (ground arith) even (ground arith))
    ]
  where
    scaled :
        (m : ℕ)
        → m < height
        → m % 2 ≡ 0
        → 2 ≤ m
        → Fits width height
            (max_ℤ (pos 2) (even_floor (tdiv_ℤ (pos width *ℤ pos m) (pos height))), pos m)
    scaled m l even two =
        let down = scaled_le width m height (omega arith) (omega arith) in
        rw (mul_pos width m, max_two (width * m / height / 2 * 2))
          (record {
            across = max 2 (width * m / height / 2 * 2);
            down = m;
            is_size = refl;
            even_across = even_max (width * m / height / 2);
            even_down = even;
            some_across = omega arith;
            some_down = two;
            as_wide = omega arith;
            as_high = omega arith;
          })
