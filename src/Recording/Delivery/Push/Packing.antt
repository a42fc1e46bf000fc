-- ===== src/Recording/Delivery/Push/Packing.antt =====
-- The rows of a picture without their padding.
use low_latency_capture_view.Common.{
  ℕ, zero, suc, ◌+◌, ◌*◌, ◌≤◌, ◌<◌, ◌≡◌, refl, ap, ◌∙◌, false, List, [], ◌∷◌, ◌++◌, ◌==◌, length,
  get_or, take, drop, length-take, length-drop, Bool-cases, inl, inr, arith,
}
use low_latency_capture_view.Common.Arrays.{get_or-take, get_or-drop}
use low_latency_capture_view.Recording.Session.Formats.{is_mjpeg}
use low_latency_capture_view.Recording.Delivery.{Picture}
use low_latency_capture_view.Recording.Delivery.Push.{copy_rows, video_bytes, row_of, rows_of}

module _ {ℓ} {A : Type ℓ} where
  get_or-append_left :
      (xs ys : List A) (i : ℕ) (z : A) → i < length xs → get_or (xs ++ ys) i z ≡ get_or xs i z
  get_or-append_left [] ys i z h = absurd (omega arith)
  get_or-append_left (x ∷ xs) ys zero z h = refl
  get_or-append_left (x ∷ xs) ys (suc i) z h = get_or-append_left xs ys i z (omega arith)

  get_or-append_right :
      (xs ys : List A) (i : ℕ) (z : A) → get_or (xs ++ ys) (length xs + i) z ≡ get_or ys i z
  get_or-append_right [] ys i z = ap (λ t. get_or ys t z) {x = 0 + i} (omega arith)
  get_or-append_right (x ∷ xs) ys i z =
      ap (λ t. get_or (x ∷ (xs ++ ys)) t z) {x = length (x ∷ xs) + i} {y = suc (length xs + i)}
        (omega arith)
      ∙ get_or-append_right xs ys i z

module _ (row stride : ℕ) (source : List ℕ) where
  first_row :
      (y : ℕ)
      → y * stride + row ≤ length source
      → length (take row (drop (y * stride) source)) ≡ row
  first_row y h =
      length-take row (drop (y * stride) source) ∙ omega (arith, length-drop (y * stride) source)

  get_or-copy_rows :
      (rows first y x : ℕ)
      → x < row
      → y < rows
      → row ≤ stride
      → (first + rows) * stride ≤ length source
      → get_or (copy_rows rows first row stride source) (y * row + x) 0
        ≡ get_or source ((first + y) * stride + x) 0
  unfolding copy_rows
  get_or-copy_rows zero first y x h k l m = absurd (omega arith)
  get_or-copy_rows (suc rows) first zero x h k l m =
      let whole : first * stride + row ≤ length source = grind arith in
      let e = first_row first whole in
      let place : 0 * row + x ≡ x = omega arith in
      rw place (
        get_or-append_left (take row (drop (first * stride) source)) _ x 0 (omega arith)
        ∙ get_or-take row (drop (first * stride) source) x 0 h
        ∙ get_or-drop (first * stride) source x 0
        ∙ ap (λ t. get_or source (t * stride + x) 0) {x = first} {y = first + 0} (omega arith))
  get_or-copy_rows (suc rows) first (suc y) x h k l m =
      let whole : first * stride + row ≤ length source = grind arith in
      let e = first_row first whole in
      let place : suc y * row + x
          ≡ length (take row (drop (first * stride) source)) + (y * row + x) =
        grind arith in
      ap (λ t. get_or (copy_rows (suc rows) first row stride source) t 0) place
      ∙ get_or-append_right (take row (drop (first * stride) source)) _ (y * row + x) 0
      ∙ get_or-copy_rows rows (first + 1) y x h (omega arith) l (grind arith)
      ∙ ap (λ t. get_or source (t * stride + x) 0) {x = first + 1 + y} (omega arith)

inside_rows : (row rows y x : ℕ) → y < rows → x < row → y * row + x < row * rows
inside_rows row rows y x h k = grind arith

-- For a picture that is not MJPEG, whose rows fit into its stride, and a source with all of them: byte
-- `x` of row `y` in the packet is byte `x` of row `y` in the source.
pub video_bytes-pixel :
    (v : Picture) (n : ℕ) (source : List ℕ) (y x : ℕ)
    → is_mjpeg v.format ≡ false
    → row_of v ≤ v.stride
    → rows_of v * v.stride ≤ length source
    → y < rows_of v
    → x < row_of v
    → get_or (video_bytes v n source) (y * row_of v + x) 0 ≡ get_or source (y * v.stride + x) 0
unfolding video_bytes
video_bytes-pixel v n source y x j l m h k = elim (Bool-cases (row_of v == v.stride)) [
  | inl tight ↦
      let e : row_of v ≡ v.stride = ground arith in
      let inside : y * row_of v + x < row_of v * rows_of v =
        inside_rows (row_of v) (rows_of v) y x h k in
      rw (j, tight)
        (get_or-take (row_of v * rows_of v) source (y * row_of v + x) 0 inside
          ∙ ap (λ t. get_or source (y * t + x) 0) e)
  | inr padded ↦
      rw (j, padded)
        (get_or-copy_rows (row_of v) v.stride source (rows_of v) 0 y x k h l
            (let e : 0 + rows_of v ≡ rows_of v = omega arith in rw e m)
          ∙ ap (λ t. get_or source (t * v.stride + x) 0) {x = 0 + y} (omega arith))
]
