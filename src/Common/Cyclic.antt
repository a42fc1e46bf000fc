-- ===== src/Common/Cyclic.antt =====
-- Cyclic storage of `n` cells: reading it from any index, writing it in at most two spans.
use Prim.Native.Nat.{ℕ, ◌+◌, ◌-◌, ◌*◌, ◌%◌, ◌≤◌, ◌<◌, min}
use native.Mathlib.Nat.{mod-eq_of_lt, mod-eq-sub-mod, mul-sub, mul_comm}
use mathlib.Core.Path.{◌≡◌, ap, ap₂, ◌∙◌, sym}
use mathlib.Core.Logic.{◌⊎◌, inl, inr}
use mathlib.Core.List.{List, ◌++◌}
use native.Mathlib.Omega.{arith}
use low_latency_capture_view.Common.Tests.{ltb, if◌then◌else◌}
use low_latency_capture_view.Common.Lists.{length, get_or, take, drop, length-take, length-drop}
use low_latency_capture_view.Common.Arrays.{
  blit, slice, window, length-blit, get_or-blit_below, get_or-blit_above, get_or-blit_in,
  window-ext, window-add, slice-window, get_or-take, get_or-drop,
}

-- An index below `n + n`, taken around once.
abbrev pub wrapped : ℕ → ℕ → ℕ
wrapped n i = if ltb i n then i else i - n

pub lt_or_le : (a b : ℕ) → (a < b) ⊎ (b ≤ a)
lt_or_le a b = omega arith

pub wrapped_lt : (n x : ℕ) → x < n → wrapped n x ≡ x
wrapped_lt n x h = ground arith

pub wrapped_le : (n x : ℕ) → n ≤ x → wrapped n x ≡ x - n
wrapped_le n x h = ground arith

pub wrapped_zero : (n r : ℕ) → r < n → wrapped n (r + 0) ≡ r
wrapped_zero n r h = ground arith

pub wrapped_bound : (n x : ℕ) → x < n + n → wrapped n x < n
wrapped_bound n x h = ground arith

pub mod-wrapped : (n x : ℕ) → x < n + n → x % n ≡ wrapped n x
mod-wrapped n x h = elim (lt_or_le x n) [
  | inl k ↦ mod-eq_of_lt k ∙ sym (wrapped_lt n x k)
  | inr k ↦ mod-eq-sub-mod k ∙ mod-eq_of_lt (omega arith) ∙ sym (wrapped_le n x k)
]

pub sub-mul : (a b c : ℕ) → (a - b) * c ≡ a * c - b * c
sub-mul a b c = mul_comm (a - b) c ∙ mul-sub c a b ∙ ap₂ ◌-◌ (mul_comm c a) (mul_comm c b)

pub min-mul : (a b c : ℕ) → min a b * c ≡ min (a * c) (b * c)
min-mul a b c = grind arith

pub wrapped-mul : (c n x : ℕ) → 0 < c → wrapped n x * c ≡ wrapped (n * c) (x * c)
wrapped-mul c n x h = elim (lt_or_le x n) [
  | inl k ↦ ap (λ t. t * c) (wrapped_lt n x k) ∙ sym (wrapped_lt (n * c) (x * c) (grind arith))
  | inr k ↦
      ap (λ t. t * c) (wrapped_le n x k)
      ∙ sub-mul x n c
      ∙ sym (wrapped_le (n * c) (x * c) (grind arith))
]

module _ {ℓ} {A : Type ℓ} (z : A) where
  -- Cell `i` of storage of `n` cells, counted around once.
  abbrev pub cell : List A → ℕ → ℕ → A
  cell d n i = get_or d (wrapped n i) z

  -- Starting the count a turn later reads the same cells.
  pub window-cell-wrapped :
      (d : List A) (n r m : ℕ)
      → r < n + n
      → wrapped n r + m ≤ n + n
      → r + m ≤ n + n
      → window (cell d n) (wrapped n r) m ≡ window (cell d n) r m
  window-cell-wrapped d n r m h k l = elim (lt_or_le r n) [
    | inl e ↦ ap (λ t. window (cell d n) t m) (wrapped_lt n r e)
    | inr e ↦
        ap (λ t. window (cell d n) t m) (wrapped_le n r e)
        ∙ window-ext (cell d n) (cell d n) (r - n) r m λ i j.
          ap (λ t. get_or d t z)
            (wrapped_lt n (r - n + i) (omega arith)
              ∙ sym (wrapped_le n (r + i) (omega arith) ∙ omega arith))
  ]

  -- Two slices read a window of the cells.
  pub slices-window :
      (d : List A) (n r m : ℕ)
      → length d ≡ n
      → r < n
      → m ≤ n
      → slice d r (min m (n - r)) ++ slice d 0 (m - min m (n - r)) ≡ window (cell d n) r m
  slices-window d n r m e h k =
      let f = min m (n - r) in
      let total : f + (m - f) ≡ m = omega arith in
      ap₂ ◌++◌
        (slice-window d r f z (omega arith)
          ∙ window-ext (λ i. get_or d i z) (cell d n) r r f
              λ i j. ap (λ t. get_or d t z) (sym (wrapped_lt n (r + i) (omega arith))))
        (slice-window d 0 (m - f) z (omega arith)
          ∙ window-ext (λ i. get_or d i z) (cell d n) 0 (r + f) (m - f)
              λ i j.
                ap (λ t. get_or d t z) (sym (wrapped_le n (r + f + i) (omega arith) ∙ omega arith)))
      ∙ sym (window-add (cell d n) r f (m - f))
      ∙ ap (window (cell d n) r) total

  -- The two spans of a write of `m` samples of `s` at `w`.
  abbrev pub blit_spans : List A → ℕ → ℕ → List A → ℕ → List A
  blit_spans d n w s m =
      let f = min m (n - w) in blit (blit d w (take f s)) 0 (take (m - f) (drop f s))

  module _ (d : List A) (n w : ℕ) (s : List A) (m : ℕ) (sized : length d ≡ n) (inside : w < n)
      (fits : m ≤ n) (enough : m ≤ length s) where
    -- Cells outside both spans keep their value.
    blit_spans_outside :
        (j : ℕ)
        → m - min m (n - w) ≤ j
        → (j < w) ⊎ (w + min m (n - w) ≤ j)
        → get_or (blit_spans d n w s m) j z ≡ get_or d j z
    blit_spans_outside j below aside =
        let f = min m (n - w) in
        get_or-blit_above (blit d w (take f s)) 0 (take (m - f) (drop f s)) j z
          (omega (arith, length-take (m - f) (drop f s), length-drop f s))
        ∙ elim aside [
          | inl h ↦ get_or-blit_below d w (take f s) j z h
          | inr h ↦ get_or-blit_above d w (take f s) j z (omega (arith, length-take f s))
        ]

    blit_spans_upper :
        (i : ℕ) → i < min m (n - w) → get_or (blit_spans d n w s m) (w + i) z ≡ get_or s i z
    blit_spans_upper i h =
        let f = min m (n - w) in
        get_or-blit_above (blit d w (take f s)) 0 (take (m - f) (drop f s)) (w + i) z
          (omega (arith, length-take (m - f) (drop f s), length-drop f s))
        ∙ get_or-blit_in d w (take f s) i z (omega (arith, length-take f s)) (omega arith)
        ∙ get_or-take f s i z h

    blit_spans_lower :
        (i : ℕ)
        → i < m - min m (n - w)
        → get_or (blit_spans d n w s m) i z ≡ get_or s (min m (n - w) + i) z
    blit_spans_lower i h =
        let f = min m (n - w) in
        ap (λ t. get_or (blit_spans d n w s m) t z) {x = i} {y = 0 + i} (omega arith)
        ∙ get_or-blit_in (blit d w (take f s)) 0 (take (m - f) (drop f s)) i z
            (omega (arith, length-take (m - f) (drop f s), length-drop f s))
            (omega (arith, length-blit d w (take f s)))
        ∙ get_or-take (m - f) (drop f s) i z h
        ∙ get_or-drop f s i z

  -- Writing behind the `a` cells that start at `r` appends to what they hold.
  pub blit_spans-window :
      (d : List A) (n r a : ℕ) (s : List A) (m : ℕ)
      → length d ≡ n
      → r < n
      → a + m ≤ n
      → m ≤ length s
      → 0 < m
      → window (cell (blit_spans d n (wrapped n (r + a)) s m) n) r (a + m)
        ≡ window (cell d n) r a ++ take m s
  blit_spans-window d n r a s m e h k l p =
      window-add (cell both n) r a m
      ∙ ap₂ ◌++◌ (window-ext (cell both n) (cell d n) r r a kept) (
          window-ext (cell both n) (λ i. get_or s i z) (r + a) 0 m written
          ∙ sym (slice-window s 0 m z (omega arith)))
    where
      w : ℕ
      w = wrapped n (r + a)

      both : List A
      both = blit_spans d n w s m

      w_lt : w < n
      w_lt = ground arith

      kept : (i : ℕ) → i < a → cell both n (r + i) ≡ cell d n (r + i)
      kept i j =
          blit_spans_outside d n w s m e w_lt (omega arith) l (wrapped n (r + i)) (ground arith)
            (ground arith)

      written : (i : ℕ) → i < m → cell both n (r + a + i) ≡ get_or s (0 + i) z
      written i j = elim (lt_or_le i (min m (n - w))) [
        | inl q ↦
            ap (λ t. get_or both t z) (ground arith)
            ∙ blit_spans_upper d n w s m e w_lt (omega arith) l i q
            ∙ ap (λ t. get_or s t z) (omega arith)
        | inr q ↦
            ap (λ t. get_or both t z) (ground arith)
            ∙ blit_spans_lower d n w s m e w_lt (omega arith) l (i - min m (n - w)) (ground arith)
            ∙ ap (λ t. get_or s t z) (ground arith)
      ]
