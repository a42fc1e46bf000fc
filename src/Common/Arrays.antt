-- ===== src/Common/Arrays.antt =====
-- Flat arrays: copies in and out (`std::copy_n`), and windows of cyclic storage read by index.
use Prim.Native.Nat.{ℕ, zero, suc, ◌+◌, ◌-◌, ◌≤◌, ◌<◌, min}
use mathlib.Core.Path.{◌≡◌, refl, ap, ap₂, ◌∙◌, sym}
use mathlib.Core.List.{List, [], ◌∷◌, ◌++◌}
use native.Mathlib.Omega.{arith}
use low_latency_capture_view.Common.Lists.{length, get_or, take, drop}

module _ {ℓ} {A : Type ℓ} where
  -- Writes `src` from index `o` on; what would fall behind the end is not written.
  abbrev pub blit : List A → ℕ → List A → List A
  blit [] o src = []
  blit (x ∷ d) (suc o) src = x ∷ blit d o src
  blit (x ∷ d) zero [] = x ∷ d
  blit (x ∷ d) zero (y ∷ src) = y ∷ blit d zero src

  abbrev pub slice : List A → ℕ → ℕ → List A
  slice d o n = take n (drop o d)

  -- The values of `f` at `s`, `s + 1`, …, `s + n - 1`.
  abbrev pub window : (ℕ → A) → ℕ → ℕ → List A
  window f s zero = []
  window f s (suc n) = f s ∷ window f (suc s) n

  pub length-blit : (d : List A) (o : ℕ) (src : List A) → length (blit d o src) ≡ length d
  length-blit [] o src = refl
  length-blit (x ∷ d) (suc o) src = ap suc (length-blit d o src)
  length-blit (x ∷ d) zero [] = refl
  length-blit (x ∷ d) zero (y ∷ src) = ap suc (length-blit d zero src)

  pub get_or-blit_below :
      (d : List A) (o : ℕ) (src : List A) (i : ℕ) (z : A)
      → i < o
      → get_or (blit d o src) i z ≡ get_or d i z
  get_or-blit_below [] o src i z h = refl
  get_or-blit_below (x ∷ d) (suc o) src zero z h = refl
  get_or-blit_below (x ∷ d) (suc o) src (suc i) z h = get_or-blit_below d o src i z (omega arith)
  get_or-blit_below (x ∷ d) zero src i z h = absurd (omega arith)

  pub get_or-blit_above :
      (d : List A) (o : ℕ) (src : List A) (i : ℕ) (z : A)
      → o + length src ≤ i
      → get_or (blit d o src) i z ≡ get_or d i z
  get_or-blit_above [] o src i z h = refl
  get_or-blit_above (x ∷ d) (suc o) src zero z h = absurd (omega arith)
  get_or-blit_above (x ∷ d) (suc o) src (suc i) z h = get_or-blit_above d o src i z (omega arith)
  get_or-blit_above (x ∷ d) zero [] i z h = refl
  get_or-blit_above (x ∷ d) zero (y ∷ src) zero z h = absurd (omega arith)
  get_or-blit_above (x ∷ d) zero (y ∷ src) (suc i) z h =
      get_or-blit_above d zero src i z (omega arith)

  pub get_or-blit_in :
      (d : List A) (o : ℕ) (src : List A) (i : ℕ) (z : A)
      → i < length src
      → o + i < length d
      → get_or (blit d o src) (o + i) z ≡ get_or src i z
  get_or-blit_in [] o src i z h k = absurd (omega arith)
  get_or-blit_in (x ∷ d) (suc o) src i z h k =
      let e : suc o + i ≡ suc (o + i) = omega arith in
      rw e (get_or-blit_in d o src i z h (omega arith))
  get_or-blit_in (x ∷ d) zero [] i z h k = absurd (omega arith)
  get_or-blit_in (x ∷ d) zero (y ∷ src) zero z h k = refl
  get_or-blit_in (x ∷ d) zero (y ∷ src) (suc i) z h k =
      let e : 0 + suc i ≡ suc (0 + i) = omega arith in
      rw e (get_or-blit_in d zero src i z (omega arith) (omega arith))

  pub length-window : (f : ℕ → A) (s n : ℕ) → length (window f s n) ≡ n
  length-window f s zero = refl
  length-window f s (suc n) = ap suc (length-window f (suc s) n)

  -- Two windows agree if they agree at every offset.
  pub window-ext :
      (f g : ℕ → A) (s t n : ℕ)
      → ((i : ℕ) → i < n → f (s + i) ≡ g (t + i))
      → window f s n ≡ window g t n
  window-ext f g s t zero h = refl
  window-ext f g s t (suc n) h =
      ap₂ ◌∷◌ (ap f (omega arith) ∙ h 0 (omega arith) ∙ ap g (omega arith)) (
        window-ext f g (suc s) (suc t) n
          λ i k. ap f (omega arith) ∙ h (suc i) (omega arith) ∙ ap g (omega arith))

  pub window-add : (f : ℕ → A) (s m n : ℕ) → window f s (m + n) ≡ window f s m ++ window f (s + m) n
  window-add f s zero n = ap₂ (λ a b. window f b a) (omega arith) (omega arith)
  window-add f s (suc m) n =
      let e : suc m + n ≡ suc (m + n) = omega arith in
      let k : suc s + m ≡ s + suc m = omega arith in
      rw e (
        ap (λ l. f s ∷ l)
          (window-add f (suc s) m n ∙ ap (λ j. window f (suc s) m ++ window f j n) k))

  pub take-window : (f : ℕ → A) (s m n : ℕ) → m ≤ n → take m (window f s n) ≡ window f s m
  take-window f s zero n h = refl
  take-window f s (suc m) zero h = absurd (omega arith)
  take-window f s (suc m) (suc n) h = ap (λ l. f s ∷ l) (take-window f (suc s) m n (omega arith))

  pub drop-window :
      (f : ℕ → A) (s m n : ℕ) → m ≤ n → drop m (window f s n) ≡ window f (s + m) (n - m)
  drop-window f s zero n h = ap₂ (window f) (omega arith) (omega arith)
  drop-window f s (suc m) zero h = absurd (omega arith)
  drop-window f s (suc m) (suc n) h =
      drop-window f (suc s) m n (omega arith) ∙ ap₂ (window f) (omega arith) (omega arith)

  -- A slice inside the array reads it by index.
  pub slice-window :
      (d : List A) (o n : ℕ) (z : A)
      → o + n ≤ length d
      → slice d o n ≡ window (λ i. get_or d i z) o n
  slice-window d zero zero z h = refl
  slice-window [] zero (suc n) z h = absurd (omega arith)
  slice-window (x ∷ d) zero (suc n) z h =
      ap (λ l. x ∷ l)
        (slice-window d zero n z (omega arith)
          ∙ window-ext (λ i. get_or d i z) (λ i. get_or (x ∷ d) i z) 0 1 n
              λ i k. ap (λ j. get_or (x ∷ d) j z) {x = suc (0 + i)} (omega arith))
  slice-window [] (suc o) zero z h = absurd (omega arith)
  slice-window [] (suc o) (suc n) z h = absurd (omega arith)
  slice-window (x ∷ d) (suc o) n z h =
      slice-window d o n z (omega arith)
      ∙ window-ext (λ i. get_or d i z) (λ i. get_or (x ∷ d) i z) o (suc o) n
          λ i k. ap (λ j. get_or (x ∷ d) j z) {x = suc (o + i)} (omega arith)

  pub drop-length : (d : List A) (n : ℕ) → length d ≤ n → drop n d ≡ []
  drop-length [] zero h = refl
  drop-length [] (suc n) h = refl
  drop-length (x ∷ d) zero h = absurd (omega arith)
  drop-length (x ∷ d) (suc n) h = drop-length d n (omega arith)

  pub drop-append : (m : ℕ) (xs ys : List A) → m ≤ length xs → drop m (xs ++ ys) ≡ drop m xs ++ ys
  drop-append zero xs ys h = refl
  drop-append (suc m) [] ys h = absurd (omega arith)
  drop-append (suc m) (x ∷ xs) ys h = drop-append m xs ys (omega arith)

  pub drop-append_over :
      (m : ℕ) (xs ys : List A) → length xs ≤ m → drop m (xs ++ ys) ≡ drop (m - length xs) ys
  drop-append_over m [] ys h = ap (λ k. drop k ys) (omega arith)
  drop-append_over zero (x ∷ xs) ys h = absurd (omega arith)
  drop-append_over (suc m) (x ∷ xs) ys h =
      drop-append_over m xs ys (omega arith) ∙ ap (λ k. drop k ys) (omega arith)

  pub take-all : (n : ℕ) (xs : List A) → length xs ≤ n → take n xs ≡ xs
  take-all zero [] h = refl
  take-all zero (x ∷ xs) h = absurd (omega arith)
  take-all (suc n) [] h = refl
  take-all (suc n) (x ∷ xs) h = ap (λ l. x ∷ l) (take-all n xs (omega arith))

  pub drop-drop : (m n : ℕ) (xs : List A) → drop m (drop n xs) ≡ drop (n + m) xs
  drop-drop m zero xs = ap (λ k. drop k xs) (omega arith)
  drop-drop zero (suc n) [] = ap (λ k. drop k []) {x = suc n} {y = suc n + 0} (omega arith)
  drop-drop (suc m) (suc n) [] = sym (drop-length [] (suc n + suc m) (omega arith))
  drop-drop m (suc n) (x ∷ xs) =
      drop-drop m n xs ∙ ap (λ k. drop k (x ∷ xs)) {x = suc (n + m)} (omega arith)

  pub get_or-take :
      (n : ℕ) (xs : List A) (i : ℕ) (z : A) → i < n → get_or (take n xs) i z ≡ get_or xs i z
  get_or-take zero xs i z h = absurd (omega arith)
  get_or-take (suc n) [] i z h = refl
  get_or-take (suc n) (x ∷ xs) zero z h = refl
  get_or-take (suc n) (x ∷ xs) (suc i) z h = get_or-take n xs i z (omega arith)

  pub get_or-drop :
      (n : ℕ) (xs : List A) (i : ℕ) (z : A) → get_or (drop n xs) i z ≡ get_or xs (n + i) z
  get_or-drop zero xs i z = ap (λ j. get_or xs j z) (omega arith)
  get_or-drop (suc n) [] i z = refl
  get_or-drop (suc n) (x ∷ xs) i z =
      get_or-drop n xs i z ∙ ap (λ j. get_or (x ∷ xs) j z) {x = suc (n + i)} (omega arith)

  take-nil : (k : ℕ) → take {A = A} k [] ≡ []
  take-nil zero = refl
  take-nil (suc k) = refl

  pub drop-take : (m n : ℕ) (xs : List A) → drop m (take n xs) ≡ take (n - m) (drop m xs)
  drop-take zero n xs = ap (λ k. take k xs) (omega arith)
  drop-take (suc m) zero xs = ap (λ k. take k (drop (suc m) xs)) {x = 0} (omega arith)
  drop-take (suc m) (suc n) [] = sym (take-nil (suc n - suc m))
  drop-take (suc m) (suc n) (x ∷ xs) =
      drop-take m n xs ∙ ap (λ k. take k (drop m xs)) {x = n - m} (omega arith)

  -- Counts beyond the end take, or drop, the whole list.
  pub take-min : (m : ℕ) (xs : List A) → take (min m (length xs)) xs ≡ take m xs
  take-min zero xs = ap (λ k. take k xs) {x = min 0 (length xs)} {y = 0} (omega arith)
  take-min (suc m) [] = ap (λ k. take k []) {x = min (suc m) 0} {y = 0} (omega arith)
  take-min (suc m) (x ∷ xs) =
      let e : min (suc m) (suc (length xs)) ≡ suc (min m (length xs)) = omega arith in
      rw e (ap (λ l. x ∷ l) (take-min m xs))

  pub drop-min : (m : ℕ) (xs : List A) → drop (min m (length xs)) xs ≡ drop m xs
  drop-min zero xs = ap (λ k. drop k xs) {x = min 0 (length xs)} {y = 0} (omega arith)
  drop-min (suc m) [] = ap (λ k. drop k []) {x = min (suc m) 0} {y = 0} (omega arith)
  drop-min (suc m) (x ∷ xs) =
      let e : min (suc m) (suc (length xs)) ≡ suc (min m (length xs)) = omega arith in
      rw e (drop-min m xs)
