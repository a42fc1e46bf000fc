-- ===== src/Input/Shortcuts/Free.antt =====
-- A key for the mute action is always found.
use low_latency_capture_view.Common.{
  ℕ, zero, suc, ◌%◌, ◌+◌, ◌≤◌, ◌<◌, ◌≡◌, ◌⊎◌, refl, sym, ap, ◌∙◌, Bool, true, false, not, ◌&&◌,
  ◌||◌, List, [], ◌∷◌, ◌++◌, Option, none, some, ◌==◌, leb, ltb, if◌then◌else◌, set, length,
  length-append, and_true, Bool-cases, inl, inr, arith,
}
use low_latency_capture_view.Input.Shortcuts.{
  available, first_free, bind, mute_action, key_m, vk_f1, vk_f4, add_mute_default, valid, differs,
  has_ctrl, has_alt, between, valid_from, valid_bindings,
}

or_true : (b : Bool) → (b || true) ≡ true
or_true true = refl
or_true false = refl

not-true : (b : Bool) → not b ≡ true → b ≡ false
not-true true h = cc
not-true false h = refl

second_false : (a b : Bool) → a ≡ true → (a && b) ≡ false → b ≡ false
second_false true b h k = k
second_false false b h k = cc

three : (b low : ℕ) → (b < low) ⊎ ((b ≡ low) ⊎ (low < b))
three b low = omega arith

-- How many bindings lie in the `n` keys from `low` on.
abbrev hits : ℕ → ℕ → List ℕ → ℕ
hits low n [] = 0
hits low n (b ∷ bs) = (if leb low b && ltb b (low + n) then 1 else 0) + hits low n bs

hits_bound : (low n : ℕ) (bs : List ℕ) → hits low n bs ≤ length bs
hits_bound low n [] = omega arith
hits_bound low n (b ∷ bs) =
    let rest = hits_bound low n bs in
    elim (Bool-cases (leb low b && ltb b (low + n))) [
      | inl e ↦ rw e (omega arith)
      | inr e ↦ rw e (omega arith)
    ]

hits_next : (low n : ℕ) (bs : List ℕ) → hits low (suc n) bs ≡ hits low 1 bs + hits (low + 1) n bs
hits_next low n [] = refl
hits_next low n (b ∷ bs) =
    let rest = hits_next low n bs in
    elim (three b low) [
      | inl below ↦
          let x : (leb low b && ltb b (low + suc n)) ≡ false = ground arith in
          let y : (leb low b && ltb b (low + 1)) ≡ false = ground arith in
          let z : (leb (low + 1) b && ltb b (low + 1 + n)) ≡ false = ground arith in
          rw (x, y, z) (omega arith)
      | inr (inl here) ↦
          let x : (leb low b && ltb b (low + suc n)) ≡ true = ground arith in
          let y : (leb low b && ltb b (low + 1)) ≡ true = ground arith in
          let z : (leb (low + 1) b && ltb b (low + 1 + n)) ≡ false = ground arith in
          rw (x, y, z) (omega arith)
      | inr (inr above) ↦
          let y : (leb low b && ltb b (low + 1)) ≡ false = ground arith in
          elim (Bool-cases (ltb b (low + suc n))) [
            | inl e ↦
                let x : (leb low b && ltb b (low + suc n)) ≡ true = ground arith in
                let z : (leb (low + 1) b && ltb b (low + 1 + n)) ≡ true = ground arith in
                rw (x, y, z) (omega arith)
            | inr e ↦
                let x : (leb low b && ltb b (low + suc n)) ≡ false = ground arith in
                let z : (leb (low + 1) b && ltb b (low + 1 + n)) ≡ false = ground arith in
                rw (x, y, z) (omega arith)
          ]
    ]

-- A key that is not available is bound.
taken-hits : (index key i : ℕ) (bs : List ℕ) → available index key i bs ≡ false → 1 ≤ hits key 1 bs
unfolding available
taken-hits index key i [] h = cc
taken-hits index key i (b ∷ bs) h = elim (Bool-cases (b == key)) [
  | inl e ↦ let x : (leb key b && ltb b (key + 1)) ≡ true = ground arith in rw x (omega arith)
  | inr e ↦
      let passes : (i == index || not (b == key)) ≡ true = rw e (or_true (i == index)) in
      let rest = taken-hits index key (i + 1) bs (second_false _ _ passes h) in omega arith
]

all_taken-hits :
    (index low n : ℕ) (bs : List ℕ)
    → ((k : ℕ) → low ≤ k → k < low + n → available index k 0 bs ≡ false)
    → n ≤ hits low n bs
all_taken-hits index low zero bs h = omega arith
all_taken-hits index low (suc n) bs h =
    let first = taken-hits index low 0 bs (h low (omega arith) (omega arith)) in
    let rest = all_taken-hits index (low + 1) n bs (λ k a b. h k (omega arith) (omega arith)) in
    omega (arith, hits_next low n bs)

-- What the loop over the function keys finds.
data Searched (skipped : ℕ → Bool) (index n low : ℕ) (bs : List ℕ) : Option ℕ → Type 0 where
  found :
      (k : ℕ)
      → low ≤ k
      → k < low + n
      → skipped k ≡ false
      → available index k 0 bs ≡ true
      → Searched skipped index n low bs (some k)
  all_taken :
      ((k : ℕ) → low ≤ k → k < low + n → skipped k ≡ false → available index k 0 bs ≡ false)
      → Searched skipped index n low bs none

first_free-Searched :
    (skipped : ℕ → Bool) (index n low : ℕ) (bs : List ℕ)
    → Searched skipped index n low bs (first_free skipped index n low bs)
unfolding first_free
first_free-Searched skipped index zero low bs = all_taken λ k a b s. absurd (omega arith)
first_free-Searched skipped index (suc n) low bs =
    elim (Bool-cases (not (skipped low) && available index low 0 bs)) [
      | inl e ↦
          let (fine, free) = and_true (not (skipped low)) (available index low 0 bs) e in
          rw e (found low (omega arith) (omega arith) (not-true (skipped low) fine) free)
      | inr e ↦ rw e (later e (first_free-Searched skipped index n (low + 1) bs))
    ]
  where
    later :
        {o : Option ℕ}
        → (not (skipped low) && available index low 0 bs) ≡ false
        → Searched skipped index n (low + 1) bs o
        → Searched skipped index (suc n) low bs o
    later e (found k a b s f) = found k (omega arith) (omega arith) s f
    later e (all_taken h) = all_taken λ k a b s. elim (Bool-cases (k == low)) [
      | inl same ↦
          let here : low ≡ k = ground arith in
          let fine : not (skipped low) ≡ true = ap not (ap skipped here ∙ s) in
          ap (λ t. available index t 0 bs) (sym here) ∙ second_false _ _ fine e
      | inr other ↦ h k (ground arith) (omega arith) s
    ]

-- The bindings, of which the last is that of the mute action.
available-differs :
    (index key i m : ℕ) (xs : List ℕ)
    → i + length xs ≡ index
    → available index key i (xs ++ (m ∷ [])) ≡ true
    → differs key xs ≡ true
unfolding available
available-differs index key i m [] e h = refl
available-differs index key i m (b ∷ bs) e h =
    let (first, rest) =
      and_true (i == index || not (b == key)) (available index key (i + 1) (bs ++ (m ∷ []))) h in
    let other : (i == index) ≡ false = ground arith in
    let apart : not (key == b) ≡ true = ground arith in
    rw (apart, available-differs index key (i + 1) m bs (omega arith) rest) refl

set_last : (xs : List ℕ) (m k : ℕ) → set (xs ++ (m ∷ [])) (length xs) k ≡ xs ++ (k ∷ [])
set_last [] m k = refl
set_last (x ∷ xs) m k = ap (λ l. x ∷ l) (set_last xs m k)

differs-sym : (a b : ℕ) → not (a == b) ≡ true → not (b == a) ≡ true
differs-sym a b h = ground arith

valid_from-append :
    (before xs : List ℕ) (k : ℕ)
    → valid_from before xs ≡ true
    → valid k ≡ true
    → differs k before ≡ true
    → differs k xs ≡ true
    → valid_from before (xs ++ (k ∷ [])) ≡ true
unfolding valid_from
valid_from-append before [] k h v a b = rw (v, a) refl
valid_from-append before (x ∷ xs) k h v a b =
    let (first, rest) = and_true (valid x && differs x before) (valid_from (x ∷ before) xs) h in
    let (apart, others) = and_true (not (k == x)) (differs k xs) b in
    let ahead : (not (k == x) && differs k before) ≡ true = rw (apart, a) refl in
    rw (first, valid_from-append (x ∷ before) xs k rest v ahead others) refl

function_key-valid : (k : ℕ) → vk_f1 ≤ k → k < vk_f1 + 24 → (k == vk_f4) ≡ false → valid k ≡ true
unfolding valid
function_key-valid k a b c =
    let key : k % 0x100 ≡ k = omega arith in
    let small : leb 0x800 k ≡ false = ground arith in
    let ctrl : has_ctrl k ≡ false = ground arith in
    let alt : has_alt k ≡ false = ground arith in
    let letter : between 65 90 k ≡ false = ground arith in
    let digit : between 48 57 k ≡ false = ground arith in
    let function_key : between 0x70 0x87 k ≡ true = ground arith in
    rw (key, small, ctrl, alt, letter, digit, function_key) refl

key_m-valid : valid key_m ≡ true
unfolding valid
key_m-valid = refl

-- With the first ten bindings valid and all different, whatever the last is: `AddMuteDefault` gives the
-- mute action a key that makes all the bindings valid and different.
pub add_mute_default-valid_bindings :
    (others : List ℕ) (m : ℕ)
    → length others ≡ mute_action
    → valid_bindings others ≡ true
    → valid_bindings (add_mute_default (others ++ (m ∷ []))) ≡ true
unfolding add_mute_default valid_bindings
add_mute_default-valid_bindings others m n h =
    let bs = others ++ (m ∷ []) in
    elim (Bool-cases (available mute_action key_m 0 bs)) [
      | inl free ↦ rw free (given key_m key_m-valid free)
      | inr taken ↦
          rw taken (from_keys (first_free-Searched (λ k. k == vk_f4) mute_action 24 vk_f1 bs))
    ]
  where
    given :
        (k : ℕ)
        → valid k ≡ true
        → available mute_action k 0 (others ++ (m ∷ [])) ≡ true
        → valid_from [] (set (others ++ (m ∷ [])) mute_action k) ≡ true
    given k v f =
        let e : set (others ++ (m ∷ [])) mute_action k ≡ others ++ (k ∷ []) =
          ap (λ i. set (others ++ (m ∷ [])) i k) (sym n) ∙ set_last others m k in
        rw e (
          valid_from-append [] others k h v refl
            (available-differs mute_action k 0 m others (omega arith) f))

    from_keys :
        {o : Option ℕ}
        → Searched (λ k. k == vk_f4) mute_action 24 vk_f1 (others ++ (m ∷ [])) o
        → valid_from [] (bind mute_action o (others ++ (m ∷ []))) ≡ true
    from_keys (found k a b s f) = given k (function_key-valid k a b s) f
    from_keys (all_taken t) =
        let bs = others ++ (m ∷ []) in
        let many =
          all_taken-hits mute_action (vk_f4 + 1) 20 bs
            (λ k a b. t k (omega arith) (omega arith) (ground arith)) in
        let bound = hits_bound (vk_f4 + 1) 20 bs in
        let size = length-append others (m ∷ []) in absurd (omega arith)
