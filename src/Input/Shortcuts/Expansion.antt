-- ===== src/Input/Shortcuts/Expansion.antt =====
-- `Expand` with the default bindings.
use low_latency_capture_view.Common.{starts_with, starts_with-append}
use low_latency_capture_view.Common.{
  ℕ, zero, suc, ◌+◌, ◌-◌, ◌≤◌, ◌<◌, ◌≡◌, refl, sym, ap, ◌∙◌, Bool, true, not, ◌&&◌, List, [], ◌∷◌,
  ◌++◌, Option, none, some, get_or, drop, length, map, subst, length-drop, and_true, Bool-cases,
  inl, inr, arith,
}
use mathlib.Core.Path.{ap₂}
use low_latency_capture_view.Input.Shortcuts.{
  defaults, default_labels, label, letter_or_digit, fresh, token_at, expand_from, expand,
}

get_or-map :
    {A B : Type 0} (f : A → B) (xs : List A) (i : ℕ) (y : A) (z : B)
    → i < length xs
    → get_or (map f xs) i z ≡ f (get_or xs i y)
get_or-map f [] i y z h = absurd (omega arith)
get_or-map f (x ∷ xs) zero y z h = refl
get_or-map f (x ∷ xs) (suc i) y z h = get_or-map f xs i y z (omega arith)

-- Every default binding is named by its default label.
defaults_named : map label defaults ≡ default_labels
unfolding label
defaults_named = refl

label-default :
    (i : ℕ) → i < length default_labels → label (get_or defaults i 0) ≡ get_or default_labels i []
label-default i h =
    sym (get_or-map label defaults i 0 [] h) ∙ ap (λ l. get_or l i []) defaults_named

data AllSome : List (List ℕ) → Type 0 where
  all_some : AllSome []
  some_more : {c : ℕ} {l : List ℕ} {ls : List (List ℕ)} → AllSome ls → AllSome ((c ∷ l) ∷ ls)

label_some : AllSome default_labels
label_some = some_more (
    some_more (
      some_more (
        some_more (
          some_more
            (some_more (some_more (some_more (some_more (some_more (some_more all_some))))))))))

length-label :
    {ls : List (List ℕ)} → AllSome ls → (k : ℕ) → k < length ls → 0 < length (get_or ls k [])
length-label all_some k h = absurd (omega arith)
length-label (some_more a) zero h = omega arith
length-label (some_more a) (suc k) h = length-label a k (omega arith)

module _ (is_alnum : ℕ → Bool) where
  -- A token that is found is one of the labels, and the text starts with it.
  pub data Token (source : List ℕ) (ls : List (List ℕ)) (i : ℕ) : Option (ℕ × ℕ) → Type 0 where
    no_token : Token source ls i none
    token :
        (k : ℕ)
        → k < length ls
        → starts_with (get_or ls k []) source ≡ true
        → Token source ls i (some (length (get_or ls k []), i + k))

  token_at-Token :
      (before : Option ℕ) (source : List ℕ) (ls : List (List ℕ)) (i : ℕ)
      → Token source ls i (token_at is_alnum before source ls i)
  unfolding token_at
  token_at-Token before source [] i = no_token
  token_at-Token before source (l ∷ ls) i =
      elim (Bool-cases (
        fresh is_alnum before
        && starts_with l source
        && not (letter_or_digit (get_or source (length l) 0)))) [
          | inl e ↦
              let (both, last) =
                and_true (fresh is_alnum before && starts_with l source)
                  (not (letter_or_digit (get_or source (length l) 0))) e in
              let (first, starts) = and_true (fresh is_alnum before) (starts_with l source) both in
              let here : i + 0 ≡ i = omega arith in
              rw e (
                subst (λ t. Token source (l ∷ ls) i (some (length l, t))) here
                  (token 0 (omega arith) starts))
          | inr e ↦ rw e (later (token_at-Token before source ls (i + 1)))
        ]
    where
      later : {o : Option (ℕ × ℕ)} → Token source ls (i + 1) o → Token source (l ∷ ls) i o
      later no_token = no_token
      later (token k h starts) =
          let place : i + suc k ≡ i + 1 + k = omega arith in
          subst (λ t. Token source (l ∷ ls) i (some (length (get_or ls k []), t))) place
            (token (suc k) (omega arith) starts)

  expand_from-defaults :
      (fuel : ℕ) (before : Option ℕ) (source : List ℕ)
      → length source ≤ fuel
      → expand_from is_alnum defaults fuel before source ≡ source
  unfolding expand_from
  expand_from-defaults zero before [] h = refl
  expand_from-defaults zero before (c ∷ cs) h = absurd (omega arith)
  expand_from-defaults (suc fuel) before [] h = refl
  expand_from-defaults (suc fuel) before (c ∷ cs) h =
      at (token_at-Token before (c ∷ cs) default_labels 0) (expand_from-defaults fuel)
    where
      at :
          {o : Option (ℕ × ℕ)}
          → Token (c ∷ cs) default_labels 0 o
          → ((b : Option ℕ) (s : List ℕ)
              → length s ≤ fuel
              → expand_from is_alnum defaults fuel b s ≡ s)
          → (elim o [
            | none ↦ c ∷ expand_from is_alnum defaults fuel (some c) cs
            | some (n, i) ↦
                label (get_or defaults i 0)
                ++ expand_from is_alnum defaults fuel
                    (some (get_or (c ∷ cs) (n - 1) 0))
                    (drop n (c ∷ cs))
          ])
            ≡ c ∷ cs
      at no_token rest = ap (λ l. c ∷ l) (rest (some c) cs (omega arith))
      at (token k l starts) rest =
          let t = get_or default_labels k [] in
          let n = length-label label_some k l in
          let shorter : length (drop (length t) (c ∷ cs)) ≤ fuel =
            omega (arith, length-drop (length t) (c ∷ cs)) in
          let place : 0 + k ≡ k = omega arith in
          rw place (
            ap₂ ◌++◌ (label-default k l)
              (rest (some (get_or (c ∷ cs) (length t - 1) 0)) (drop (length t) (c ∷ cs)) shorter)
            ∙ sym (starts_with-append t (c ∷ cs) starts))

  -- With the default bindings, `Expand` returns every text as it is.
  pub expand-defaults : (source : List ℕ) → expand is_alnum source defaults ≡ source
  unfolding expand
  expand-defaults source = expand_from-defaults (length source) none source (omega arith)
