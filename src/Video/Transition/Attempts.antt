-- ===== src/Video/Transition/Attempts.antt =====
-- What `AttemptGate::Begin` allows over a history of calls.
use low_latency_capture_view.Common.{
  ℕ, ◌+◌, ◌≡◌, ◌≤◌, refl, sym, ◌∙◌, ◌≢◌, ◌⊎◌, Option, none, some, Bool, true, false, ◌&&◌, List, [],
  ◌∷◌, ◌==◌, if◌then◌else◌, Bool-cases, inl, inr, arith,
}
use low_latency_capture_view.Video.Transition.{AttemptGate, begin_attempt, reset, same}

-- How many of the calls for one wish are allowed to try, whatever state each of them finds.
tries : ℕ → Bool → List Bool → AttemptGate → ℕ
tries revision wants [] g = 0
tries revision wants (exclusive ∷ rest) g =
    let (g', allowed) = begin_attempt revision wants exclusive g in
    (if allowed then 1 else 0) + tries revision wants rest g'

same_self : (b : Bool) → same b b ≡ true
same_self true = refl
same_self false = refl

-- The gate after an attempt for the wish allows none.
tries_spent :
    (revision : ℕ) (wants : Bool) (found : List Bool)
    → tries revision wants found
        (record { attempted = true; revision = revision; wanted_last = wants })
      ≡ 0
unfolding tries begin_attempt
tries_spent revision wants [] = refl
tries_spent revision wants (exclusive ∷ rest) = elim (Bool-cases (same wants exclusive)) [
  | inl e ↦ rw e (omega (arith, tries_spent revision wants rest))
  | inr e ↦ rw (e, equal, same_self wants) (omega (arith, tries_spent revision wants rest))
]
  where
    equal : (revision == revision) ≡ true
    equal = ground arith

-- Calls of `Begin` that follow each other, all for one wish and one revision, with no `Reset` and no
-- call for another wish or revision between them, on any gate and whatever the output is at each call:
-- at most one of them is allowed to try.
tries_le_one :
    (revision : ℕ) (wants : Bool) (found : List Bool) (g : AttemptGate)
    → tries revision wants found g ≤ 1
unfolding tries begin_attempt
tries_le_one revision wants [] g = omega arith
tries_le_one revision wants (exclusive ∷ rest) g = elim (Bool-cases (same wants exclusive)) [
  | inl e ↦ rw e (omega (arith, tries_le_one revision wants rest g))
  | inr e ↦ elim (Bool-cases (g.attempted && revision == g.revision && same wants g.wanted_last)) [
    | inl f ↦ rw (e, f) (omega (arith, tries_le_one revision wants rest g))
    | inr f ↦ rw (e, f) (omega (arith, tries_spent revision wants rest))
  ]
]

-- A call of the gate: `Begin` for a revision and a wish, with what the output is, or `Reset`.
pub data Request : Type 0 where
  begins : (revision : ℕ) (wants exclusive : Bool) → Request
  resets : Request

-- An attempt that was allowed, with what the output was, or a reset.
pub data Outcome : Type 0 where
  tried : (revision : ℕ) (wants exclusive : Bool) → Outcome
  forgot : Outcome

abbrev pub noted : Bool → Outcome → List Outcome → List Outcome
noted true o os = o ∷ os
noted false o os = os

-- The allowed attempts and the resets of a history, in their order.
abbrev pub outcomes : List Request → AttemptGate → List Outcome
outcomes [] g = []
outcomes (begins revision wants exclusive ∷ rest) g =
    let (g', allowed) = begin_attempt revision wants exclusive g in
    noted allowed (tried revision wants exclusive) (outcomes rest g')
outcomes (resets ∷ rest) g = forgot ∷ outcomes rest (reset g)

-- No attempt is for what the output already is, nor for the revision and the wish of the attempt
-- before it, unless a reset lies between. The first argument is the attempt before, if there is one
-- since the last reset.
pub data NoRepeat : Option (ℕ × Bool) → List Outcome → Type 0 where
  over : {last : Option (ℕ × Bool)} → NoRepeat last []
  then_reset :
      {last : Option (ℕ × Bool)} {os : List Outcome}
      → NoRepeat none os
      → NoRepeat last (forgot ∷ os)
  first :
      {revision : ℕ} {wants exclusive : Bool} {os : List Outcome}
      → wants ≢ exclusive
      → NoRepeat (some (revision, wants)) os
      → NoRepeat none (tried revision wants exclusive ∷ os)
  another :
      {before revision : ℕ} {wanted wants exclusive : Bool} {os : List Outcome}
      → wants ≢ exclusive
      → (revision ≢ before) ⊎ (wants ≢ wanted)
      → NoRepeat (some (revision, wants)) os
      → NoRepeat (some (before, wanted)) (tried revision wants exclusive ∷ os)

abbrev pub last_attempt : AttemptGate → Option (ℕ × Bool)
last_attempt g = if g.attempted then some (g.revision, g.wanted_last) else none

differs : (a b : Bool) → same a b ≡ false → a ≢ b
differs true true h e = cc
differs true false h e = cc
differs false true h e = cc
differs false false h e = cc

new_wish :
    (revision before : ℕ) (wants wanted : Bool)
    → (revision == before && same wants wanted) ≡ false
    → (revision ≢ before) ⊎ (wants ≢ wanted)
new_wish revision before wants wanted h = elim (Bool-cases (same wants wanted)) [
  | inl e ↦
      let other = other_revision (revision == before) (same wants wanted) e h in inl (ground arith)
  | inr e ↦ inr (differs wants wanted e)
]
  where
    other_revision : (a b : Bool) → b ≡ true → (a && b) ≡ false → a ≡ false
    other_revision true b e k = sym e ∙ k
    other_revision false b e k = refl

allowed-NoRepeat :
    (g : AttemptGate) (revision : ℕ) (wants exclusive : Bool) {os : List Outcome}
    → same wants exclusive ≡ false
    → (g.attempted && revision == g.revision && same wants g.wanted_last) ≡ false
    → NoRepeat (some (revision, wants)) os
    → NoRepeat (last_attempt g) (tried revision wants exclusive ∷ os)
allowed-NoRepeat g revision wants exclusive h k more = elim (Bool-cases g.attempted) [
  | inl e ↦ rw e (
      another (differs wants exclusive h)
        (new_wish revision g.revision wants g.wanted_last (unspent g.attempted _ _ e k)) more)
  | inr e ↦ rw e (first (differs wants exclusive h) more)
]
  where
    unspent : (a b c : Bool) → a ≡ true → (a && b && c) ≡ false → (b && c) ≡ false
    unspent true b c e k = k
    unspent false b c e k = cc

-- For any calls of `Begin` and `Reset` in any order, whatever the output is at each, and any gate: an
-- attempt is allowed only for what the output is not, and never for the revision and the wish of the
-- attempt allowed before it, unless `Reset` was called in between.
pub outcomes-NoRepeat :
    (requests : List Request) (g : AttemptGate) → NoRepeat (last_attempt g) (outcomes requests g)
unfolding begin_attempt reset
outcomes-NoRepeat [] g = over
outcomes-NoRepeat (resets ∷ rest) g =
    then_reset (outcomes-NoRepeat rest (record g { attempted = false }))
outcomes-NoRepeat (begins revision wants exclusive ∷ rest) g =
    elim (Bool-cases (same wants exclusive)) [
      | inl e ↦ rw e (outcomes-NoRepeat rest g)
      | inr e ↦
          elim (Bool-cases (g.attempted && revision == g.revision && same wants g.wanted_last)) [
            | inl f ↦ rw (e, f) (outcomes-NoRepeat rest g)
            | inr f ↦
                rw (e, f)
                  (allowed-NoRepeat g revision wants exclusive e f (
                    outcomes-NoRepeat rest
                      (record { attempted = true; revision = revision; wanted_last = wants })))
          ]
    ]
