-- ===== src/Recording/Delivery/Chunks/Returned.antt =====
-- The references of the pool while packets are reserved, and after they are given back.
use low_latency_capture_view.Common.{
  ℕ, zero, suc, ◌+◌, ◌-◌, ◌<◌, ◌≡◌, ◌≢◌, refl, sym, ap, ◌∙◌, Bool, true, false, List, [], ◌∷◌,
  Option, none, some, ◌==◌, if◌then◌else◌, length, set, get_or, length-set, get_or-set_self,
  get_or-set_ne, Bool-cases, inl, inr, arith,
}
use low_latency_capture_view.Recording.Buffers.{Pool, acquire, release}
use low_latency_capture_view.Recording.Buffers.Leases.{
  size, references_of, Acquired, leased, exhausted, acquire-Acquired,
}
use low_latency_capture_view.Recording.Delivery.Chunks.{lease_all, give_back}

abbrev pub one : ℕ → ℕ → ℕ
one i j = if i == j then 1 else 0

abbrev pub times_in : ℕ → List ℕ → ℕ
times_in j [] = 0
times_in j (i ∷ is) = one i j + times_in j is

set_less_one :
    (xs : List ℕ) (i j : ℕ) → get_or (set xs i (get_or xs i 0 - 1)) j 0 ≡ get_or xs j 0 - one i j
set_less_one [] i j = omega arith
set_less_one (x ∷ xs) zero zero = refl
set_less_one (x ∷ xs) zero (suc j) = ground arith
set_less_one (x ∷ xs) (suc i) zero = ground arith
set_less_one (x ∷ xs) (suc i) (suc j) =
    let same : one (suc i) (suc j) ≡ one i j = ground arith in
    set_less_one xs i j ∙ ap (λ t. get_or xs j 0 - t) (sym same)

pub give_back-references :
    (l : List ℕ) (p : Pool) (j : ℕ)
    → references_of (give_back l p) j ≡ references_of p j - times_in j l
unfolding give_back release
give_back-references [] p j = omega arith
give_back-references (i ∷ is) p j =
    give_back-references is (release i p) j
    ∙ ap (λ t. t - times_in j is) (set_less_one p.references i j)
    ∙ omega arith

-- The pool after leases, each of a buffer that only the pool held.
pub record Leased (p p' : Pool) (leases : List ℕ) : Type 0 where
  pub same_size : size p' ≡ size p
  pub next_inside : p'.next < size p'
  pub counted : (j : ℕ) → references_of p' j ≡ references_of p j + times_in j leases

pub set_two :
    (p t : Pool) (i j : ℕ)
    → i < size p
    → references_of p i ≡ 1
    → t.references ≡ set p.references i 2
    → references_of t j ≡ references_of p j + one i j
set_two p t i j l e h = elim (Bool-cases (i == j)) [
  | inl same ↦
      let k : i ≡ j = ground arith in
      ap (λ r. get_or r j 0) h
      ∙ ap (λ x. get_or (set p.references x 2) j 0) k
      ∙ get_or-set_self p.references j 2 0 (omega arith)
      ∙ (let f : references_of p j ≡ 1 = ap (references_of p) (sym k) ∙ e in rw (same, f) refl)
  | inr other ↦
      let k : i ≢ j = ground arith in
      ap (λ r. get_or r j 0) h ∙ get_or-set_ne p.references i j 2 0 k ∙ (rw other (omega arith))
]

-- One round of the loop, on what `Acquire` gave.
abbrev lease_round : ℕ → Pool × Option ℕ → Pool × List ℕ × Bool
lease_round n r = elim (r.1) [
  | none ↦ (r.0, [], false)
  | some i ↦ let (q, leases, enough) = lease_all n r.0 in (q, i ∷ leases, enough)
]

lease_round-Leased :
    (n : ℕ) (p : Pool) {r : Pool × Option ℕ}
    → ((q : Pool) → q.next < size q → Leased q (lease_all n q).0 (lease_all n q).1)
    → Acquired p r
    → Leased p (lease_round n r).0 (lease_round n r).1
lease_round-Leased n p rest (exhausted {t} busy e h) = record {
  same_size = ap length e;
  next_inside = let same : size t ≡ size p = ap length e in omega arith;
  counted = λ j. ap (λ l. get_or l j 0) e ∙ omega arith;
}
lease_round-Leased n p rest (leased {t} i l e f h) =
    let same : size t ≡ size p = ap length f ∙ length-set p.references i 2 in
    let below = rest t (omega arith) in
    record {
      same_size = below.same_size ∙ same;
      next_inside = below.next_inside;
      counted = λ j.
          below.counted j
          ∙ ap (λ x. x + times_in j (lease_all n t).1) (set_two p t i j l e f)
          ∙ omega arith;
    }

pub lease_all-Leased :
    (n : ℕ) (p : Pool) → p.next < size p → Leased p (lease_all n p).0 (lease_all n p).1
unfolding lease_all
lease_all-Leased zero p h = record { same_size = refl; next_inside = h; counted = λ j. omega arith }
lease_all-Leased (suc n) p h = lease_round-Leased n p (lease_all-Leased n) (acquire-Acquired p h)

pub lease_all-give_back :
    (n : ℕ) (p : Pool) (j : ℕ)
    → p.next < size p
    → references_of (give_back (lease_all n p).1 (lease_all n p).0) j ≡ references_of p j
lease_all-give_back n p j h =
    give_back-references (lease_all n p).1 (lease_all n p).0 j
    ∙ omega (arith, (lease_all-Leased n p h).counted j)

-- Where there were enough buffers, there is a lease for every lease_round.
pub length-lease_all : (n : ℕ) (p : Pool) → (lease_all n p).2 ≡ true → length (lease_all n p).1 ≡ n
unfolding lease_all
length-lease_all zero p h = refl
length-lease_all (suc n) p h = counted (acquire p) (length-lease_all n) h
  where
    counted :
        (r : Pool × Option ℕ)
        → ((q : Pool) → (lease_all n q).2 ≡ true → length (lease_all n q).1 ≡ n)
        → (lease_round n r).2 ≡ true
        → length (lease_round n r).1 ≡ suc n
    counted (t, none) rest k = cc
    counted (t, some i) rest k = ap suc (rest t k)
