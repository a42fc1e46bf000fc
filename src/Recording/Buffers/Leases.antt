-- ===== src/Recording/Buffers/Leases.antt =====
-- What `Acquire` leases, and when it finds nothing.
use low_latency_capture_view.Common.{
  ℕ, zero, suc, ◌+◌, ◌-◌, ◌%◌, ◌<◌, ◌≤◌, ◌≡◌, ◌≢◌, refl, sym, ap, ◌∙◌, Option, none, some, ◌==◌,
  set, get_or, length, Bool-cases, inl, inr, arith,
}
use low_latency_capture_view.Common.Cyclic.{wrapped, mod-wrapped, lt_or_le}
use native.Mathlib.Nat.{mod-lt}
use low_latency_capture_view.Recording.Buffers.{Pool, try_lease, scan, acquire}

abbrev pub size : Pool → ℕ
size p = length p.references

abbrev pub references_of : Pool → ℕ → ℕ
references_of p i = get_or p.references i 0

-- The result of looking at `n` buffers from the next one on.
pub data Scanned (n : ℕ) (p : Pool) : Pool × Option ℕ → Type 0 where
  found :
      {t : Pool} (i : ℕ)
      → i < size p
      → references_of p i ≡ 1
      → t.references ≡ set p.references i 2
      → t.next < size p
      → Scanned n p (t, some i)
  missed :
      {t : Pool}
      → ((k : ℕ) → k < n → references_of p (wrapped (size p) (p.next + k)) ≢ 1)
      → t.references ≡ p.references
      → t.next < size p
      → Scanned n p (t, none)

later :
    {n : ℕ} {p : Pool} {r : Pool × Option ℕ}
    → p.next < size p
    → suc n ≤ size p
    → references_of p p.next ≢ 1
    → Scanned n (record p { next = (p.next + 1) % size p }) r
    → Scanned (suc n) p r
later h l busy (found i a b c d) = found i a b c d
later {n} {p} h l busy (missed none_free a b) = missed all a b
  where
    all : (k : ℕ) → k < suc n → references_of p (wrapped (size p) (p.next + k)) ≢ 1
    all zero m e =
        let here : wrapped (size p) (p.next + 0) ≡ p.next = ground arith in
        busy (ap (references_of p) (sym here) ∙ e)
    all (suc k) m e =
        let there : wrapped (size p) ((p.next + 1) % size p + k)
            ≡ wrapped (size p) (p.next + suc k) =
          ap (λ x. wrapped (size p) (x + k)) (mod-wrapped (size p) (p.next + 1) (omega arith))
          ∙ ground arith in
        none_free k (omega arith) (ap (references_of p) there ∙ e)

scan-Scanned : (n : ℕ) (p : Pool) → p.next < size p → n ≤ size p → Scanned n p (scan n p)
unfolding scan try_lease
scan-Scanned zero p h l = missed (λ k m. absurd (omega arith)) refl h
scan-Scanned (suc n) p h l =
    let inside : (p.next + 1) % size p < size p = mod-lt (p.next + 1) (omega arith) in
    elim (Bool-cases (references_of p p.next == 1)) [
      | inl e ↦ rw e (found p.next h (ground arith) refl inside)
      | inr e ↦ rw e (
          later h l (ground arith)
            (scan-Scanned n (record p { next = (p.next + 1) % size p }) inside (omega arith)))
    ]

-- What `Acquire` may return: a buffer that only the pool held, leased; or nothing, when there is none.
pub data Acquired (p : Pool) : Pool × Option ℕ → Type 0 where
  leased :
      {t : Pool} (i : ℕ)
      → i < size p
      → references_of p i ≡ 1
      → t.references ≡ set p.references i 2
      → t.next < size p
      → Acquired p (t, some i)
  exhausted :
      {t : Pool}
      → ((i : ℕ) → i < size p → references_of p i ≢ 1)
      → t.references ≡ p.references
      → t.next < size p
      → Acquired p (t, none)

-- On a pool that is not empty, with its next place inside: `Acquire` leases a buffer that nothing but
-- the pool refers to, if there is one, and changes the count of that one alone; otherwise it changes
-- no count. The next place stays inside.
pub acquire-Acquired : (p : Pool) → p.next < size p → Acquired p (acquire p)
unfolding acquire
acquire-Acquired p h = result (scan-Scanned (size p) p h (omega arith))
  where
    around : (i : ℕ) → i < size p → (k : ℕ) × (k < size p) × (wrapped (size p) (p.next + k) ≡ i)
    around i l = elim (lt_or_le i p.next) [
      | inl b ↦ (i + size p - p.next, omega arith, ground arith)
      | inr b ↦ (i - p.next, omega arith, ground arith)
    ]

    result : {r : Pool × Option ℕ} → Scanned (size p) p r → Acquired p r
    result (found i a b c d) = leased i a b c d
    result (missed none_free a b) =
        exhausted
          (λ i l e. let (k, m, w) = around i l in none_free k m (ap (references_of p) w ∙ e)) a b
