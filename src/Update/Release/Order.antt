-- ===== src/Update/Release/Order.antt =====
-- When a release is newer than another.
use low_latency_capture_view.Common.{
  ℕ, zero, suc, ◌+◌, max, ◌≤◌, ◌<◌, ◌≡◌, ◌↔◌, refl, sym, ap, subst, ◌∙◌, Bool, true, false, List,
  [], ◌∷◌, ◌==◌, ltb, if◌then◌else◌, length, get_or, inl, inr, arith,
}
use low_latency_capture_view.Common.Cyclic.{lt_or_le}
use low_latency_capture_view.Update.Release.{newer_from, parse_release_tag, is_newer_release_tag}

-- From place `from` on, the first number that differs, 0 where there is none, is larger on the left.
pub record Newer (from : ℕ) (latest current : List ℕ) : Type 0 where
  pub place : ℕ
  pub from_here : from ≤ place
  pub alike : (j : ℕ) → from ≤ j → j < place → get_or latest j 0 ≡ get_or current j 0
  pub larger : get_or current place 0 < get_or latest place 0

get_or_pos : (l : List ℕ) (k : ℕ) → 0 < get_or l k 0 → k < length l
get_or_pos [] k p = absurd (omega arith)
get_or_pos (x ∷ xs) zero p = omega arith
get_or_pos (x ∷ xs) (suc k) p = omega (arith, get_or_pos xs k p)

module _ (latest current : List ℕ) where
  newer_from-Newer : (n i : ℕ) → newer_from n i latest current ≡ true → Newer i latest current
  unfolding newer_from
  newer_from-Newer zero i h = cc
  newer_from-Newer (suc n) i h = decided _ refl h (newer_from-Newer n (i + 1))
    where
      extend :
          get_or latest i 0 ≡ get_or current i 0
          → Newer (i + 1) latest current
          → Newer i latest current
      extend e v = record {
        place = v.place;
        from_here = omega (arith, v.from_here);
        alike = λ j a b. elim (lt_or_le i j) [
          | inl l ↦ v.alike j (omega arith) b
          | inr l ↦
              let here : i ≡ j = omega arith in
              ap (λ x. get_or latest x 0) (sym here) ∙ e ∙ ap (λ x. get_or current x 0) here
        ];
        larger = v.larger;
      }

      decided :
          (b : Bool)
          → (get_or latest i 0 == get_or current i 0) ≡ b
          → (if b
              then newer_from n (i + 1) latest current
              else ltb (get_or current i 0) (get_or latest i 0))
            ≡ true
          → (newer_from n (i + 1) latest current ≡ true → Newer (i + 1) latest current)
          → Newer i latest current
      decided true e h next = extend (ground arith) (next h)
      decided false e h next = record {
        place = i;
        from_here = omega arith;
        alike = λ j a b. absurd (omega arith);
        larger = ground arith;
      }

  Newer-newer_from :
      (n i : ℕ) (v : Newer i latest current)
      → v.place < i + n
      → newer_from n i latest current ≡ true
  unfolding newer_from
  Newer-newer_from zero i v l = absurd (omega (arith, v.from_here))
  Newer-newer_from (suc n) i v l = elim (lt_or_le i v.place) [
    | inl b ↦
        let same : (get_or latest i 0 == get_or current i 0) ≡ true =
          let e = v.alike i (omega arith) b in ground arith in
        rw same (
          Newer-newer_from n (i + 1)
            (record {
              place = v.place;
              from_here = omega arith;
              alike = λ j x y. v.alike j (omega arith) y;
              larger = v.larger;
            })
            (omega arith))
    | inr b ↦
        let here : v.place ≡ i = omega (arith, v.from_here) in
        let bigger : get_or current i 0 < get_or latest i 0 =
          subst (λ k. get_or current k 0 < get_or latest k 0) here v.larger in
        ground arith
  ]

-- For any digits and tags: the latest tag is newer exactly when, at the first of the parsed numbers in
-- which the two differ, counting a missing number as 0, the latest one's is larger.
pub is_newer_release_tag-Newer :
    (is_digit : ℕ → Bool) (latest current : List ℕ)
    → (is_newer_release_tag is_digit latest current ≡ true)
      ↔ Newer 0 (parse_release_tag is_digit latest) (parse_release_tag is_digit current)
unfolding is_newer_release_tag
is_newer_release_tag-Newer is_digit latest current =
    let l = parse_release_tag is_digit latest in
    let c = parse_release_tag is_digit current in
    (
      newer_from-Newer l c (max (length l) (length c)) 0,
      λ v.
          Newer-newer_from l c (max (length l) (length c)) 0 v
            (omega (arith, get_or_pos l v.place (omega (arith, v.larger)))),
    )
