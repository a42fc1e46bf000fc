-- ===== src/Update/Notes/Examples.antt =====
-- An address of release notes at a concrete version.
use low_latency_capture_view.Common.{ℕ, ◌≡◌, refl, List, [], ◌∷◌, ◌++◌, arith}
use low_latency_capture_view.Update.Response.{releases}
use low_latency_capture_view.Update.Notes.{tag_path, parts, release_notes_url}
use low_latency_capture_view.Update.Notes.Labels.{
  no_more, digit, IsPart, capital, dash, release_notes_url-version,
}

-- `1`, `20` and `3`
abbrev one : List ℕ
one = 49 ∷ []

abbrev twenty : List ℕ
twenty = 50 ∷ 48 ∷ []

abbrev three : List ℕ
three = 51 ∷ []

one-IsPart : IsPart one
one-IsPart = record {
  are_digits = digit refl no_more;
  not_empty = omega arith;
  at_most_six = omega arith;
}

twenty-IsPart : IsPart twenty
twenty-IsPart = record {
  are_digits = digit refl (digit refl no_more);
  not_empty = omega arith;
  at_most_six = omega arith;
}

three-IsPart : IsPart three
three-IsPart = record {
  are_digits = digit refl no_more;
  not_empty = omega arith;
  at_most_six = omega arith;
}

-- `V1.20.3-b`
release_notes_url-version_example :
    release_notes_url ((86 ∷ []) ++ (one ++ (46 ∷ (twenty ++ (46 ∷ (three ++ (45 ∷ 98 ∷ [])))))))
    ≡ releases ++ (tag_path ++ (one ++ (46 ∷ (twenty ++ (46 ∷ three)))))
release_notes_url-version_example =
    release_notes_url-version capital one-IsPart twenty-IsPart three-IsPart (dash (98 ∷ []))

-- `1.20` is no version.
too_short : release_notes_url (one ++ (46 ∷ twenty)) ≡ releases
unfolding release_notes_url parts
too_short = refl
