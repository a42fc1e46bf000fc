-- ===== src/Update/Release.antt =====
-- src/update/UpdateChecker.cpp: release tags and their order. A string is its characters; `iswdigit` of
-- the C library is an argument, and holds of no character below `0`.
pub mod Order
mod Examples
use low_latency_capture_view.Common.{
  ℕ, zero, suc, ◌+◌, ◌-◌, ◌*◌, min, max, Bool, true, false, ◌||◌, List, [], ◌∷◌, Option, none, some,
  ◌==◌, ltb, if◌then◌else◌, length, get_or,
}

-- The first loop of `ParseReleaseTag`: any of `v`, `V` and a space.
pub skip_prefix : List ℕ → List ℕ
skip_prefix [] = []
skip_prefix (c ∷ cs) =
    let rest = skip_prefix cs in if c == 118 || c == 86 || c == 32 then rest else c ∷ cs

abbrev pub add_digit : ℕ → ℕ → ℕ
add_digit value c = min (value * 10 + (c - 48)) 1000000

-- The other loops; the second argument is the number that is being read.
pub numbers : (ℕ → Bool) → Option ℕ → List ℕ → List ℕ
numbers is_digit none [] = []
numbers is_digit (some value) [] = value ∷ []
numbers is_digit none (c ∷ cs) = elim (is_digit c) [
  | true ↦ numbers is_digit (some (add_digit 0 c)) cs
  | false ↦ numbers is_digit none cs
]
numbers is_digit (some value) (c ∷ cs) = elim (is_digit c) [
  | true ↦ numbers is_digit (some (add_digit value c)) cs
  | false ↦ value ∷ numbers is_digit none cs
]

pub parse_release_tag : (ℕ → Bool) → List ℕ → List ℕ
parse_release_tag is_digit input = numbers is_digit none (skip_prefix input)

-- The loop of `IsNewerReleaseTag` from place `i` on, for the rounds that are left.
unfoldable pub newer_from : ℕ → ℕ → List ℕ → List ℕ → Bool
newer_from zero i latest current = false
newer_from (suc rounds) i latest current =
    let lhs = get_or latest i 0 in
    let rhs = get_or current i 0 in
    let rest = newer_from rounds (i + 1) latest current in if lhs == rhs then rest else ltb rhs lhs

pub is_newer_release_tag : (ℕ → Bool) → List ℕ → List ℕ → Bool
is_newer_release_tag is_digit latest_tag current_tag =
    let latest = parse_release_tag is_digit latest_tag in
    let current = parse_release_tag is_digit current_tag in
    newer_from (max (length latest) (length current)) 0 latest current
