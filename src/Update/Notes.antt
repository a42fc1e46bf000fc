-- ===== src/Update/Notes.antt =====
-- src/update/UpdateChecker.cpp: the address of a version's release notes. A position in the version is
-- the text that follows it; strings are their characters.
pub mod Labels
mod Examples
use low_latency_capture_view.Common.{
  ℕ, zero, suc, Bool, true, false, ◌&&◌, ◌||◌, List, [], ◌∷◌, ◌++◌, Option, none, some, ◌==◌, leb,
  ltb, if◌then◌else◌, length,
}
use low_latency_capture_view.Update.Response.{releases}

abbrev pub is_ascii_digit : ℕ → Bool
is_ascii_digit c = leb 48 c && leb c 57

-- The inner `while`: the digits in front, and the text behind them.
abbrev pub digits : List ℕ → List ℕ × List ℕ
digits [] = ([], [])
digits (c ∷ cs) =
    let (number, rest) = digits cs in if is_ascii_digit c then (c ∷ number, rest) else ([], c ∷ cs)

-- `/tag/v`
abbrev pub tag_path : List ℕ
tag_path = 47 ∷ 116 ∷ 97 ∷ 103 ∷ 47 ∷ 118 ∷ []

-- The dot behind a part, and the parts that follow it.
abbrev pub dotted : (List ℕ → Option (List ℕ × List ℕ)) → List ℕ → Option (List ℕ × List ℕ)
dotted later [] = none
dotted later (c ∷ cs) = if c == 46 then later cs else none

abbrev pub put_part : List ℕ → Option (List ℕ × List ℕ) → Option (List ℕ × List ℕ)
put_part number none = none
put_part number (some (label, rest)) = some (number ++ (46 ∷ label), rest)

-- The loop, for the parts that are left after the next one: what is passed over, and the text behind.
unfoldable pub parts : ℕ → List ℕ → Option (List ℕ × List ℕ)
parts zero text =
    let (number, rest) = digits text in
    if length number == 0 || ltb 6 (length number) then none else some (number, rest)
parts (suc left) text =
    let (number, rest) = digits text in
    let later = put_part number (dotted (parts left) rest) in
    if length number == 0 || ltb 6 (length number) then none else later

abbrev pub skip_v : List ℕ → List ℕ
skip_v [] = []
skip_v (c ∷ cs) = if c == 118 || c == 86 then cs else c ∷ cs

-- What stands behind the version's numbers is nothing, or a suffix.
abbrev pub url_of : Option (List ℕ × List ℕ) → List ℕ
url_of none = releases
url_of (some (label, [])) = releases ++ (tag_path ++ label)
url_of (some (label, c ∷ cs)) = if c == 45 then releases ++ (tag_path ++ label) else releases

unfoldable pub release_notes_url : List ℕ → List ℕ
release_notes_url version = url_of (parts 2 (skip_v version))
