-- ===== src/Update/Notes/Labels.antt =====
-- Versions of three numbers, and the addresses of their notes.
use low_latency_capture_view.Common.{
  ℕ, suc, ◌≤◌, ◌<◌, ◌≡◌, refl, ap, ◌∙◌, true, false, ◌||◌, List, [], ◌∷◌, ◌++◌, some, ◌==◌, ltb,
  length, arith,
}
use low_latency_capture_view.Update.Response.{releases}
use low_latency_capture_view.Update.Notes.{
  is_ascii_digit, digits, tag_path, put_part, parts, skip_v, url_of, release_notes_url,
}

pub data AllDigits : List ℕ → Type 0 where
  no_more : AllDigits []
  digit : {c : ℕ} {cs : List ℕ} → is_ascii_digit c ≡ true → AllDigits cs → AllDigits (c ∷ cs)

-- One to six digits.
pub record IsPart (number : List ℕ) : Type 0 where
  pub are_digits : AllDigits number
  pub not_empty : 0 < length number
  pub at_most_six : length number ≤ 6

-- A text at which a number ends.
data Ends : List ℕ → Type 0 where
  at_end : Ends []
  at_sign : {c : ℕ} {cs : List ℕ} → is_ascii_digit c ≡ false → Ends (c ∷ cs)

-- What may stand behind a version: nothing, or a dash and a suffix.
pub data IsSuffix : List ℕ → Type 0 where
  nothing : IsSuffix []
  dash : (cs : List ℕ) → IsSuffix (45 ∷ cs)

digits-append :
    {number rest : List ℕ} → AllDigits number → Ends rest → digits (number ++ rest) ≡ (number, rest)
digits-append no_more at_end = refl
digits-append no_more (at_sign h) = rw h refl
digits-append (digit {c} h more) e =
    let k = digits-append more e in rw h (ap (λ t. (c ∷ t.0, t.1)) k)

part_fits :
    {number : List ℕ} → IsPart number → (length number == 0 || ltb 6 (length number)) ≡ false
part_fits p = let a = p.not_empty in let b = p.at_most_six in ground arith

parts-last :
    {number rest : List ℕ}
    → IsPart number
    → Ends rest
    → parts 0 (number ++ rest) ≡ some (number, rest)
unfolding parts
parts-last p e = rw (digits-append p.are_digits e, part_fits p) refl

parts-more :
    (left : ℕ) (text : List ℕ) {number label rest : List ℕ}
    → IsPart number
    → parts left text ≡ some (label, rest)
    → parts (suc left) (number ++ (46 ∷ text)) ≡ some (number ++ (46 ∷ label), rest)
unfolding parts
parts-more left text {number} p h =
    rw (digits-append p.are_digits (at_sign {c = 46} {cs = text} refl), part_fits p)
      (ap (put_part number) h)

-- What may stand in front of a version.
pub data IsPrefix : List ℕ → Type 0 where
  bare : IsPrefix []
  small : IsPrefix (118 ∷ [])
  capital : IsPrefix (86 ∷ [])

digit_no_v : (c : ℕ) → is_ascii_digit c ≡ true → (c == 118 || c == 86) ≡ false
digit_no_v c h = ground arith

skip_v-part :
    {prefix number : List ℕ} (text : List ℕ)
    → IsPrefix prefix
    → AllDigits number
    → 0 < length number
    → skip_v (prefix ++ (number ++ text)) ≡ number ++ text
skip_v-part text bare no_more h = absurd (omega arith)
skip_v-part text bare (digit {c} d more) h = rw (digit_no_v c d) refl
skip_v-part text small a h = refl
skip_v-part text capital a h = refl

url_of-suffix :
    (label : List ℕ) {suffix : List ℕ}
    → IsSuffix suffix
    → url_of (some (label, suffix)) ≡ releases ++ (tag_path ++ label)
url_of-suffix label nothing = refl
url_of-suffix label (dash cs) = refl

suffix-Ends : {suffix : List ℕ} → IsSuffix suffix → Ends suffix
suffix-Ends nothing = at_end
suffix-Ends (dash cs) = at_sign refl

-- For any three numbers of one to six digits, with dots between them, behind nothing, `v` or `V`, and
-- before nothing or a dash and anything: the address is the page of the release with these numbers,
-- without the suffix.
pub release_notes_url-version :
    {prefix first second third suffix : List ℕ}
    → IsPrefix prefix
    → IsPart first
    → IsPart second
    → IsPart third
    → IsSuffix suffix
    → release_notes_url (prefix ++ (first ++ (46 ∷ (second ++ (46 ∷ (third ++ suffix))))))
      ≡ releases ++ (tag_path ++ (first ++ (46 ∷ (second ++ (46 ∷ third)))))
unfolding release_notes_url
release_notes_url-version {first} {second} {third} {suffix} x a b c s =
    let tail = 46 ∷ (second ++ (46 ∷ (third ++ suffix))) in
    let label = first ++ (46 ∷ (second ++ (46 ∷ third))) in
    let read : parts 2 (first ++ tail) ≡ some (label, suffix) =
      parts-more 1 (second ++ (46 ∷ (third ++ suffix))) a
        (parts-more 0 (third ++ suffix) b (parts-last c (suffix-Ends s))) in
    ap (λ t. url_of (parts 2 t)) (skip_v-part tail x a.are_digits a.not_empty)
    ∙ ap url_of read
    ∙ url_of-suffix label s
