-- ===== src/Update/Response/Rounds.antt =====
-- How far a search moves on in the text, and the rounds of the search for an installer.
use low_latency_capture_view.Common.{
  ℕ, zero, suc, ◌≤◌, ◌<◌, ◌≡◌, refl, Bool, true, false, List, [], ◌∷◌, Option, none, some, ◌==◌,
  length, length-drop, starts_with, Bool-cases, inl, inr, arith,
}
use mathlib.Core.Option
use low_latency_capture_view.Update.Response.{
  quote, backslash, colon, after, skip_spaces, unescaped, push_front, read_string, read_value,
  marker, extract_json_string, from_key, from_colon, url_key, installer_of, find_installer,
}

-- A text that is not longer than `n`, and a value with a rest that is shorter than `n`.
data Within (n : ℕ) : Option (List ℕ) → Type 0 where
  missing : Within n none
  at_most : {text : List ℕ} → length text ≤ n → Within n (some text)

data Shorter (n : ℕ) : Option (List ℕ × List ℕ) → Type 0 where
  nothing : Shorter n none
  shorter : {value rest : List ℕ} → length rest < n → Shorter n (some (value, rest))

Within-mono : (m n : ℕ) {o : Option (List ℕ)} → m ≤ n → Within m o → Within n o
Within-mono m n h missing = missing
Within-mono m n h (at_most k) = at_most (omega arith)

Shorter-mono : (m n : ℕ) {o : Option (List ℕ × List ℕ)} → m ≤ n → Shorter m o → Shorter n o
Shorter-mono m n h nothing = nothing
Shorter-mono m n h (shorter k) = shorter (omega arith)

Shorter-tail :
    (cs : List ℕ) {o : Option (List ℕ × List ℕ)}
    → Shorter (length cs) o
    → Shorter (suc (length cs)) o
Shorter-tail cs = Shorter-mono (length cs) (suc (length cs)) (omega arith)

Shorter-push_front :
    (n c : ℕ) {o : Option (List ℕ × List ℕ)} → Shorter n o → Shorter n (Option.map (push_front c) o)
Shorter-push_front n c nothing = nothing
Shorter-push_front n c (shorter h) = shorter h

after-Within : (needle text : List ℕ) → Within (length text) (after needle text)
unfolding after
after-Within needle [] = missing
after-Within needle (c ∷ cs) = elim (Bool-cases (starts_with needle (c ∷ cs))) [
  | inl e ↦ rw e (at_most (omega (arith, length-drop (length needle) (c ∷ cs))))
  | inr e ↦ rw e (Within-mono (length cs) (suc (length cs)) (omega arith) (after-Within needle cs))
]

length-skip_spaces : (text : List ℕ) → length (skip_spaces text) ≤ length text
length-skip_spaces [] = omega arith
length-skip_spaces (c ∷ cs) = let k = length-skip_spaces cs in ground arith

read_string-Shorter :
    (escaped : Bool) (text : List ℕ) → Shorter (length text) (read_string escaped text)
unfolding read_string
read_string-Shorter escaped [] = nothing
read_string-Shorter true (c ∷ cs) =
    Shorter-push_front (suc (length cs)) (unescaped c)
      (Shorter-tail cs (read_string-Shorter false cs))
read_string-Shorter false (c ∷ cs) = elim (Bool-cases (c == backslash)) [
  | inl e ↦ rw e (Shorter-tail cs (read_string-Shorter true cs))
  | inr e ↦ elim (Bool-cases (c == quote)) [
    | inl f ↦ rw (e, f) (shorter (omega arith))
    | inr f ↦
        rw (e, f)
          (Shorter-push_front (suc (length cs)) c (Shorter-tail cs (read_string-Shorter false cs)))
  ]
]

read_value-Shorter : (text : List ℕ) → Shorter (length text) (read_value text)
read_value-Shorter [] = nothing
read_value-Shorter (c ∷ cs) = elim (Bool-cases (c == quote)) [
  | inl e ↦ rw e (Shorter-tail cs (read_string-Shorter false cs))
  | inr e ↦ rw e nothing
]

from_colon-Shorter : (n : ℕ) {o : Option (List ℕ)} → Within n o → Shorter n (from_colon o)
from_colon-Shorter n missing = nothing
from_colon-Shorter n (at_most {text} h) =
    let k = length-skip_spaces text in
    Shorter-mono (length (skip_spaces text)) n (omega arith) (read_value-Shorter (skip_spaces text))

from_key-Shorter : (n : ℕ) {o : Option (List ℕ)} → Within n o → Shorter n (from_key o)
from_key-Shorter n missing = nothing
from_key-Shorter n (at_most {text} h) =
    from_colon-Shorter n (Within-mono (length text) n h (after-Within (colon ∷ []) text))

-- `nextPosition` is behind `searchFrom`.
extract_json_string-Shorter :
    (key json : List ℕ) → Shorter (length json) (extract_json_string key json)
unfolding extract_json_string
extract_json_string-Shorter key json =
    from_key-Shorter (length json) (after-Within (marker key) json)

module _ (utf8_to_wide : List ℕ → List ℕ) where
  installer_of-same :
      (n : ℕ) (f g : List ℕ → List ℕ) {o : Option (List ℕ × List ℕ)}
      → Shorter n o
      → ((rest : List ℕ) → length rest < n → f rest ≡ g rest)
      → installer_of utf8_to_wide f o ≡ installer_of utf8_to_wide g o
  installer_of-same n f g nothing h = refl
  installer_of-same n f g (shorter {value} {rest} k) h = rw (h rest k) refl

  -- With at least as many rounds as the text has characters, what is found does not depend on their
  -- number: the loop of the source has ended by then.
  find_installer-enough :
      (k m : ℕ) (json : List ℕ)
      → length json ≤ k
      → length json ≤ m
      → find_installer utf8_to_wide k json ≡ find_installer utf8_to_wide m json
  unfolding find_installer extract_json_string after
  find_installer-enough zero zero json h l = refl
  find_installer-enough zero (suc m) [] h l = refl
  find_installer-enough zero (suc m) (c ∷ cs) h l = absurd (omega arith)
  find_installer-enough (suc k) zero [] h l = refl
  find_installer-enough (suc k) zero (c ∷ cs) h l = absurd (omega arith)
  find_installer-enough (suc k) (suc m) json h l =
      installer_of-same (length json) (find_installer utf8_to_wide k)
        (find_installer utf8_to_wide m) (extract_json_string-Shorter url_key json)
        (λ rest s. find_installer-enough k m rest (omega arith) (omega arith))
