-- ===== src/Update/Response.antt =====
-- src/update/UpdateChecker.cpp: the reading of the server's answer. A position in the text is the text
-- that follows it; strings are their characters. `Utf8ToWide`, which is empty where the system cannot
-- convert, and `iswdigit` are arguments.
pub mod Strings
pub mod Assets
mod Rounds
mod Examples
use low_latency_capture_view.Common.{
  ℕ, zero, suc, ◌+◌, ◌-◌, Bool, true, false, not, ◌&&◌, ◌||◌, List, [], ◌∷◌, ◌++◌, Option, none,
  some, ◌==◌, leb, if◌then◌else◌, length, drop, starts_with,
}
use mathlib.Core.Option
use low_latency_capture_view.Update.Release.{is_newer_release_tag}

abbrev pub quote : ℕ
quote = 34

abbrev pub backslash : ℕ
backslash = 92

abbrev pub colon : ℕ
colon = 58

-- `json.find` of a string that is not empty, and the text behind it.
unfoldable pub after : List ℕ → List ℕ → Option (List ℕ)
after needle [] = none
after needle (c ∷ cs) =
    let rest = after needle cs in
    if starts_with needle (c ∷ cs) then some (drop (length needle) (c ∷ cs)) else rest

abbrev pub is_space : ℕ → Bool
is_space c = c == 32 || c == 9 || c == 13 || c == 10

abbrev pub skip_spaces : List ℕ → List ℕ
skip_spaces [] = []
skip_spaces (c ∷ cs) = let rest = skip_spaces cs in if is_space c then rest else c ∷ cs

-- The `switch` on the character behind a backslash.
abbrev pub unescaped : ℕ → ℕ
unescaped c = if c == 110 then 10 else if c == 114 then 13 else if c == 116 then 9 else c

abbrev pub push_front : ℕ → List ℕ × List ℕ → List ℕ × List ℕ
push_front c (value, rest) = (c ∷ value, rest)

-- The loop over the characters of a string: its value, and the text behind its end.
unfoldable pub read_string : Bool → List ℕ → Option (List ℕ × List ℕ)
read_string escaped [] = none
read_string true (c ∷ cs) = Option.map (push_front (unescaped c)) (read_string false cs)
read_string false (c ∷ cs) =
    let within = Option.map (push_front c) (read_string false cs) in
    let behind = read_string true cs in
    if c == backslash then behind else if c == quote then some ([], cs) else within

abbrev pub read_value : List ℕ → Option (List ℕ × List ℕ)
read_value [] = none
read_value (c ∷ cs) = if c == quote then read_string false cs else none

abbrev pub marker : List ℕ → List ℕ
marker key = quote ∷ (key ++ (quote ∷ []))

-- From the colon on, and from the key on.
abbrev pub from_colon : Option (List ℕ) → Option (List ℕ × List ℕ)
from_colon none = none
from_colon (some text) = read_value (skip_spaces text)

abbrev pub from_key : Option (List ℕ) → Option (List ℕ × List ℕ)
from_key none = none
from_key (some text) = from_colon (after (colon ∷ []) text)

unfoldable pub extract_json_string : List ℕ → List ℕ → Option (List ℕ × List ℕ)
extract_json_string key json = from_key (after (marker key) json)

pub record CheckResult : Type 0 where
  pub success : Bool
  pub newer : Bool
  pub latest_tag : List ℕ
  pub installer_url : List ℕ

abbrev pub no_result : CheckResult
no_result = record { success = false; newer = false; latest_tag = []; installer_url = [] }

-- `tag_name`
abbrev pub tag_key : List ℕ
tag_key = 116 ∷ 97 ∷ 103 ∷ 95 ∷ 110 ∷ 97 ∷ 109 ∷ 101 ∷ []

-- `browser_download_url`
abbrev pub url_key : List ℕ
url_key =
    98 ∷ 114 ∷ 111 ∷ 119 ∷ 115 ∷ 101 ∷ 114 ∷ 95 ∷ 100 ∷ 111 ∷ 119 ∷ 110 ∷ 108 ∷ 111 ∷ 97 ∷ 100 ∷ 95
    ∷ 117 ∷ 114 ∷ 108 ∷ []

-- `https://github.com/seria-aa/LowLatencyCaptureViewer/releases`
abbrev pub releases : List ℕ
releases =
    104 ∷ 116 ∷ 116 ∷ 112 ∷ 115 ∷ 58 ∷ 47 ∷ 47 ∷ 103 ∷ 105 ∷ 116 ∷ 104 ∷ 117 ∷ 98 ∷ 46 ∷ 99 ∷ 111
    ∷ 109 ∷ 47 ∷ 115 ∷ 101 ∷ 114 ∷ 105 ∷ 97 ∷ 45 ∷ 97 ∷ 97 ∷ 47 ∷ 76 ∷ 111 ∷ 119 ∷ 76 ∷ 97 ∷ 116
    ∷ 101 ∷ 110 ∷ 99 ∷ 121 ∷ 67 ∷ 97 ∷ 112 ∷ 116 ∷ 117 ∷ 114 ∷ 101 ∷ 86 ∷ 105 ∷ 101 ∷ 119 ∷ 101
    ∷ 114 ∷ 47 ∷ 114 ∷ 101 ∷ 108 ∷ 101 ∷ 97 ∷ 115 ∷ 101 ∷ 115 ∷ []

-- `kOfficialAssetPrefix`: the releases, and `/download/`.
abbrev pub official_prefix : List ℕ
official_prefix = releases ++ (47 ∷ 100 ∷ 111 ∷ 119 ∷ 110 ∷ 108 ∷ 111 ∷ 97 ∷ 100 ∷ 47 ∷ [])

-- `_Setup.exe`
abbrev pub setup_suffix : List ℕ
setup_suffix = 95 ∷ 83 ∷ 101 ∷ 116 ∷ 117 ∷ 112 ∷ 46 ∷ 101 ∷ 120 ∷ 101 ∷ []

abbrev pub ends_with : List ℕ → List ℕ → Bool
ends_with suffix text =
    leb (length suffix) (length text)
    && starts_with suffix (drop (length text - length suffix) text)

abbrev pub is_official : List ℕ → Bool
is_official url = starts_with official_prefix url && ends_with setup_suffix url

module _ (utf8_to_wide : List ℕ → List ℕ) where
  -- The body of the `while`; the first argument is what the rounds that follow find.
  abbrev pub installer_of : (List ℕ → List ℕ) → Option (List ℕ × List ℕ) → List ℕ
  installer_of later none = []
  installer_of later (some (value, rest)) =
      if is_official (utf8_to_wide value) then utf8_to_wide value else later rest

  -- The `while`, on fuel: a round moves on by one character at least.
  unfoldable pub find_installer : ℕ → List ℕ → List ℕ
  find_installer zero json = []
  find_installer (suc fuel) json =
      installer_of (find_installer fuel) (extract_json_string url_key json)

  unfoldable pub check_tag : (ℕ → Bool) → List ℕ → List ℕ → List ℕ → Bool × CheckResult
  check_tag is_digit json current tag =
      let newer = is_newer_release_tag is_digit tag current in
      if length tag == 0 then (false, no_result) else (
        true,
        record {
          success = true;
          newer = newer;
          latest_tag = tag;
          installer_url = if newer then find_installer (length json) json else [];
        },
      )

  abbrev pub check_value :
      (ℕ → Bool) → List ℕ → List ℕ → Option (List ℕ × List ℕ) → Bool × CheckResult
  check_value is_digit json current none = (false, no_result)
  check_value is_digit json current (some (tag, rest)) =
      check_tag is_digit json current (utf8_to_wide tag)

  unfoldable pub parse_latest_release_response : (ℕ → Bool) → List ℕ → List ℕ → Bool × CheckResult
  parse_latest_release_response is_digit json current =
      if length current == 0
      then (false, no_result)
      else check_value is_digit json current (extract_json_string tag_key json)
