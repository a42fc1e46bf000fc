-- ===== src/Update/Response/Strings.antt =====
-- A string that is written into a JSON text, and read back.
use low_latency_capture_view.Common.{
  ℕ, ◌-◌, ◌≡◌, refl, ap, ◌∙◌, true, false, List, [], ◌∷◌, ◌++◌, append_assoc, some, ◌==◌, length,
  drop, append-starts_with, arith,
}
use low_latency_capture_view.Common.Arrays.{drop-append_over}
use low_latency_capture_view.Update.Response.{
  quote, backslash, colon, after, is_space, skip_spaces, read_string, read_value, marker,
  extract_json_string, from_key, from_colon,
}

-- A character in a JSON string: as it is, or behind a backslash, which the quote and the backslash
-- need. Of the escapes of JSON these are the ones for the quote, the backslash, the slash, the line
-- feed, the carriage return and the tab.
pub data Spelled : ℕ → List ℕ → Type 0 where
  plain : {c : ℕ} → (c == quote) ≡ false → (c == backslash) ≡ false → Spelled c (c ∷ [])
  a_quote : Spelled 34 (92 ∷ 34 ∷ [])
  a_backslash : Spelled 92 (92 ∷ 92 ∷ [])
  a_slash : Spelled 47 (92 ∷ 47 ∷ [])
  a_line_feed : Spelled 10 (92 ∷ 110 ∷ [])
  a_return : Spelled 13 (92 ∷ 114 ∷ [])
  a_tab : Spelled 9 (92 ∷ 116 ∷ [])

-- A value, and a way to write it.
pub data Written : List ℕ → List ℕ → Type 0 where
  all_written : Written [] []
  written :
      {c : ℕ} {cs s text : List ℕ} → Spelled c s → Written cs text → Written (c ∷ cs) (s ++ text)

pub data AllSpaces : List ℕ → Type 0 where
  no_more : AllSpaces []
  space : {c : ℕ} {cs : List ℕ} → is_space c ≡ true → AllSpaces cs → AllSpaces (c ∷ cs)

read_string-Spelled :
    {c : ℕ} {s : List ℕ} (text value rest : List ℕ)
    → Spelled c s
    → read_string false text ≡ some (value, rest)
    → read_string false (s ++ text) ≡ some (c ∷ value, rest)
unfolding read_string
read_string-Spelled text value rest (plain q b) h = rw (b, q, h) refl
read_string-Spelled text value rest a_quote h = rw h refl
read_string-Spelled text value rest a_backslash h = rw h refl
read_string-Spelled text value rest a_slash h = rw h refl
read_string-Spelled text value rest a_line_feed h = rw h refl
read_string-Spelled text value rest a_return h = rw h refl
read_string-Spelled text value rest a_tab h = rw h refl

read_string-Written :
    {value text : List ℕ} (rest : List ℕ)
    → Written value text
    → read_string false (text ++ (quote ∷ rest)) ≡ some (value, rest)
unfolding read_string
read_string-Written rest all_written = refl
read_string-Written rest (written {c} {cs} {s} {text} a more) =
    rw (append_assoc s text (quote ∷ rest))
      (read_string-Spelled (text ++ (quote ∷ rest)) cs rest a (read_string-Written rest more))

drop_append : (xs ys : List ℕ) → drop (length xs) (xs ++ ys) ≡ ys
drop_append xs ys =
    drop-append_over (length xs) xs ys (omega arith)
    ∙ ap (λ t. drop t ys) {x = length xs - length xs} {y = 0} (omega arith)

after-here : (c : ℕ) (cs text : List ℕ) → after (c ∷ cs) ((c ∷ cs) ++ text) ≡ some text
unfolding after
after-here c cs text =
    let here = append-starts_with (c ∷ cs) text in rw here (ap some (drop_append (c ∷ cs) text))

after-later :
    (c d : ℕ) (cs text : List ℕ)
    → (c == d) ≡ false
    → after (c ∷ cs) (d ∷ text) ≡ after (c ∷ cs) text
unfolding after
after-later c d cs text h = rw h refl

skip_spaces-append :
    {spaces : List ℕ} (text : List ℕ)
    → AllSpaces spaces
    → skip_spaces (spaces ++ (quote ∷ text)) ≡ quote ∷ text
skip_spaces-append text no_more = refl
skip_spaces-append text (space h more) = rw h (skip_spaces-append text more)

-- For any key, any value whose quotes and backslashes are escaped and whose slashes, line feeds,
-- carriage returns and tabs may be, each with a backslash as JSON has it, all other characters standing
-- as they are; any spaces behind the colon; and a text that begins with another character than a
-- quote, such as a brace, and goes on with the quoted key, a colon, the spaces and the value in quotes:
-- `ExtractJsonString` returns the value, and the text behind it.
pub extract_json_string-Written :
    (opening : ℕ) (key rest : List ℕ) {value text spaces : List ℕ}
    → (quote == opening) ≡ false
    → AllSpaces spaces
    → Written value text
    → extract_json_string key
        (opening ∷ (marker key ++ (colon ∷ (spaces ++ (quote ∷ (text ++ (quote ∷ rest)))))))
      ≡ some (value, rest)
unfolding extract_json_string
extract_json_string-Written opening key rest {value} {text} {spaces} o s w =
    let behind = text ++ (quote ∷ rest) in
    let whole = colon ∷ (spaces ++ (quote ∷ behind)) in
    let found : after (marker key) (opening ∷ (marker key ++ whole)) ≡ some whole =
      after-later quote opening (key ++ (quote ∷ [])) (marker key ++ whole) o
      ∙ after-here quote (key ++ (quote ∷ [])) whole in
    let at_colon : after (colon ∷ []) whole ≡ some (spaces ++ (quote ∷ behind)) =
      after-here colon [] (spaces ++ (quote ∷ behind)) in
    ap from_key found
    ∙ ap from_colon at_colon
    ∙ ap read_value (skip_spaces-append behind s)
    ∙ read_string-Written rest w
