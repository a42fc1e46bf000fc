-- ===== src/Update/Response/Examples.antt =====
-- The answer of the server at concrete inputs.
use low_latency_capture_view.Common.{ℕ, ◌≡◌, refl, List, [], ◌∷◌, ◌++◌, some, ◌&&◌, leb, Bool}
use low_latency_capture_view.Update.Response.{
  quote, colon, marker, tag_key, extract_json_string, parse_latest_release_response,
}
use low_latency_capture_view.Update.Response.Strings.{
  Written, written, all_written, plain, a_quote, a_backslash, a_slash, a_tab, AllSpaces,
  extract_json_string-Written,
}
use low_latency_capture_view.Update.Response.Assets.{Parsed, parse_latest_release_response-Parsed}

-- A tag with a quote, a backslash, a slash and a tab in it, and the same in a text.
abbrev odd : List ℕ
odd = 118 ∷ 34 ∷ 92 ∷ 47 ∷ 9 ∷ []

abbrev odd_text : List ℕ
odd_text = 118 ∷ 92 ∷ 34 ∷ 92 ∷ 92 ∷ 92 ∷ 47 ∷ 92 ∷ 116 ∷ []

odd-Written : Written odd odd_text
odd-Written =
    written (plain refl refl)
      (written a_quote (written a_backslash (written a_slash (written a_tab all_written))))

abbrev brace : ℕ
brace = 123

one_space : AllSpaces (32 ∷ [])
one_space = AllSpaces.space refl AllSpaces.no_more

extract_json_string-Written_example :
    extract_json_string tag_key (
      brace
      ∷ (marker tag_key ++ (colon ∷ ((32 ∷ []) ++ (quote ∷ (odd_text ++ (quote ∷ (125 ∷ []))))))))
    ≡ some (odd, 125 ∷ [])
extract_json_string-Written_example =
    extract_json_string-Written brace tag_key (125 ∷ []) refl one_space odd-Written

abbrev keep_text : List ℕ → List ℕ
keep_text text = text

abbrev ascii_digit : ℕ → Bool
ascii_digit c = leb 48 c && leb c 57

-- `1.2`
abbrev new_tag : List ℕ
new_tag = 49 ∷ 46 ∷ 50 ∷ []

-- `{"tag_name":"1.2"}`
abbrev answer : List ℕ
answer = brace ∷ (marker tag_key ++ (colon ∷ (quote ∷ (new_tag ++ (quote ∷ (125 ∷ []))))))

parse_latest_release_response-Parsed_example :
    Parsed keep_text ascii_digit
      (49 ∷ 46 ∷ 49 ∷ [])
      (parse_latest_release_response keep_text ascii_digit answer (49 ∷ 46 ∷ 49 ∷ []))
parse_latest_release_response-Parsed_example =
    parse_latest_release_response-Parsed keep_text ascii_digit answer (49 ∷ 46 ∷ 49 ∷ [])
