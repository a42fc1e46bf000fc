-- ===== src/Update/Release/Examples.antt =====
-- Release tags at concrete inputs.
use low_latency_capture_view.Common.{ℕ, ◌≡◌, ◌↔◌, Bool, true, ◌&&◌, leb, List, [], ◌∷◌}
use low_latency_capture_view.Update.Release.{parse_release_tag, is_newer_release_tag}
use low_latency_capture_view.Update.Release.Order.{Newer, is_newer_release_tag-Newer}

-- `iswdigit` on ASCII.
abbrev ascii_digit : ℕ → Bool
ascii_digit c = leb 48 c && leb c 57

-- `v1.10` and `1.9.3`
abbrev latest : List ℕ
latest = 118 ∷ 49 ∷ 46 ∷ 49 ∷ 48 ∷ []

abbrev current : List ℕ
current = 49 ∷ 46 ∷ 57 ∷ 46 ∷ 51 ∷ []

is_newer_release_tag-Newer_example :
    (is_newer_release_tag ascii_digit latest current ≡ true)
    ↔ Newer 0 (parse_release_tag ascii_digit latest) (parse_release_tag ascii_digit current)
is_newer_release_tag-Newer_example = is_newer_release_tag-Newer ascii_digit latest current
