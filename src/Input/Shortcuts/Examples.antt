-- ===== src/Input/Shortcuts/Examples.antt =====
-- Bindings and texts at concrete inputs.
use low_latency_capture_view.Common.{ℕ, ◌≡◌, refl, true, List, [], ◌∷◌, ◌++◌}
use low_latency_capture_view.Input.Shortcuts.{
  defaults, valid, valid_from, valid_bindings, add_mute_default, expand, letter_or_digit,
}
use low_latency_capture_view.Input.Shortcuts.Free.{add_mute_default-valid_bindings}
use low_latency_capture_view.Input.Shortcuts.Expansion.{expand-defaults}

-- M is taken by the help, F1 by the settings, and the mute action has no key yet.
abbrev custom : List ℕ
custom = 77 ∷ 0x70 ∷ 0x72 ∷ 0x74 ∷ 0x75 ∷ 0x7A ∷ 0x7B ∷ 0x09 ∷ 0x1B ∷ 0x78 ∷ []

custom_valid : valid_bindings custom ≡ true
unfolding valid_bindings valid_from valid
custom_valid = refl

add_mute_default-valid_bindings_example :
    valid_bindings (add_mute_default (custom ++ (0 ∷ []))) ≡ true
add_mute_default-valid_bindings_example = add_mute_default-valid_bindings custom 0 refl custom_valid

-- `F1=F2 (F11)`
abbrev text : List ℕ
text = 70 ∷ 49 ∷ 61 ∷ 70 ∷ 50 ∷ 32 ∷ 40 ∷ 70 ∷ 49 ∷ 49 ∷ 41 ∷ []

expand-defaults_example : expand letter_or_digit text defaults ≡ text
expand-defaults_example = expand-defaults letter_or_digit text
