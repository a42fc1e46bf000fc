-- ===== src/Input/Shortcuts.antt =====
-- src/input/Shortcuts.h, built with recording: the bindings of the actions, their defaults, and the
-- texts that name them. An action is its place in the table; a string is its characters. `iswalnum`
-- of the C library is an argument.

pub mod Free
pub mod Expansion
mod Examples
use low_latency_capture_view.Common.{
  ℕ, zero, suc, ◌+◌, ◌-◌, ◌/◌, ◌%◌, Bool, true, false, not, ◌&&◌, ◌||◌, List, [], ◌∷◌, ◌++◌, Option,
  none, some, ◌==◌, leb, ltb, if◌then◌else◌, set, get_or, starts_with, drop, length,
}

abbrev pub recording_action : ℕ
recording_action = 9

abbrev pub mute_action : ℕ
mute_action = 10

abbrev pub action_count : ℕ
action_count = 11

abbrev pub vk_f1 : ℕ
vk_f1 = 0x70

abbrev pub vk_f4 : ℕ
vk_f4 = 0x73

abbrev pub vk_f9 : ℕ
vk_f9 = 0x78

abbrev pub key_m : ℕ
key_m = 77

-- F1, F2, F3, F5, F6, F11, F12, Tab, Escape, F9 and M.
abbrev pub defaults : List ℕ
defaults = 0x70 ∷ 0x71 ∷ 0x72 ∷ 0x74 ∷ 0x75 ∷ 0x7A ∷ 0x7B ∷ 0x09 ∷ 0x1B ∷ 0x78 ∷ 77 ∷ []

abbrev pub default_labels : List (List ℕ)
default_labels =
    (70 ∷ 49 ∷ [])
    ∷ (70 ∷ 50 ∷ [])
    ∷ (70 ∷ 51 ∷ [])
    ∷ (70 ∷ 53 ∷ [])
    ∷ (70 ∷ 54 ∷ [])
    ∷ (70 ∷ 49 ∷ 49 ∷ [])
    ∷ (70 ∷ 49 ∷ 50 ∷ [])
    ∷ (84 ∷ 97 ∷ 98 ∷ [])
    ∷ (69 ∷ 115 ∷ 99 ∷ [])
    ∷ (70 ∷ 57 ∷ [])
    ∷ (77 ∷ [])
    ∷ []

-- No other action than the one at `index` has the key; the bindings start at place `i`.
unfoldable pub available : ℕ → ℕ → ℕ → List ℕ → Bool
available index key i [] = true
available index key i (b ∷ bs) =
    let rest = available index key (i + 1) bs in (i == index || not (b == key)) && rest

-- The loop over the function keys from `key` on; `skipped` is a key that is not given away.
unfoldable pub first_free : (ℕ → Bool) → ℕ → ℕ → ℕ → List ℕ → Option ℕ
unfolding available
first_free skipped index zero key bindings = none
first_free skipped index (suc rounds) key bindings =
    let rest = first_free skipped index rounds (key + 1) bindings in
    if not (skipped key) && available index key 0 bindings then some key else rest

abbrev pub bind : ℕ → Option ℕ → List ℕ → List ℕ
bind index none bindings = bindings
bind index (some key) bindings = set bindings index key

unfoldable pub add_recording_default : List ℕ → List ℕ
unfolding first_free
add_recording_default bindings =
    bind recording_action (first_free (λ k. false) recording_action 16 vk_f9 bindings) bindings

unfoldable pub add_mute_default : List ℕ → List ℕ
unfolding first_free
add_mute_default bindings =
    if available mute_action key_m 0 bindings
    then set bindings mute_action key_m
    else bind mute_action (first_free (λ k. k == vk_f4) mute_action 24 vk_f1 bindings) bindings

abbrev pub between : ℕ → ℕ → ℕ → Bool
between low high key = leb low key && leb key high

abbrev pub has_ctrl : ℕ → Bool
has_ctrl b = b / 0x100 % 2 == 1

abbrev pub has_alt : ℕ → Bool
has_alt b = b / 0x200 % 2 == 1

abbrev pub has_shift : ℕ → Bool
has_shift b = b / 0x400 % 2 == 1

abbrev pub key_allowed : ℕ → Bool
key_allowed key =
    between 65 90 key
    || between 48 57 key
    || between 0x70 0x87 key
    || key == 0x09
    || key == 0x20
    || key == 0x1B
    || key == 0x0D
    || key == 0x08
    || between 0x21 0x28 key
    || key == 0x2D
    || key == 0x2E
    || between 0x60 0x6F key

-- Keys that Windows takes with Alt.
abbrev pub taken_with_alt : ℕ → Bool
taken_with_alt key = key == vk_f4 || key == 0x20 || key == 0x09 || key == 0x0D || key == 0x1B

unfoldable pub valid : ℕ → Bool
valid binding =
    let key = binding % 0x100 in
    not (leb 0x800 binding)
    && key_allowed key
    && not (has_alt binding && taken_with_alt key)
    && not (has_ctrl binding && key == 0x1B)
    && not (has_ctrl binding && has_alt binding && key == 0x2E)

abbrev pub differs : ℕ → List ℕ → Bool
differs b [] = true
differs b (c ∷ cs) = not (b == c) && differs b cs

-- The loops of `Valid`, on the bindings from some place on and those before it.
unfoldable pub valid_from : List ℕ → List ℕ → Bool
unfolding valid
valid_from before [] = true
valid_from before (b ∷ bs) = valid b && differs b before && valid_from (b ∷ before) bs

unfoldable pub valid_bindings : List ℕ → Bool
unfolding valid_from
valid_bindings bindings = valid_from [] bindings

unfoldable pub allowed_in_settings : ℕ → Bool
allowed_in_settings key = between 0x70 0x87 key && not (key == vk_f4)

-- `key | modifiers`, of which the key has the low eight bits.
unfoldable pub match : List ℕ → ℕ → ℕ → ℕ → Bool
match bindings action key modifiers = ltb key 256 && get_or bindings action 0 == key + modifiers

-- A number below 100, in decimal.
abbrev pub decimal : ℕ → List ℕ
decimal n = if ltb n 10 then (48 + n) ∷ [] else (48 + n / 10) ∷ (48 + n % 10) ∷ []

-- The `switch` of `Label`.
abbrev pub special_name : ℕ → List ℕ
special_name key =
    if key == 0x09
    then 84 ∷ 97 ∷ 98 ∷ []
    else if key == 0x20
    then 83 ∷ 112 ∷ 97 ∷ 99 ∷ 101 ∷ []
    else if key == 0x1B
    then 69 ∷ 115 ∷ 99 ∷ []
    else if key == 0x0D
    then 69 ∷ 110 ∷ 116 ∷ 101 ∷ 114 ∷ []
    else if key == 0x08
    then 66 ∷ 107 ∷ 115 ∷ 112 ∷ []
    else if key == 0x21
    then 80 ∷ 103 ∷ 85 ∷ 112 ∷ []
    else if key == 0x22
    then 80 ∷ 103 ∷ 68 ∷ 110 ∷ []
    else if key == 0x24
    then 72 ∷ 111 ∷ 109 ∷ 101 ∷ []
    else if key == 0x23
    then 69 ∷ 110 ∷ 100 ∷ []
    else if key == 0x25
    then 76 ∷ 101 ∷ 102 ∷ 116 ∷ []
    else if key == 0x27
    then 82 ∷ 105 ∷ 103 ∷ 104 ∷ 116 ∷ []
    else if key == 0x26
    then 85 ∷ 112 ∷ []
    else if key == 0x28
    then 68 ∷ 111 ∷ 119 ∷ 110 ∷ []
    else if key == 0x2D
    then 73 ∷ 110 ∷ 115 ∷ []
    else if key == 0x2E
    then 68 ∷ 101 ∷ 108 ∷ []
    else []

-- The signs of the number pad, from VK_MULTIPLY on.
abbrev pub pad_signs : List ℕ
pad_signs = 42 ∷ 43 ∷ 44 ∷ 45 ∷ 46 ∷ 47 ∷ []

abbrev pub num : List ℕ
num = 78 ∷ 117 ∷ 109 ∷ []

abbrev pub pad_name : ℕ → List ℕ
pad_name key =
    if between 0x60 0x69 key
    then num ++ decimal (key - 0x60)
    else if between 0x6A 0x6F key
    then num ++ (get_or pad_signs (key - 0x6A) 0 ∷ [])
    else 63 ∷ []

abbrev pub key_name : ℕ → List ℕ
key_name key =
    if between 0x70 0x87 key
    then 70 ∷ decimal (key - 0x70 + 1)
    else if between 65 90 key || between 48 57 key
    then key ∷ []
    else if length (special_name key) == 0
    then pad_name key
    else special_name key

abbrev pub prefix : Bool → List ℕ → List ℕ
prefix true name = name ++ (43 ∷ [])
prefix false name = []

unfoldable pub label : ℕ → List ℕ
label binding =
    prefix (has_ctrl binding) (67 ∷ 116 ∷ 114 ∷ 108 ∷ [])
    ++ (prefix (has_alt binding) (65 ∷ 108 ∷ 116 ∷ [])
        ++ (prefix (has_shift binding) (83 ∷ 104 ∷ 105 ∷ 102 ∷ 116 ∷ [])
            ++ key_name (binding % 0x100)))

abbrev pub letter_or_digit : ℕ → Bool
letter_or_digit c = between 48 57 c || between 65 90 c || between 97 122 c

module _ (is_alnum : ℕ → Bool) where
  -- A word boundary before the token; none is the start of the text.
  abbrev pub fresh : Option ℕ → Bool
  fresh none = true
  fresh (some c) = not (is_alnum c)

  -- The token that starts here, from action `i` on: its length and its action.
  unfoldable pub token_at : Option ℕ → List ℕ → List (List ℕ) → ℕ → Option (ℕ × ℕ)
  token_at before source [] i = none
  token_at before source (l ∷ ls) i =
      let rest = token_at before source ls (i + 1) in
      let n = length l in
      if fresh before && starts_with l source && not (letter_or_digit (get_or source n 0))
      then some (n, i)
      else rest

  -- The loop of `Expand`, on fuel: each round takes one character at least.
  unfoldable pub expand_from : List ℕ → ℕ → Option ℕ → List ℕ → List ℕ
  unfolding label token_at
  expand_from bindings zero before source = []
  expand_from bindings (suc fuel) before [] = []
  expand_from bindings (suc fuel) before (c ∷ cs) =
      elim (token_at before (c ∷ cs) default_labels 0) [
        | none ↦ c ∷ expand_from bindings fuel (some c) cs
        | some (n, i) ↦
            label (get_or bindings i 0)
            ++ expand_from bindings fuel (some (get_or (c ∷ cs) (n - 1) 0)) (drop n (c ∷ cs))
      ]

  unfoldable pub expand : List ℕ → List ℕ → List ℕ
  unfolding expand_from
  expand source bindings = expand_from bindings (length source) none source
