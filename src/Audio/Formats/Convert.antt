-- ===== src/Audio/Formats/Convert.antt =====
-- src/audio/CaptureAudioFormat.cpp, the conversion of samples. Bytes are numbers below 256, and a
-- pointer into a buffer is the list that starts there. What the machine does with floats is an
-- argument: the four bytes read as a float, the tests made on it, its scaling by 32768, and the
-- fold of two surround channels, `lround((a + b) * 0.7071…)`.
use low_latency_capture_view.Common.{
  ℕ, ◌+◌, ◌-◌, ◌*◌, ◌/◌, ◌^◌, Bool, not, ◌&&◌, ◌||◌, List, [], ◌∷◌, Option, none, some, ◌==◌, ltb,
  if◌then◌else◌, get_or, drop, replicate,
}
use low_latency_capture_view.Common.Int.{ℤ, pos, negsuc, ltb_ℤ}
use low_latency_capture_view.Audio.Formats.{Format, is_integer, is_surround}

pub record Floats : Type 1 where
  pub Float : Type 0
  pub read_float : List ℕ → Float
  pub is_finite : Float → Bool
  pub at_least_one : Float → Bool
  pub at_most_minus_one : Float → Bool
  pub scaled : Float → ℤ
  pub fold : ℤ → ℤ → ℤ

abbrev pub int16_max : ℤ
int16_max = pos 32767

abbrev pub int16_min : ℤ
int16_min = negsuc 32767

abbrev pub clamp : ℤ → ℤ → ℤ → ℤ
clamp v low high = if ltb_ℤ v low then low else (if ltb_ℤ high v then high else v)

-- The two's complement reading of `w` bits.
abbrev pub signed : ℕ → ℕ → ℤ
signed w raw = if ltb raw (2 ^ (w - 1)) then pos raw else negsuc (2 ^ w - 1 - raw)

-- `>>` on a signed number: it rounds towards minus infinity.
abbrev pub shift_right : ℤ → ℕ → ℤ
shift_right (pos n) k = pos (n / 2 ^ k)
shift_right (negsuc n) k = negsuc (n / 2 ^ k)

-- Bytes, the lowest first. The disjoint `|` of the source is a sum.
abbrev pub little_endian : List ℕ → ℕ → ℕ
little_endian source bytes =
    if bytes == 2
    then get_or source 0 0 + 2 ^ 8 * get_or source 1 0
    else if bytes == 3
    then get_or source 0 0 + 2 ^ 8 * get_or source 1 0 + 2 ^ 16 * get_or source 2 0
    else get_or source 0 0
      + 2 ^ 8 * get_or source 1 0
      + 2 ^ 16 * get_or source 2 0
      + 2 ^ 24 * get_or source 3 0

unfoldable pub read_integer : List ℕ → ℕ → ℤ
read_integer source container_bits =
    if container_bits == 16
    then signed 16 (little_endian source 2)
    else if container_bits == 24
    then signed 24 (little_endian source 3)
    else signed 32 (little_endian source 4)

module _ (floats : Floats) where
  unfoldable pub float_sample : List ℕ → ℤ
  float_sample source =
      let value = floats.read_float source in
      if not (floats.is_finite value)
      then pos 0
      else if floats.at_least_one value
      then int16_max
      else if floats.at_most_minus_one value
      then int16_min
      else floats.scaled value

  unfoldable pub integer_sample : List ℕ → Format → ℤ
  unfolding read_integer
  integer_sample source f =
      let value = read_integer source f.container_bits in
      clamp (if ltb 16 f.container_bits then shift_right value (f.container_bits - 16) else value)
        int16_min int16_max

  -- `none` is the null pointer.
  unfoldable pub convert_sample : Option (List ℕ) → Format → ℤ
  unfolding float_sample integer_sample
  convert_sample none f = pos 0
  convert_sample (some source) f =
      if is_integer f.encoding then integer_sample source f else float_sample source

  unfoldable pub convert_frame : List ℕ → Format → ℤ × ℤ
  unfolding convert_sample
  convert_frame source f =
      let left = convert_sample (some source) f in
      let right = convert_sample (some (drop (f.container_bits / 8) source)) f in
      (left, if f.channels == 1 then left else right)

  -- Channel `c` of a frame.
  abbrev pub channel_sample : List ℕ → Format → ℕ → ℤ
  channel_sample source f c = convert_sample (some (drop (c * (f.container_bits / 8)) source)) f

  abbrev pub folded : List ℕ → Format → ℕ → ℤ
  folded source f c =
      clamp (floats.fold (channel_sample source f c) (channel_sample source f (c + 2))) int16_min
        int16_max

  abbrev pub surround_sample : List ℕ → Format → ℕ → ℤ
  surround_sample source f c =
      if f.channels == 8 then folded source f c else channel_sample source f c

  -- The six samples written to `output`.
  unfoldable pub convert_surround_frame : Option (List ℕ) → Format → List ℤ
  convert_surround_frame none f = replicate 6 (pos 0)
  convert_surround_frame (some source) f =
      if not (is_surround f.path) || (not (f.channels == 6) && not (f.channels == 8))
      then replicate 6 (pos 0)
      else channel_sample source f 0
        ∷ channel_sample source f 1
        ∷ channel_sample source f 2
        ∷ channel_sample source f 3
        ∷ surround_sample source f 4
        ∷ surround_sample source f 5
        ∷ []
