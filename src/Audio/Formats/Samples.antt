-- ===== src/Audio/Formats/Samples.antt =====
-- The converted samples: their range, and the integer ones as the top two bytes of their container.
use low_latency_capture_view.Common.{
  ℕ, ◌+◌, ◌-◌, ◌*◌, ◌/◌, ◌<◌, ◌≡◌, refl, ap, ◌∙◌, true, false, not, ◌&&◌, ◌||◌, inl, inr, List, [],
  ◌∷◌, Option, none, some, ◌==◌, ltb, if◌then◌else◌, get_or, replicate, Bool-cases, arith,
}
use low_latency_capture_view.Common.Int.{ℤ, pos, negsuc, ◌≤ℤ◌}
use low_latency_capture_view.Audio.Formats.{Format, Encoding, is_integer, is_surround}
use low_latency_capture_view.Audio.Formats.Accepted.{IntegerBits}
use low_latency_capture_view.Audio.Formats.Convert.{
  Floats, int16_max, int16_min, clamp, signed, shift_right, read_integer, float_sample,
  integer_sample, convert_sample, convert_surround_frame, channel_sample, surround_sample,
}

record IsInt16 (v : ℤ) : Type 0 where
  above : int16_min ≤ℤ v
  below : v ≤ℤ int16_max

-- Every byte of a buffer is below 256.
abbrev pub IsBytes : List ℕ → Type 0
IsBytes source = (i : ℕ) → get_or source i 0 < 256

clamp-IsInt16 : (v : ℤ) → IsInt16 (clamp v int16_min int16_max)
clamp-IsInt16 (pos n) = record { above = ground arith; below = ground arith }
clamp-IsInt16 (negsuc n) = record { above = ground arith; below = ground arith }

signed-clamped : (n : ℕ) → n < 65536 → clamp (signed 16 n) int16_min int16_max ≡ signed 16 n
signed-clamped n h = elim (Bool-cases (ltb n 32768)) [
  | inl e ↦ rw e (ground arith)
  | inr e ↦ rw e (ground arith)
]

shift_24 : (n : ℕ) → n < 16777216 → shift_right (signed 24 n) 8 ≡ signed 16 (n / 256)
shift_24 n h = elim (Bool-cases (ltb n 8388608)) [
  | inl e ↦ let k : ltb (n / 256) 32768 ≡ true = ground arith in rw (e, k) refl
  | inr e ↦
      let k : ltb (n / 256) 32768 ≡ false = ground arith in
      let q : (16777215 - n) / 256 ≡ 65535 - n / 256 = ground arith in rw (e, k) (ap negsuc q)
]

shift_32 : (n : ℕ) → n < 4294967296 → shift_right (signed 32 n) 16 ≡ signed 16 (n / 65536)
shift_32 n h = elim (Bool-cases (ltb n 2147483648)) [
  | inl e ↦ let k : ltb (n / 65536) 32768 ≡ true = ground arith in rw (e, k) refl
  | inr e ↦
      let k : ltb (n / 65536) 32768 ≡ false = ground arith in
      let q : (4294967295 - n) / 65536 ≡ 65535 - n / 65536 = ground arith in rw (e, k) (ap negsuc q)
]

-- The two bytes of the highest value in a container of that many bytes.
abbrev pub top_bytes : List ℕ → ℕ → ℕ
top_bytes source bytes = get_or source (bytes - 2) 0 + 256 * get_or source (bytes - 1) 0

module _ (floats : Floats) where
  -- For any bytes and an integer format of 16, 24 or 32 bits: the converted sample is the 16-bit two's
  -- complement reading of the top two bytes of its container.
  pub convert_sample-top :
      (source : List ℕ) (f : Format)
      → IsBytes source
      → f.encoding ≡ Encoding.integer_pcm
      → IntegerBits f.container_bits
      → convert_sample floats (some source) f ≡ signed 16 (top_bytes source (f.container_bits / 8))
  unfolding convert_sample integer_sample read_integer
  convert_sample-top source f b e (inl w) =
      let b0 = b 0 in
      let b1 = b 1 in
      rw (e, w) (signed-clamped (get_or source 0 0 + 256 * get_or source 1 0) (omega arith))
  convert_sample-top source f b e (inr (inl w)) =
      let b0 = b 0 in
      let b1 = b 1 in
      let b2 = b 2 in
      let raw = get_or source 0 0 + 256 * get_or source 1 0 + 65536 * get_or source 2 0 in
      let q : raw / 256 ≡ get_or source 1 0 + 256 * get_or source 2 0 = omega arith in
      rw (e, w)
        (ap (λ v. clamp v int16_min int16_max) (shift_24 raw (omega arith) ∙ ap (signed 16) q)
          ∙ signed-clamped _ (omega arith))
  convert_sample-top source f b e (inr (inr w)) =
      let b0 = b 0 in
      let b1 = b 1 in
      let b2 = b 2 in
      let b3 = b 3 in
      let raw =
        get_or source 0 0
        + 256 * get_or source 1 0
        + 65536 * get_or source 2 0
        + 16777216 * get_or source 3 0 in
      let q : raw / 65536 ≡ get_or source 2 0 + 256 * get_or source 3 0 = omega arith in
      rw (e, w)
        (ap (λ v. clamp v int16_min int16_max) (shift_32 raw (omega arith) ∙ ap (signed 16) q)
          ∙ signed-clamped _ (omega arith))

-- A float below one in size is scaled into the range of 16 bits.
abbrev ScalesInside : Floats → Type 0
ScalesInside floats =
    (x : floats.Float)
    → floats.at_least_one x ≡ false
    → floats.at_most_minus_one x ≡ false
    → IsInt16 (floats.scaled x)

data AllInt16 : List ℤ → Type 0 where
  none_left : AllInt16 []
  next : {v : ℤ} {vs : List ℤ} → IsInt16 v → AllInt16 vs → AllInt16 (v ∷ vs)

integer_sample-IsInt16 :
    (floats : Floats) (source : List ℕ) (f : Format) → IsInt16 (integer_sample floats source f)
unfolding integer_sample
integer_sample-IsInt16 floats source f =
    let value = read_integer source f.container_bits in
    clamp-IsInt16
      (if ltb 16 f.container_bits then shift_right value (f.container_bits - 16) else value)

zero-IsInt16 : IsInt16 (pos 0)
zero-IsInt16 = record { above = omega arith; below = omega arith }

silence : AllInt16 (replicate 6 (pos 0))
silence = next zero-IsInt16 (
    next zero-IsInt16
      (next zero-IsInt16 (next zero-IsInt16 (next zero-IsInt16 (next zero-IsInt16 none_left)))))

module _ (floats : Floats) (inside : ScalesInside floats) where
  float_sample-IsInt16 : (source : List ℕ) → IsInt16 (float_sample floats source)
  unfolding float_sample
  float_sample-IsInt16 source =
      let x = floats.read_float source in
      elim (Bool-cases (floats.is_finite x)) [
        | inr e ↦ rw e zero-IsInt16
        | inl e ↦ elim (Bool-cases (floats.at_least_one x)) [
          | inl h ↦ rw (e, h) (record { above = omega arith; below = omega arith })
          | inr h ↦ elim (Bool-cases (floats.at_most_minus_one x)) [
            | inl l ↦ rw (e, h, l) (record { above = omega arith; below = omega arith })
            | inr l ↦ rw (e, h, l) (inside x h l)
          ]
        ]
      ]

  convert_sample-IsInt16 :
      (source : Option (List ℕ)) (f : Format) → IsInt16 (convert_sample floats source f)
  unfolding convert_sample
  convert_sample-IsInt16 none f = zero-IsInt16
  convert_sample-IsInt16 (some source) f = elim (Bool-cases (is_integer f.encoding)) [
    | inl e ↦ rw e (integer_sample-IsInt16 floats source f)
    | inr e ↦ rw e (float_sample-IsInt16 source)
  ]

  surround_sample-IsInt16 :
      (source : List ℕ) (f : Format) (c : ℕ) → IsInt16 (surround_sample floats source f c)
  surround_sample-IsInt16 source f c = elim (Bool-cases (f.channels == 8)) [
    | inl e ↦ rw e (
        clamp-IsInt16
          (floats.fold (channel_sample floats source f c) (channel_sample floats source f (c + 2))))
    | inr e ↦ rw e (convert_sample-IsInt16 _ f)
  ]

  -- Where a float below one in size is scaled into 16 bits: for any source, null or not, and any
  -- format, `ConvertSurroundFrame` writes samples of 16 bits.
  convert_surround_frame-AllInt16 :
      (source : Option (List ℕ)) (f : Format) → AllInt16 (convert_surround_frame floats source f)
  unfolding convert_surround_frame
  convert_surround_frame-AllInt16 none f = silence
  convert_surround_frame-AllInt16 (some source) f =
      elim (Bool-cases
        (not (is_surround f.path) || (not (f.channels == 6) && not (f.channels == 8)))) [
          | inl e ↦ rw e silence
          | inr e ↦ rw e (
              next (convert_sample-IsInt16 _ f) (
                next (convert_sample-IsInt16 _ f) (
                  next (convert_sample-IsInt16 _ f) (
                    next (convert_sample-IsInt16 _ f) (
                      next (surround_sample-IsInt16 source f 4)
                        (next (surround_sample-IsInt16 source f 5) none_left))))))
        ]
