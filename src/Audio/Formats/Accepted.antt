-- ===== src/Audio/Formats/Accepted.antt =====
-- What `Classify` lets pass, described on its own.
use low_latency_capture_view.Common.{
  ℕ, ◌+◌, ◌*◌, ◌/◌, ◌%◌, ◌^◌, ◌≤◌, ◌≡◌, refl, ap, ◌∙◌, Bool, true, false, not, ◌&&◌, ◌⊎◌, inl, inr,
  Option, none, some, ◌==◌, if◌then◌else◌, Bool-cases, arith,
}
use low_latency_capture_view.Audio.Formats.{
  Encoding, Rejection, Format, Wave, MediaType, Classification, expected_sample_rate, is_direct,
  is_surround, bad_bit_depth, surround_layout, path_of, classify_encoding, classify_wave, classify,
  read_encoding, reject, supported_integer_bits, is_integer, wrong_channels, sample_bytes, not_wave,
  bad_frame,
}

abbrev pub IntegerBits : ℕ → Type 0
IntegerBits n = (n ≡ 16) ⊎ ((n ≡ 24) ⊎ (n ≡ 32))

-- Container bits and valid bits.
pub data Depth : Encoding → ℕ → ℕ → Type 0 where
  integer :
      {container valid : ℕ}
      → IntegerBits container
      → IntegerBits valid
      → valid ≤ container
      → Depth Encoding.integer_pcm container valid
  float :
      {container valid : ℕ} → container ≡ 32 → valid ≡ 32 → Depth Encoding.float_pcm container valid

-- Channels and mask, in stereo mode and in surround mode.
pub data Layout : Bool → ℕ → ℕ → Type 0 where
  mono : {channels mask : ℕ} → channels ≡ 1 → Layout false channels mask
  stereo : {channels mask : ℕ} → channels ≡ 2 → Layout false channels mask
  five_one :
      {channels mask : ℕ}
      → channels ≡ 6
      → (mask ≡ 0x3F) ⊎ (mask ≡ 0x60F)
      → Layout true channels mask
  seven_one : {channels mask : ℕ} → channels ≡ 8 → mask ≡ 0x63F → Layout true channels mask

pub record Suitable (surround : Bool) (f : Format) : Type 0 where
  pub depth : Depth f.encoding f.container_bits f.valid_bits
  pub layout : Layout surround f.channels f.channel_mask
  pub frame : f.block_align ≡ f.channels * (f.container_bits / 8)
  pub surround_path : is_surround f.path ≡ surround
  pub direct_path :
      is_direct f.path
      ≡ (not surround && is_integer f.encoding && f.container_bits == 16 && f.channels == 2)

integer_bits : (n : ℕ) → supported_integer_bits n ≡ true → IntegerBits n
integer_bits n h = ground arith

bad_bit_depth-Depth :
    (e : Encoding) (bits valid : ℕ) → bad_bit_depth e bits valid ≡ false → Depth e bits valid
bad_bit_depth-Depth Encoding.integer_pcm bits valid h =
    let container : supported_integer_bits bits ≡ true = ground arith in
    let inside : supported_integer_bits valid ≡ true = ground arith in
    Depth.integer (integer_bits bits container) (integer_bits valid inside) (ground arith)
bad_bit_depth-Depth Encoding.float_pcm bits valid h = Depth.float (ground arith) (ground arith)

surround_layout-Layout :
    (surround : Bool) (n mask : ℕ)
    → wrong_channels surround n ≡ false
    → (surround && not (surround_layout n mask)) ≡ false
    → Layout surround n mask
surround_layout-Layout false n mask h k =
    let known : (n ≡ 1) ⊎ (n ≡ 2) = ground arith in
    elim known [ inl e ↦ Layout.mono e | inr e ↦ Layout.stereo e ]
surround_layout-Layout true n mask h k =
    let known : (n ≡ 6) × ((mask ≡ 0x3F) ⊎ (mask ≡ 0x60F)) ⊎ (n ≡ 8) × (mask ≡ 0x63F) =
      ground arith in
    elim known [ inl (e, m) ↦ Layout.five_one e m | inr (e, m) ↦ Layout.seven_one e m ]

pub bytes_of :
    {e : Encoding} {bits valid : ℕ} → Depth e bits valid → (bits + 7) / 8 % 2 ^ 16 ≡ bits / 8
bytes_of (Depth.integer (inl e) v l) = rw e refl
bytes_of (Depth.integer (inr (inl e)) v l) = rw e refl
bytes_of (Depth.integer (inr (inr e)) v l) = rw e refl
bytes_of (Depth.float e v) = rw e refl

pub surround_of : (s : Bool) (e : Encoding) (w : Wave) → is_surround (path_of s e w) ≡ s
surround_of true e w = refl
surround_of false e w =
    elim (Bool-cases (is_integer e && w.bits_per_sample == 16 && w.channels == 2)) [
      | inl h ↦ rw h refl
      | inr h ↦ rw h refl
    ]

pub direct_of :
    (s : Bool) (e : Encoding) (w : Wave)
    → is_direct (path_of s e w)
      ≡ (not s && is_integer e && w.bits_per_sample == 16 && w.channels == 2)
direct_of true e w = refl
direct_of false e w =
    elim (Bool-cases (is_integer e && w.bits_per_sample == 16 && w.channels == 2)) [
      | inl h ↦ rw h refl
      | inr h ↦ rw h refl
    ]

abbrev pub accepted : Format → Classification
accepted f = record { supported = true; format = f; rejection = Rejection.none_rejected }

-- What a classification may be.
pub data Verdict (surround : Bool) : Classification → Type 0 where
  turned_down : (r : Rejection) → Verdict surround (reject r)
  suits : {f : Format} → Suitable surround f → Verdict surround (accepted f)

checked :
    {s : Bool} {c : Classification} (b : Bool) (r : Rejection)
    → (b ≡ false → Verdict s c)
    → Verdict s (if b then reject r else c)
checked true r k = Verdict.turned_down r
checked false r k = k refl

frame_of : (w : Wave) → bad_frame w ≡ false → w.block_align ≡ w.channels * sample_bytes w
frame_of w h = ground arith

module _ (m : MediaType) (s : Bool) (w : Wave) where
  encoding-Verdict :
      (e : Encoding × ℕ × ℕ)
      → wrong_channels s w.channels ≡ false
      → w.block_align ≡ w.channels * sample_bytes w
      → Verdict s (classify_encoding s w e)
  unfolding classify_encoding
  encoding-Verdict (e, valid, mask) h b = checked _ _ λ good. checked _ _ λ fits.
      let depth = bad_bit_depth-Depth e w.bits_per_sample valid good in
      Verdict.suits (record {
        depth = depth;
        layout = surround_layout-Layout s w.channels mask h fits;
        frame = b ∙ ap (λ n. w.channels * n) (bytes_of depth);
        surround_path = surround_of s e w;
        direct_path = direct_of s e w;
      })

  encoded-Verdict :
      (o : Option (Encoding × ℕ × ℕ))
      → wrong_channels s w.channels ≡ false
      → w.block_align ≡ w.channels * sample_bytes w
      → Verdict s
          (elim o [ none ↦ reject Rejection.bad_encoding | some e ↦ classify_encoding s w e ])
  encoded-Verdict none h b = Verdict.turned_down _
  encoded-Verdict (some e) h b = encoding-Verdict e h b

  wave-Verdict : Verdict s (classify_wave m s w)
  unfolding classify_wave
  wave-Verdict =
      checked (not (w.samples_per_sec == expected_sample_rate)) Rejection.sample_rate λ a.
        checked (wrong_channels s w.channels) Rejection.bad_channels λ b.
          checked (bad_frame w) Rejection.malformed
            λ c. encoded-Verdict (read_encoding m w) b (frame_of w c)

-- For any media type, in either mode: a type that `Classify` supports gets a format in which the
-- integer depths are 16, 24 or 32 bits, the valid ones no more than the container's, and floats have
-- 32; the channels are one or two, or with an explicit mask six or eight; a frame is as many
-- containers as channels; and the path is the surround one in surround mode alone, and the direct
-- one for 16-bit integer stereo alone.
pub classify-Verdict : (m : MediaType) (s : Bool) → Verdict s (classify m s)
unfolding classify
classify-Verdict m s =
    elim (m.pb_format)
      as (λ o. Verdict s (elim o [
        | none ↦ reject Rejection.not_audio
        | some w ↦ if not_wave m then reject Rejection.not_audio else classify_wave m s w
      ])) [ none ↦ Verdict.turned_down _ | some w ↦ checked _ _ λ h. wave-Verdict m s w ]
