-- ===== src/Audio/Formats/Described.antt =====
-- A format, described by a media type that `Classify` reads back.
use low_latency_capture_view.Common.{
  ℕ, ◌+◌, ◌-◌, ◌*◌, ◌/◌, ◌%◌, ◌^◌, ◌≡◌, refl, sym, ap, ◌∙◌, Bool, true, false, not, ◌&&◌, some,
  ◌==◌, arith,
}
use low_latency_capture_view.Audio.Formats.{
  Encoding, OutputPath, Format, Wave, MediaType, expected_sample_rate, is_direct, is_surround,
  bad_bit_depth, surround_layout, path_of, classify_encoding, classify_wave, classify,
  read_encoding, wrong_channels, bad_frame, mediatype_audio, mediasubtype_pcm,
  mediasubtype_ieee_float, format_wave_format_ex, wave_format_extensible, extensible_size,
  wave_size,
}
use low_latency_capture_view.Audio.Formats.Accepted.{
  Suitable, Depth, Layout, accepted, bytes_of, surround_of, direct_of,
}

abbrev pub sub_type_of : Encoding → ℕ
sub_type_of Encoding.integer_pcm = mediasubtype_pcm
sub_type_of Encoding.float_pcm = mediasubtype_ieee_float

abbrev pub wave_of : Format → Wave
wave_of f = record {
  format_tag = wave_format_extensible;
  channels = f.channels;
  samples_per_sec = expected_sample_rate;
  avg_bytes_per_sec = expected_sample_rate * f.block_align % 2 ^ 32;
  block_align = f.block_align;
  bits_per_sample = f.container_bits;
  cb_size = extensible_size - wave_size;
  valid_bits = f.valid_bits;
  channel_mask = f.channel_mask;
  sub_format = sub_type_of f.encoding;
}

-- The WAVEFORMATEXTENSIBLE media type of a format.
abbrev pub media_type_of : Format → MediaType
media_type_of f = record {
  major_type = mediatype_audio;
  sub_type = sub_type_of f.encoding;
  format_type = format_wave_format_ex;
  cb_format = extensible_size;
  pb_format = some (wave_of f);
}

Depth-bad_bit_depth : {e : Encoding} {c v : ℕ} → Depth e c v → bad_bit_depth e c v ≡ false
Depth-bad_bit_depth (Depth.integer c v l) = ground arith
Depth-bad_bit_depth (Depth.float c v) = rw (c, v) refl

Layout-surround_layout :
    {s : Bool} {n mask : ℕ} → Layout s n mask → (s && not (surround_layout n mask)) ≡ false
Layout-surround_layout (Layout.mono e) = refl
Layout-surround_layout (Layout.stereo e) = refl
Layout-surround_layout (Layout.five_one e m) = ground arith
Layout-surround_layout (Layout.seven_one e m) = rw (e, m) refl

Layout-wrong_channels : {s : Bool} {n mask : ℕ} → Layout s n mask → wrong_channels s n ≡ false
Layout-wrong_channels (Layout.mono e) = rw e refl
Layout-wrong_channels (Layout.stereo e) = rw e refl
Layout-wrong_channels (Layout.five_one e m) = rw e refl
Layout-wrong_channels (Layout.seven_one e m) = rw e refl

not_empty : {e : Encoding} {c v : ℕ} → Depth e c v → (c == 0) ≡ false
not_empty (Depth.integer c v l) = ground arith
not_empty (Depth.float c v) = rw c refl

same_number : {a b : ℕ} → a ≡ b → (a == b) ≡ true
same_number e = ground arith

frame_fits :
    (f : Format)
    → Depth f.encoding f.container_bits f.valid_bits
    → f.block_align ≡ f.channels * (f.container_bits / 8)
    → bad_frame (wave_of f) ≡ false
frame_fits f d h =
    let block : f.block_align ≡ f.channels * ((f.container_bits + 7) / 8 % 2 ^ 16) =
      h ∙ ap (λ n. f.channels * n) (sym (bytes_of d)) in
    let rate : expected_sample_rate * f.block_align % 2 ^ 32
        ≡ expected_sample_rate * f.block_align % 2 ^ 32 =
      refl in
    rw (not_empty d, same_number block, same_number rate) refl

encoding_read :
    (f : Format)
    → read_encoding (media_type_of f) (wave_of f) ≡ some (f.encoding, f.valid_bits, f.channel_mask)
unfolding read_encoding
encoding_read f = at f.encoding refl
  where
    at :
        (e : Encoding)
        → f.encoding ≡ e
        → read_encoding (media_type_of f) (wave_of f)
          ≡ some (f.encoding, f.valid_bits, f.channel_mask)
    at Encoding.integer_pcm h = rw h refl
    at Encoding.float_pcm h = rw h refl

path_determined :
    (p q : OutputPath) → is_surround p ≡ is_surround q → is_direct p ≡ is_direct q → p ≡ q
path_determined OutputPath.direct_16_bit_stereo OutputPath.direct_16_bit_stereo h k = refl
path_determined OutputPath.direct_16_bit_stereo OutputPath.convert_to_16_bit_stereo h k = cc
path_determined OutputPath.direct_16_bit_stereo OutputPath.convert_to_surround_51 h k = cc
path_determined OutputPath.convert_to_16_bit_stereo OutputPath.direct_16_bit_stereo h k = cc
path_determined OutputPath.convert_to_16_bit_stereo OutputPath.convert_to_16_bit_stereo h k = refl
path_determined OutputPath.convert_to_16_bit_stereo OutputPath.convert_to_surround_51 h k = cc
path_determined OutputPath.convert_to_surround_51 OutputPath.direct_16_bit_stereo h k = cc
path_determined OutputPath.convert_to_surround_51 OutputPath.convert_to_16_bit_stereo h k = cc
path_determined OutputPath.convert_to_surround_51 OutputPath.convert_to_surround_51 h k = refl

-- For either mode and a format that suits it: `Classify` reads from the WAVEFORMATEXTENSIBLE type of
-- the format that very format, and supports it.
pub classify-media_type_of :
    (s : Bool) (f : Format) → Suitable s f → classify (media_type_of f) s ≡ accepted f
unfolding classify classify_wave classify_encoding
classify-media_type_of s f v =
    let path : path_of s f.encoding (wave_of f) ≡ f.path =
      path_determined _ _ (surround_of s f.encoding (wave_of f) ∙ sym v.surround_path)
        (direct_of s f.encoding (wave_of f) ∙ sym v.direct_path) in
    rw
      (
        Layout-wrong_channels v.layout,
        frame_fits f v.depth v.frame,
        encoding_read f,
        Depth-bad_bit_depth v.depth,
        Layout-surround_layout v.layout,
        path,
      )
      refl
