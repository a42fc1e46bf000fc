-- ===== src/Audio/Formats.antt =====
-- src/audio/CaptureAudioFormat.h and .cpp: the capture audio formats that are accepted. A media type
-- is the fields that the code reads; the format block is a WAVEFORMATEXTENSIBLE whose last three
-- fields are read only where `cbFormat` covers them. Identifiers are their documented 128 bits. The
-- enumeration of a pin is the list of media types that `Next` hands out before it stops.
pub mod Accepted
pub mod Choice
pub mod Described
pub mod Convert
pub mod Samples
mod Examples
use low_latency_capture_view.Common.{
  ℕ, ◌+◌, ◌*◌, ◌/◌, ◌%◌, ◌^◌, Bool, true, false, not, ◌&&◌, ◌||◌, List, [], ◌∷◌, Option, none, some,
  ◌-◌, ◌⊎◌, inl, inr, ◌==◌, ltb, leb, if◌then◌else◌,
}
use low_latency_capture_view.Common.Hresult.{
  failed, succeeded, s_ok, e_pointer, vfw_e_type_not_accepted,
}

pub data Encoding : Type 0 where
  integer_pcm : Encoding
  float_pcm : Encoding

-- `Path` of the source.
pub data OutputPath : Type 0 where
  direct_16_bit_stereo : OutputPath
  convert_to_16_bit_stereo : OutputPath
  convert_to_surround_51 : OutputPath

pub data Rejection : Type 0 where
  none_rejected : Rejection
  not_audio : Rejection
  malformed : Rejection
  sample_rate : Rejection
  bad_channels : Rejection
  bad_encoding : Rejection
  bad_bits : Rejection

pub record Format : Type 0 where
  pub encoding : Encoding
  pub path : OutputPath
  pub container_bits : ℕ
  pub valid_bits : ℕ
  pub channels : ℕ
  pub block_align : ℕ
  pub channel_mask : ℕ

abbrev pub no_format : Format
no_format = record {
  encoding = Encoding.integer_pcm;
  path = OutputPath.convert_to_16_bit_stereo;
  container_bits = 0;
  valid_bits = 0;
  channels = 0;
  block_align = 0;
  channel_mask = 0;
}

pub record Classification : Type 0 where
  pub supported : Bool
  pub format : Format
  pub rejection : Rejection

pub record Wave : Type 0 where
  pub format_tag : ℕ
  pub channels : ℕ
  pub samples_per_sec : ℕ
  pub avg_bytes_per_sec : ℕ
  pub block_align : ℕ
  pub bits_per_sample : ℕ
  pub cb_size : ℕ
  pub valid_bits : ℕ
  pub channel_mask : ℕ
  pub sub_format : ℕ

pub record MediaType : Type 0 where
  pub major_type : ℕ
  pub sub_type : ℕ
  pub format_type : ℕ
  pub cb_format : ℕ
  pub pb_format : Option Wave  -- none is the null pointer

abbrev pub mediatype_audio : ℕ
mediatype_audio = 0x7364756100000010800000AA00389B71

abbrev pub mediasubtype_pcm : ℕ
mediasubtype_pcm = 0x0000000100000010800000AA00389B71

abbrev pub mediasubtype_ieee_float : ℕ
mediasubtype_ieee_float = 0x0000000300000010800000AA00389B71

abbrev pub format_wave_format_ex : ℕ
format_wave_format_ex = 0x05589F81C35611CEBF0100AA0055595A

abbrev pub wave_format_pcm : ℕ
wave_format_pcm = 1

abbrev pub wave_format_ieee_float : ℕ
wave_format_ieee_float = 3

abbrev pub wave_format_extensible : ℕ
wave_format_extensible = 0xFFFE

abbrev pub expected_sample_rate : ℕ
expected_sample_rate = 48000

-- sizeof(WAVEFORMATEX) and sizeof(WAVEFORMATEXTENSIBLE), packed.
abbrev pub wave_size : ℕ
wave_size = 18

abbrev pub extensible_size : ℕ
extensible_size = 40

abbrev pub supported_integer_bits : ℕ → Bool
supported_integer_bits bits = bits == 16 || bits == 24 || bits == 32

abbrev pub reject : Rejection → Classification
reject r = record { supported = false; format = no_format; rejection = r }

abbrev pub is_integer : Encoding → Bool
is_integer Encoding.integer_pcm = true
is_integer Encoding.float_pcm = false

-- The chain that picks the encoding, the valid bits and the mask.
unfoldable pub read_encoding : MediaType → Wave → Option (Encoding × ℕ × ℕ)
read_encoding m w =
    if w.format_tag == wave_format_pcm && m.sub_type == mediasubtype_pcm
    then some (Encoding.integer_pcm, w.bits_per_sample, 0)
    else if w.format_tag == wave_format_ieee_float && m.sub_type == mediasubtype_ieee_float
    then some (Encoding.float_pcm, w.bits_per_sample, 0)
    else if w.format_tag == wave_format_extensible
        && leb (extensible_size - wave_size) w.cb_size
        && leb extensible_size m.cb_format
    then (if w.sub_format == mediasubtype_pcm && m.sub_type == mediasubtype_pcm
        then some (Encoding.integer_pcm, w.valid_bits, w.channel_mask)
        else if w.sub_format == mediasubtype_ieee_float && m.sub_type == mediasubtype_ieee_float
        then some (Encoding.float_pcm, w.valid_bits, w.channel_mask)
        else none)
    else none

abbrev pub bad_bit_depth : Encoding → ℕ → ℕ → Bool
bad_bit_depth encoding bits valid =
    (is_integer encoding
      && (not (supported_integer_bits bits)
          || not (supported_integer_bits valid)
          || ltb bits valid))
    || (not (is_integer encoding) && (not (bits == 32) || not (valid == 32)))

abbrev pub surround_layout : ℕ → ℕ → Bool
surround_layout channels mask =
    (channels == 6 && (mask == 0x3F || mask == 0x60F)) || (channels == 8 && mask == 0x63F)

abbrev pub path_of : Bool → Encoding → Wave → OutputPath
path_of surround encoding w =
    if surround
    then OutputPath.convert_to_surround_51
    else if is_integer encoding && w.bits_per_sample == 16 && w.channels == 2
    then OutputPath.direct_16_bit_stereo
    else OutputPath.convert_to_16_bit_stereo

-- From the checks of the bit depth on.
unfoldable pub classify_encoding : Bool → Wave → Encoding × ℕ × ℕ → Classification
classify_encoding surround w (encoding, valid, mask) =
    if bad_bit_depth encoding w.bits_per_sample valid
    then reject Rejection.bad_bits
    else if surround && not (surround_layout w.channels mask)
    then reject Rejection.bad_channels
    else record {
      supported = true;
      format = record {
        encoding = encoding;
        path = path_of surround encoding w;
        container_bits = w.bits_per_sample;
        valid_bits = valid;
        channels = w.channels;
        block_align = w.block_align;
        channel_mask = mask;
      };
      rejection = Rejection.none_rejected;
    }

abbrev pub sample_bytes : Wave → ℕ
sample_bytes w = (w.bits_per_sample + 7) / 8 % 2 ^ 16

abbrev pub bad_frame : Wave → Bool
bad_frame w =
    w.bits_per_sample == 0
    || not (w.block_align == w.channels * sample_bytes w)
    || not (w.avg_bytes_per_sec == w.samples_per_sec * w.block_align % 2 ^ 32)

abbrev pub wrong_channels : Bool → ℕ → Bool
wrong_channels surround n =
    if surround then not (n == 6) && not (n == 8) else not (n == 1) && not (n == 2)

unfoldable pub classify_wave : MediaType → Bool → Wave → Classification
unfolding read_encoding classify_encoding
classify_wave m surround w =
    if not (w.samples_per_sec == expected_sample_rate)
    then reject Rejection.sample_rate
    else if wrong_channels surround w.channels
    then reject Rejection.bad_channels
    else if bad_frame w
    then reject Rejection.malformed
    else elim (read_encoding m w) [
      | none ↦ reject Rejection.bad_encoding
      | some e ↦ classify_encoding surround w e
    ]

abbrev pub not_wave : MediaType → Bool
not_wave m =
    not (m.major_type == mediatype_audio)
    || not (m.format_type == format_wave_format_ex)
    || ltb m.cb_format wave_size

unfoldable pub classify : MediaType → Bool → Classification
unfolding classify_wave
classify m surround = elim (m.pb_format) [
  | none ↦ reject Rejection.not_audio
  | some w ↦ if not_wave m then reject Rejection.not_audio else classify_wave m surround w
]

-- The state of the loop of `SelectSupportedType`.
pub record Search : Type 0 where
  pub fallback : Option (MediaType × Format)
  pub first_rejection : Rejection

abbrev pub is_direct : OutputPath → Bool
is_direct OutputPath.direct_16_bit_stereo = true
is_direct OutputPath.convert_to_16_bit_stereo = false
is_direct OutputPath.convert_to_surround_51 = false

abbrev pub is_surround : OutputPath → Bool
is_surround OutputPath.direct_16_bit_stereo = false
is_surround OutputPath.convert_to_16_bit_stereo = false
is_surround OutputPath.convert_to_surround_51 = true

abbrev pub takes_over : Bool → Format → Option (MediaType × Format) → Bool
takes_over surround f none = true
takes_over surround f (some (m, g)) = surround && ltb f.channels g.channels

abbrev pub keep_rejection : Rejection → Rejection → Rejection
keep_rejection Rejection.malformed new = new
keep_rejection old Rejection.sample_rate = Rejection.sample_rate
keep_rejection old new = old

abbrev pub consider : Bool → MediaType → Format → Search → Search
consider surround m f s =
    if takes_over surround f s.fallback then record s { fallback = some (m, f) } else s

-- The result: a type with its format, or the rejection that is reported.
unfoldable pub search_types : Bool → Search → List MediaType → (MediaType × Format) ⊎ Rejection
search_types surround s [] = elim (s.fallback) [
  | none ↦ inr s.first_rejection
  | some found ↦ inl found
]
search_types surround s (m ∷ ms) =
    let c = classify m surround in
    let with_fallback = search_types surround (consider surround m c.format s) ms in
    let with_rejection =
      search_types surround
        (record s { first_rejection = keep_rejection s.first_rejection c.rejection }) ms in
    if c.supported
    then (if is_direct c.format.path then inl (m, c.format) else with_fallback)
    else with_rejection

-- `EnumMediaTypes` gives `none` where it fails.
abbrev pub Enumeration : Type 0
Enumeration = Option (List MediaType)

unfoldable pub select_supported_type : Bool → Enumeration → (MediaType × Format) ⊎ Rejection
select_supported_type surround none = inr Rejection.malformed
select_supported_type surround (some types) =
    search_types surround (record { fallback = none; first_rejection = Rejection.malformed }) types

abbrev pub same_encoding : Encoding → Encoding → Bool
same_encoding a b = if is_integer a then is_integer b else not (is_integer b)

abbrev pub same_path : OutputPath → OutputPath → Bool
same_path OutputPath.direct_16_bit_stereo p = is_direct p
same_path OutputPath.convert_to_16_bit_stereo p = not (is_direct p) && not (is_surround p)
same_path OutputPath.convert_to_surround_51 p = is_surround p

unfoldable pub matches_format : MediaType → Format → Bool
matches_format m expected =
    let surround = is_surround expected.path in
    let c = classify m surround in
    let actual = c.format in
    c.supported
    && same_path actual.path expected.path
    && same_encoding actual.encoding expected.encoding
    && actual.container_bits == expected.container_bits
    && actual.valid_bits == expected.valid_bits
    && actual.channels == expected.channels
    && actual.block_align == expected.block_align
    && (not surround || actual.channel_mask == expected.channel_mask)

unfoldable pub matches_surround_format : MediaType → Format → Bool
matches_surround_format m expected = is_surround expected.path && matches_format m expected

-- A pin of a filter: whether its direction is known to be output, and its media types.
pub record Pin : Type 0 where
  pub is_output : Bool
  pub types : Enumeration

abbrev pub offers : Pin → Bool
offers p = elim (select_supported_type true p.types) [ inl found ↦ true | inr r ↦ false ]

-- The loop of `FindSurroundPin`, on the pins that `Next` hands out.
unfoldable pub scan_pins : List Pin → Option Pin × ℕ
scan_pins [] = (none, vfw_e_type_not_accepted)
scan_pins (p ∷ ps) =
    let rest = scan_pins ps in if p.is_output && offers p then (some p, s_ok) else rest

-- The result code of `EnumPins` and its pins; no filter is the null pointer.
unfoldable pub find_surround_pin : Option (ℕ × List Pin) → Option Pin × ℕ
unfolding scan_pins
find_surround_pin none = (none, e_pointer)
find_surround_pin (some (hr, pins)) = if failed hr then (none, hr) else scan_pins pins

-- The connection's result code and media type; no pin is the null pointer.
unfoldable pub verify_surround_connection : Option (ℕ × MediaType) → Format → ℕ
verify_surround_connection none expected = e_pointer
verify_surround_connection (some (hr, m)) expected =
    if succeeded hr && not (matches_surround_format m expected) then vfw_e_type_not_accepted else hr
