-- ===== src/Recording/Session/Formats.antt =====
-- The tests of `Recorder::Start` on the capture formats and the options.
use low_latency_capture_view.Common.{
  ℕ, ◌*◌, ◌+◌, ◌%◌, Bool, true, false, not, ◌||◌, ◌&&◌, Option, none, some, ◌==◌, ltb,
  if◌then◌else◌,
}
use low_latency_capture_view.Common.Hresult.{e_outofmemory, mf_e_invalidmediatype}
use low_latency_capture_view.Common.Int.{ℤ, pos, pos_part, neg_part, leb_ℤ, ltb_ℤ}
use low_latency_capture_view.Recording.Status.{Operation, input, encoder}
use low_latency_capture_view.Recording.Options.{Options, valid}

-- The capture formats, as far as `Start` reads them.
pub data PixelFormat : Type 0 where
  auto nv12 yuy2 mjpeg p010 uyvy rgb32 rgb24 : PixelFormat

pub record Video : Type 0 where
  pub is_valid : Bool
  pub format : PixelFormat
  pub width : ℤ
  pub height : ℤ
  pub fps : ℤ
  pub stride : ℕ
  pub interlace : ℕ
  pub color_present : Bool
  pub primaries : ℕ
  pub transfer : ℕ
  pub transfer_matrix : ℕ

pub record Audio : Type 0 where
  pub channels : ℕ
  pub container_bits : ℕ
  pub valid_bits : ℕ
  pub integer_pcm : Bool
  pub block_align : ℕ

abbrev pub hdr10 : Video → Bool
hdr10 v =
    v.color_present
    && v.primaries == 9
    && v.transfer == 15
    && (v.transfer_matrix == 4 || v.transfer_matrix == 5)

abbrev pub is_rgb : PixelFormat → Bool
is_rgb rgb24 = true
is_rgb rgb32 = true
is_rgb _ = false

abbrev pub is_mjpeg : PixelFormat → Bool
is_mjpeg mjpeg = true
is_mjpeg _ = false

abbrev pub is_uyvy : PixelFormat → Bool
is_uyvy uyvy = true
is_uyvy _ = false

abbrev pub recordable : PixelFormat → Bool
recordable nv12 = true
recordable yuy2 = true
recordable f = is_mjpeg f || is_rgb f

-- Bytes of a row per pixel, as the test of the stride counts them.
abbrev pub row_bytes : PixelFormat → ℕ
row_bytes rgb24 = 3
row_bytes rgb32 = 4
row_bytes yuy2 = 2
row_bytes _ = 1

abbrev pub even : ℤ → Bool
even x = (pos_part x + neg_part x) % 2 == 0

-- `static_cast<UINT32>(width * n)` of a width that is not negative.
abbrev pub short_stride : Video → Bool
short_stride v = not (is_mjpeg v.format) && ltb v.stride (pos_part v.width * row_bytes v.format)

abbrev pub foreign_rgb_color : Video → Bool
foreign_rgb_color v =
    is_rgb v.format
    && v.color_present
    && (not (v.primaries == 0) && not (v.primaries == 2)
        || not (v.transfer == 0)
          && not (v.transfer == 4)
          && not (v.transfer == 5)
          && not (v.transfer == 7))

abbrev pub unsupported_video : Video → Bool
unsupported_video v =
    not v.is_valid
    || not (recordable v.format)
    || hdr10 v
    || leb_ℤ v.width (pos 0)
    || leb_ℤ v.height (pos 0)
    || ltb_ℤ (pos 3840) v.width
    || ltb_ℤ (pos 2160) v.height
    || not (even v.width)
    || not (even v.height)
    || leb_ℤ v.fps (pos 0)
    || ltb_ℤ (pos 240) v.fps
    || short_stride v
    || v.interlace % 2 == 1

abbrev pub unsupported_audio : Audio → Bool
unsupported_audio a =
    not (a.channels == 2)
    || not (a.container_bits == 16)
    || not (a.valid_bits == 16)
    || not a.integer_pcm
    || not (a.block_align == 4)

-- MAKE_HRESULT(SEVERITY_ERROR, FACILITY_ITF, 0x401)
abbrev pub unsupported_uyvy_recording : ℕ
unsupported_uyvy_recording = 0x80040401

-- Why `Start` refuses, in the order of its tests; `wake` is that the event exists.
unfoldable pub refusal : Bool → Options → Video → Audio → Option (ℕ × Operation)
refusal wake o v a =
    if not wake
    then some (e_outofmemory, encoder)
    else if is_uyvy v.format
    then some (unsupported_uyvy_recording, input)
    else if foreign_rgb_color v || not (valid o) || unsupported_video v || unsupported_audio a
    then some (mf_e_invalidmediatype, input)
    else none
