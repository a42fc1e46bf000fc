-- ===== src/Recording/Session/Suitable.antt =====
-- Which options and formats can be recorded, in words of their own.
use low_latency_capture_view.Common.{
  ℕ, ◌*◌, ◌%◌, ◌≤◌, ◌≡◌, ◌≢◌, ◌⊎◌, refl, Bool, true, false, not, ◌||◌, ◌&&◌, ◌==◌, ltb, arith,
}
use low_latency_capture_view.Common.Int.{ℤ, pos, pos_part, leb_ℤ, ltb_ℤ, ◌≤ℤ◌}
use low_latency_capture_view.Recording.Options.{Options, valid}
use low_latency_capture_view.Recording.Session.Formats.{
  PixelFormat, auto, nv12, yuy2, mjpeg, p010, uyvy, rgb32, rgb24, Video, Audio, is_rgb, is_mjpeg,
  is_uyvy, recordable, row_bytes, even,
}

-- The pixel formats that can be recorded, and how many bytes of a row belong to a pixel at least; none
-- for a compressed one.
pub data IsRecorded : PixelFormat → ℕ → Type 0 where
  as_nv12 : IsRecorded nv12 1
  as_yuy2 : IsRecorded yuy2 2
  as_mjpeg : IsRecorded mjpeg 0
  as_rgb32 : IsRecorded rgb32 4
  as_rgb24 : IsRecorded rgb24 3

pub data IsRgb : PixelFormat → Type 0 where
  in_rgb32 : IsRgb rgb32
  in_rgb24 : IsRgb rgb24

-- A size in pixels.
abbrev pub EvenUpTo : ℕ → ℤ → Type 0
EvenUpTo most z = (pos 1 ≤ℤ z) × (z ≤ℤ pos most) × (pos_part z % 2 ≡ 0)

pub record Suitable (o : Options) (v : Video) (a : Audio) : Type 0 where
  pub options : valid o ≡ true
  pub known : v.is_valid ≡ true
  pub pixel_bytes : ℕ
  pub recorded : IsRecorded v.format pixel_bytes
  pub rgb_primaries :
      IsRgb v.format → v.color_present ≡ true → (v.primaries ≡ 0) ⊎ (v.primaries ≡ 2)
  pub rgb_transfer :
      IsRgb v.format
      → v.color_present ≡ true
      → (v.transfer ≡ 0) ⊎ (v.transfer ≡ 4) ⊎ (v.transfer ≡ 5) ⊎ (v.transfer ≡ 7)
  pub not_hdr10 :
      v.color_present ≡ true
      → v.primaries ≡ 9
      → v.transfer ≡ 15
      → (v.transfer_matrix ≢ 4) × (v.transfer_matrix ≢ 5)
  pub width : EvenUpTo 3840 v.width
  pub height : EvenUpTo 2160 v.height
  pub rate : (pos 1 ≤ℤ v.fps) × (v.fps ≤ℤ pos 240)
  pub rows : pos_part v.width * pixel_bytes ≤ v.stride
  pub progressive : v.interlace % 2 ≡ 0
  pub stereo : a.channels ≡ 2
  pub sixteen_bits : (a.container_bits ≡ 16) × (a.valid_bits ≡ 16)
  pub integers : a.integer_pcm ≡ true
  pub frame : a.block_align ≡ 4

pub or_false : (a b : Bool) → (a || b) ≡ false → (a ≡ false) × (b ≡ false)
or_false false b h = (refl, h)
or_false true b h = cc

pub neither : {a b : Bool} → a ≡ false → b ≡ false → (a || b) ≡ false
neither h k = rw (h, k) refl

pub even_up_to :
    (most : ℕ) (z : ℤ)
    → leb_ℤ z (pos 0) ≡ false
    → ltb_ℤ (pos most) z ≡ false
    → not (even z) ≡ false
    → EvenUpTo most z
even_up_to most z h k e = ground arith

pub within_size :
    (most : ℕ) (z : ℤ)
    → EvenUpTo most z
    → (leb_ℤ z (pos 0) ≡ false) × (ltb_ℤ (pos most) z ≡ false) × (not (even z) ≡ false)
within_size most z h = ground arith

pub bytes_of : PixelFormat → ℕ
bytes_of mjpeg = 0
bytes_of f = row_bytes f

pub recorded_of : (f : PixelFormat) → not (recordable f) ≡ false → IsRecorded f (bytes_of f)
unfolding bytes_of
recorded_of auto h = cc
recorded_of nv12 h = as_nv12
recorded_of yuy2 h = as_yuy2
recorded_of mjpeg h = as_mjpeg
recorded_of p010 h = cc
recorded_of uyvy h = cc
recorded_of rgb32 h = as_rgb32
recorded_of rgb24 h = as_rgb24

pub recordable_of :
    {f : PixelFormat} {n : ℕ} → IsRecorded f n → (not (recordable f) ≡ false) × (is_uyvy f ≡ false)
recordable_of as_nv12 = (refl, refl)
recordable_of as_yuy2 = (refl, refl)
recordable_of as_mjpeg = (refl, refl)
recordable_of as_rgb32 = (refl, refl)
recordable_of as_rgb24 = (refl, refl)

pub enough_bytes :
    (f : PixelFormat) (w stride : ℕ)
    → (not (is_mjpeg f) && ltb stride (w * row_bytes f)) ≡ false
    → w * bytes_of f ≤ stride
unfolding bytes_of
enough_bytes auto w stride h = ground arith
enough_bytes nv12 w stride h = ground arith
enough_bytes yuy2 w stride h = ground arith
enough_bytes mjpeg w stride h = omega arith
enough_bytes p010 w stride h = ground arith
enough_bytes uyvy w stride h = ground arith
enough_bytes rgb32 w stride h = ground arith
enough_bytes rgb24 w stride h = ground arith

pub long_enough :
    {f : PixelFormat} {n : ℕ} (w stride : ℕ)
    → IsRecorded f n
    → w * n ≤ stride
    → (not (is_mjpeg f) && ltb stride (w * row_bytes f)) ≡ false
long_enough w stride as_nv12 h = ground arith
long_enough w stride as_yuy2 h = ground arith
long_enough w stride as_mjpeg h = refl
long_enough w stride as_rgb32 h = ground arith
long_enough w stride as_rgb24 h = ground arith

pub IsRgb-is_rgb : {f : PixelFormat} → IsRgb f → is_rgb f ≡ true
IsRgb-is_rgb in_rgb32 = refl
IsRgb-is_rgb in_rgb24 = refl

pub is_rgb-IsRgb : (f : PixelFormat) → is_rgb f ≡ true → IsRgb f
is_rgb-IsRgb auto h = cc
is_rgb-IsRgb nv12 h = cc
is_rgb-IsRgb yuy2 h = cc
is_rgb-IsRgb mjpeg h = cc
is_rgb-IsRgb p010 h = cc
is_rgb-IsRgb uyvy h = cc
is_rgb-IsRgb rgb32 h = in_rgb32
is_rgb-IsRgb rgb24 h = in_rgb24

abbrev pub Primaries : ℕ → Type 0
Primaries p = (p ≡ 0) ⊎ (p ≡ 2)

abbrev pub Transfer : ℕ → Type 0
Transfer t = (t ≡ 0) ⊎ (t ≡ 4) ⊎ (t ≡ 5) ⊎ (t ≡ 7)

-- A test that says that a colour is a foreign one.
abbrev pub foreign : ℕ → ℕ → Bool
foreign p t =
    not (p == 0) && not (p == 2) || not (t == 0) && not (t == 4) && not (t == 5) && not (t == 7)

pub known_color : (p t : ℕ) → foreign p t ≡ false → Primaries p × Transfer t
known_color p t h = ground arith

pub not-foreign : (p t : ℕ) → Primaries p → Transfer t → foreign p t ≡ false
not-foreign p t h k = ground arith

pub sdr :
    (present : Bool) (p t m : ℕ)
    → (present && p == 9 && t == 15 && (m == 4 || m == 5)) ≡ false
    → present ≡ true
    → p ≡ 9
    → t ≡ 15
    → (m ≢ 4) × (m ≢ 5)
sdr false p t m h c e f = cc
sdr true p t m h c e f = ground arith
