-- ===== src/Recording/Session/Refusals.antt =====
-- Why `Start` refuses, against what can be recorded.
use low_latency_capture_view.Common.{
  ℕ, ◌%◌, ◌≡◌, ◌≢◌, inl, inr, refl, sym, ap, ◌∙◌, Bool, true, false, not, ◌||◌, ◌&&◌, Option, none,
  some, ◌==◌, Bool-cases, arith,
}
use low_latency_capture_view.Common.Hresult.{e_outofmemory, mf_e_invalidmediatype}
use low_latency_capture_view.Common.Int.{ℤ, pos, pos_part, leb_ℤ, ltb_ℤ, ◌≤ℤ◌}
use low_latency_capture_view.Recording.Status.{Operation, input, encoder}
use low_latency_capture_view.Recording.Options.{Options, valid}
use low_latency_capture_view.Recording.Session.Formats.{
  PixelFormat, auto, nv12, yuy2, mjpeg, p010, uyvy, rgb32, rgb24, Video, Audio, is_rgb, is_uyvy,
  foreign_rgb_color, unsupported_video, unsupported_audio, refusal,
}
use low_latency_capture_view.Recording.Session.Suitable.{
  Suitable, or_false, neither, even_up_to, within_size, bytes_of, recorded_of, recordable_of,
  enough_bytes, long_enough, IsRgb-is_rgb, is_rgb-IsRgb, known_color, not-foreign, sdr,
}

-- A test that has three parts, and one that has two.
third_fails : (a b c : Bool) → (a && b && c) ≡ false → a ≡ true → b ≡ true → c ≡ false
third_fails true true c h p q = h
third_fails true false c h p q = cc
third_fails false b c h p q = cc

one_fails : (a b c : Bool) → (a ≡ true → b ≡ true → c ≡ false) → (a && b && c) ≡ false
one_fails true true c h = h refl refl
one_fails true false c h = refl
one_fails false b c h = refl

holds : (b : Bool) → not b ≡ false → b ≡ true
holds true h = refl
holds false h = cc

number_of : (n k : ℕ) → not (n == k) ≡ false → n ≡ k
number_of n k h = ground arith

is_number : (n k : ℕ) → n ≡ k → not (n == k) ≡ false
is_number n k h = ground arith

even_of : (n : ℕ) → (n % 2 == 1) ≡ false → n % 2 ≡ 0
even_of n h = ground arith

not_odd : (n : ℕ) → n % 2 ≡ 0 → (n % 2 == 1) ≡ false
not_odd n h = ground arith

rate_of :
    (z : ℤ) → leb_ℤ z (pos 0) ≡ false → ltb_ℤ (pos 240) z ≡ false → (pos 1 ≤ℤ z) × (z ≤ℤ pos 240)
rate_of z h k = ground arith

within_rate :
    (z : ℤ)
    → (pos 1 ≤ℤ z) × (z ≤ℤ pos 240)
    → (leb_ℤ z (pos 0) ≡ false) × (ltb_ℤ (pos 240) z ≡ false)
within_rate z h = ground arith

no_hdr :
    (present : Bool) (p t m : ℕ)
    → (present ≡ true → p ≡ 9 → t ≡ 15 → (m ≢ 4) × (m ≢ 5))
    → (present && p == 9 && t == 15 && (m == 4 || m == 5)) ≡ false
no_hdr false p t m h = refl
no_hdr true p t m h = elim (Bool-cases (p == 9)) [
  | inr e ↦ rw e refl
  | inl e ↦ elim (Bool-cases (t == 15)) [
    | inr f ↦ rw (e, f) refl
    | inl f ↦
        let other = h refl (ground arith) (ground arith) in rw (e, f) (no_matrix m other.0 other.1)
  ]
]
  where
    no_matrix : (m : ℕ) → m ≢ 4 → m ≢ 5 → (m == 4 || m == 5) ≡ false
    no_matrix m h k = ground arith

module _ (o : Options) (v : Video) (a : Audio) where
  -- All tests but the one for UYVY pass.
  pub record Passed : Type 0 where
    pub color : foreign_rgb_color v ≡ false
    pub options : not (valid o) ≡ false
    pub video : unsupported_video v ≡ false
    pub audio : unsupported_audio a ≡ false

  passed-Suitable : Passed → Suitable o v a
  passed-Suitable p =
      let (r11, woven) = or_false _ _ p.video in
      let (r10, short) = or_false _ _ r11 in
      let (r9, f1) = or_false _ _ r10 in
      let (r8, f0) = or_false _ _ r9 in
      let (r7, h2) = or_false _ _ r8 in
      let (r6, w2) = or_false _ _ r7 in
      let (r5, h1) = or_false _ _ r6 in
      let (r4, w1) = or_false _ _ r5 in
      let (r3, h0) = or_false _ _ r4 in
      let (r2, w0) = or_false _ _ r3 in
      let (r1, dark) = or_false _ _ r2 in
      let (known, recorded) = or_false _ _ r1 in
      let (b3, a4) = or_false _ _ p.audio in
      let (b2, a3) = or_false _ _ b3 in
      let (b1, a2) = or_false _ _ b2 in
      let (a0, a1) = or_false _ _ b1 in
      record {
        options = holds (valid o) p.options;
        known = holds v.is_valid known;
        pixel_bytes = bytes_of v.format;
        recorded = recorded_of v.format recorded;
        rgb_primaries = λ i c.
            (known_color v.primaries v.transfer
              (third_fails (is_rgb v.format) v.color_present _ p.color (IsRgb-is_rgb i) c)).0;
        rgb_transfer = λ i c.
            (known_color v.primaries v.transfer
              (third_fails (is_rgb v.format) v.color_present _ p.color (IsRgb-is_rgb i) c)).1;
        not_hdr10 =
            λ c e f. sdr v.color_present v.primaries v.transfer v.transfer_matrix dark c e f;
        width = even_up_to 3840 v.width w0 w1 w2;
        height = even_up_to 2160 v.height h0 h1 h2;
        rate = rate_of v.fps f0 f1;
        rows = enough_bytes v.format (pos_part v.width) v.stride short;
        progressive = even_of v.interlace woven;
        stereo = number_of a.channels 2 a0;
        sixteen_bits = (number_of a.container_bits 16 a1, number_of a.valid_bits 16 a2);
        integers = holds a.integer_pcm a3;
        frame = number_of a.block_align 4 a4;
      }

  Suitable-passed : Suitable o v a → Passed
  Suitable-passed s =
      let w = within_size 3840 v.width s.width in
      let h = within_size 2160 v.height s.height in
      let f = within_rate v.fps s.rate in
      record {
        color = one_fails (is_rgb v.format) v.color_present _ (λ i c.
            let rgb = is_rgb-IsRgb v.format i in
            not-foreign v.primaries v.transfer (s.rgb_primaries rgb c) (s.rgb_transfer rgb c));
        options = rw s.options refl;
        video =
            let known : not v.is_valid ≡ false = rw s.known refl in
            let t1 = neither known ((recordable_of s.recorded).0) in
            let t2 =
              neither t1
                (no_hdr v.color_present v.primaries v.transfer v.transfer_matrix s.not_hdr10) in
            let t3 = neither t2 (w.0) in
            let t4 = neither t3 (h.0) in
            let t5 = neither t4 (w.1) in
            let t6 = neither t5 (h.1) in
            let t7 = neither t6 (w.2) in
            let t8 = neither t7 (h.2) in
            let t9 = neither t8 (f.0) in
            let t10 = neither t9 (f.1) in
            let t11 = neither t10 (long_enough (pos_part v.width) v.stride s.recorded s.rows) in
            neither t11 (not_odd v.interlace s.progressive);
        audio =
            let whole : not a.integer_pcm ≡ false = rw s.integers refl in
            neither
              (neither
                (neither
                  (neither (is_number a.channels 2 s.stereo)
                    (is_number a.container_bits 16 s.sixteen_bits.0))
                  (is_number a.valid_bits 16 s.sixteen_bits.1))
                whole)
              (is_number a.block_align 4 s.frame);
      }

-- What `Start` has to object to, and the code and the operation it then names.
pub data Cause (wake : Bool) (o : Options) (v : Video) (a : Audio)
    : Option (ℕ × Operation) → Type 0 where
  no_event : wake ≡ false → Cause wake o v a (some (e_outofmemory, encoder))
  uyvy_video : wake ≡ true → v.format ≡ uyvy → Cause wake o v a (some (0x80040401, input))
  unsuitable :
      wake ≡ true
      → v.format ≢ uyvy
      → ¬ Suitable o v a
      → Cause wake o v a (some (mf_e_invalidmediatype, input))
  nothing : wake ≡ true → Suitable o v a → Cause wake o v a none

uyvy_of : (f : PixelFormat) → is_uyvy f ≡ true → f ≡ uyvy
uyvy_of uyvy h = refl
uyvy_of auto h = cc
uyvy_of nv12 h = cc
uyvy_of yuy2 h = cc
uyvy_of mjpeg h = cc
uyvy_of p010 h = cc
uyvy_of rgb32 h = cc
uyvy_of rgb24 h = cc

not_uyvy : (f : PixelFormat) → is_uyvy f ≡ false → f ≢ uyvy
not_uyvy f h e = let contrary : true ≡ false = sym (ap is_uyvy e) ∙ h in cc

pub refusal-Cause :
    (wake : Bool) (o : Options) (v : Video) (a : Audio) → Cause wake o v a (refusal wake o v a)
unfolding refusal
refusal-Cause false o v a = no_event refl
refusal-Cause true o v a = elim (Bool-cases (is_uyvy v.format)) [
  | inl e ↦ rw e (uyvy_video refl (uyvy_of v.format e))
  | inr e ↦
      elim (Bool-cases
        (foreign_rgb_color v || not (valid o) || unsupported_video v || unsupported_audio a)) [
          | inl f ↦ rw (e, f) (unsuitable refl (not_uyvy v.format e) (contradicts f))
          | inr f ↦
              let (r2, audio) = or_false _ _ f in
              let (r1, video) = or_false _ _ r2 in
              let (color, options) = or_false _ _ r1 in
              rw (e, f)
                (nothing refl (
                  passed-Suitable o v a
                    (record { color = color; options = options; video = video; audio = audio })))
        ]
]
  where
    contradicts :
        (foreign_rgb_color v || not (valid o) || unsupported_video v || unsupported_audio a) ≡ true
        → ¬ Suitable o v a
    contradicts f s =
        let p = Suitable-passed o v a s in
        let passes : (foreign_rgb_color v
              || not (valid o)
              || unsupported_video v
              || unsupported_audio a)
            ≡ false =
          neither (neither (neither p.color p.options) p.video) p.audio in
        let contrary : true ≡ false = sym f ∙ passes in cc
