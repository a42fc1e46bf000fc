-- ===== src/Audio/Formats/Examples.antt =====
-- Formats and samples at concrete inputs.
use low_latency_capture_view.Common.{
  ℕ, ◌≡◌, refl, inl, inr, true, false, List, [], ◌∷◌, none, some, arith, zero, suc, ◌*◌, leb,
  get_or,
}
use low_latency_capture_view.Common.Int.{pos}
use low_latency_capture_view.Common.Hresult.{s_ok}
use low_latency_capture_view.Audio.Formats.{
  Encoding, OutputPath, Format, MediaType, classify, search_types, select_supported_type,
  verify_surround_connection,
}
use low_latency_capture_view.Audio.Formats.Accepted.{
  Suitable, Depth, Layout, Verdict, accepted, classify-Verdict,
}
use low_latency_capture_view.Audio.Formats.Choice.{
  Found, select_supported_type-Found, verify-select,
}
use low_latency_capture_view.Audio.Formats.Described.{media_type_of, classify-media_type_of}
use low_latency_capture_view.Audio.Formats.Convert.{Floats, signed, convert_sample}
use low_latency_capture_view.Audio.Formats.Samples.{IsBytes, top_bytes, convert_sample-top}

-- 24 bits in 32-bit containers, in 7.1.
abbrev wide : Format
wide = record {
  encoding = Encoding.integer_pcm;
  path = OutputPath.convert_to_surround_51;
  container_bits = 32;
  valid_bits = 24;
  channels = 8;
  block_align = 32;
  channel_mask = 0x63F;
}

abbrev five_one : Format
five_one = record wide { channels = 6; block_align = 24; channel_mask = 0x3F }

abbrev wide_suits : Suitable true wide
wide_suits = record {
  depth = Depth.integer (inr (inr refl)) (inr (inl refl)) (omega arith);
  layout = Layout.seven_one refl refl;
  frame = refl;
  surround_path = refl;
  direct_path = refl;
}

abbrev offered : List MediaType
offered = media_type_of wide ∷ media_type_of five_one ∷ []

classify-Verdict_example : Verdict true (classify (media_type_of wide) true)
classify-Verdict_example = classify-Verdict (media_type_of wide) true

select_supported_type-Found_example :
    Found true none offered (select_supported_type true (some offered))
select_supported_type-Found_example = select_supported_type-Found true offered

selected : select_supported_type true (some offered) ≡ inl (media_type_of five_one, five_one)
unfolding select_supported_type search_types classify
selected = refl

verify-select_example :
    verify_surround_connection (some (s_ok, media_type_of five_one)) five_one ≡ s_ok
verify-select_example = verify-select offered (media_type_of five_one) five_one selected

classify-media_type_of_example : classify (media_type_of wide) true ≡ accepted wide
classify-media_type_of_example = classify-media_type_of true wide wide_suits

-- Floats in thousandths, of which a list of bytes gives the first.
abbrev milli : Floats
milli = record {
  Float = ℕ;
  read_float = λ b. get_or b 0 0;
  is_finite = λ x. true;
  at_least_one = λ x. leb 1000 x;
  at_most_minus_one = λ x. false;
  scaled = λ x. pos (x * 32);
  fold = λ a b. a;
}

abbrev frame : List ℕ
frame = 0x00 ∷ 0x01 ∷ 0x02 ∷ 0xFF ∷ []

frame-IsBytes : IsBytes frame
frame-IsBytes zero = omega arith
frame-IsBytes (suc zero) = omega arith
frame-IsBytes (suc (suc zero)) = omega arith
frame-IsBytes (suc (suc (suc zero))) = omega arith
frame-IsBytes (suc (suc (suc (suc i)))) = omega arith

convert_sample-top_example : convert_sample milli (some frame) wide ≡ signed 16 (top_bytes frame 4)
convert_sample-top_example = convert_sample-top milli frame wide frame-IsBytes refl (inr (inr refl))
