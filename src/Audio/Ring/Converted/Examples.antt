-- ===== src/Audio/Ring/Converted/Examples.antt =====
-- `PushConverted` at a concrete input.
use low_latency_capture_view.Common.{
  ℕ, ◌≡◌, refl, inl, true, false, List, [], ◌∷◌, none, some, arith, get_or,
}
use low_latency_capture_view.Common.Int.{ℤ, pos}
use low_latency_capture_view.Audio.Formats.{Encoding, OutputPath, Format}
use low_latency_capture_view.Audio.Formats.Convert.{Floats}
use low_latency_capture_view.Audio.Ring.{Ring, push}
use low_latency_capture_view.Audio.Ring.Space.{IsValid}
use low_latency_capture_view.Audio.Ring.View.{contents}
use low_latency_capture_view.Audio.Ring.Converted.{push_converted}
use low_latency_capture_view.Audio.Ring.Converted.Frames.{all_frames}
use low_latency_capture_view.Audio.Ring.Mailbox.{pops}
use low_latency_capture_view.Audio.Ring.Converted.Histories.{
  Change, plainly, converting, configuring, changes, changes-IsValid,
}
use low_latency_capture_view.Audio.Ring.Converted.Pushes.{push_converted-push}

abbrev no_floats : Floats
no_floats = record {
  Float = ℕ;
  read_float = λ b. get_or b 0 0;
  is_finite = λ x. false;
  at_least_one = λ x. false;
  at_most_minus_one = λ x. false;
  scaled = λ x. pos 0;
  fold = λ a b. a;
}

-- Mono, 24 bits.
abbrev mono : Format
mono = record {
  encoding = Encoding.integer_pcm;
  path = OutputPath.convert_to_16_bit_stereo;
  container_bits = 24;
  valid_bits = 24;
  channels = 1;
  block_align = 3;
  channel_mask = 0;
}

abbrev source : List ℕ
source = 1 ∷ 2 ∷ 3 ∷ 4 ∷ 5 ∷ 6 ∷ 7 ∷ 8 ∷ 9 ∷ []

-- Two frames of room, one of them taken.
abbrev ring : Ring ℤ
ring = record {
  channels = 2;
  capacity_frames = 2;
  samples = pos 10 ∷ pos 11 ∷ pos 12 ∷ pos 13 ∷ [];
  read_frame = 1;
  write_frame = 0;
  available = 1;
  overruns = 0;
  published_frames = none;
}

ring-IsValid : IsValid ring
ring-IsValid = record {
  has_capacity = omega arith;
  has_channels = omega arith;
  sized = refl;
  read_inside = omega arith;
  available_fits = omega arith;
  write_follows = refl;
}

push_converted-push_example :
    contents (pos 0) (push_converted no_floats mono none (some source) 3 ring)
    ≡ contents (pos 0) (push none (some (all_frames no_floats mono 2 source 0 3)) 3 ring)
push_converted-push_example =
    push_converted-push (pos 0) no_floats mono none source 3 ring (inl refl) ring-IsValid
      (omega arith) refl

-- Too much at once, a pop, a refused number of channels, and another layout.
abbrev every_call : List Change
every_call =
    converting mono none (some source) 3
    ∷ plainly (pops true 1)
    ∷ configuring 3
    ∷ configuring 6
    ∷ converting mono none (some source) 1
    ∷ []

changes-IsValid_example : IsValid (changes no_floats ring every_call)
changes-IsValid_example = changes-IsValid no_floats every_call ring ring-IsValid
