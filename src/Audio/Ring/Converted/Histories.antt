-- ===== src/Audio/Ring/Converted/Histories.antt =====
-- All calls that change a ring of integer samples, in any order.
use low_latency_capture_view.Common.{
  ℕ, zero, suc, ◌+◌, ◌%◌, ◌≤◌, ◌≡◌, refl, ap, ◌∙◌, ◌||◌, inl, inr, List, [], ◌∷◌, Option, none,
  some, ◌==◌, length, arith, Bool-cases,
}
use low_latency_capture_view.Common.Arrays.{length-blit}
use low_latency_capture_view.Common.Cyclic.{lt_or_le}
use low_latency_capture_view.Common.Int.{ℤ, pos}
use native.Mathlib.Nat.{mod-add-mod}
use low_latency_capture_view.Audio.Formats.{Format}
use low_latency_capture_view.Audio.Formats.Convert.{Floats}
use low_latency_capture_view.Audio.Ring.{
  Ring, Observer, configure_channels, make_space, space_fuel, publish_available,
}
use low_latency_capture_view.Audio.Ring.Space.{IsValid}
use low_latency_capture_view.Audio.Ring.Setup.{
  ConfigureResult, taken, thrown, configure_channels-ConfigureResult,
}
use low_latency_capture_view.Audio.Ring.View.Calls.{
  all_dropped, spaced-IsValid, has_room, flushed-IsValid, flushed-fields,
}
use low_latency_capture_view.Audio.Ring.Mailbox.{Call, step, step-IsValid}
use low_latency_capture_view.Audio.Ring.Converted.{
  write_frames, push_frames, push_converted, other_layout,
}
use low_latency_capture_view.Audio.Ring.Converted.Frames.{moved_on}
use low_latency_capture_view.Audio.Ring.Converted.Pushes.{push_frames_few, push_frames_many}

-- A call of `Push`, `Pop` or `Clear`, of `PushConverted`, or of `ConfigureChannels`.
pub data Change : Type 0 where
  plainly : Call ℤ → Change
  converting : Format → Observer → Option (List ℕ) → ℕ → Change
  configuring : ℕ → Change

-- An exception leaves the ring as it was.
abbrev unless_thrown : Ring ℤ → Option (Ring ℤ) → Ring ℤ
unless_thrown r none = r
unless_thrown r (some t) = t

moved-IsValid :
    (r : Ring ℤ) (n : ℕ) (s : List ℤ)
    → IsValid r
    → r.available + n ≤ r.capacity_frames
    → length s ≡ length r.samples
    → IsValid (publish_available (moved_on n (record r { samples = s })))
unfolding publish_available
moved-IsValid r n s v h e = record {
  has_capacity = v.has_capacity;
  has_channels = v.has_channels;
  sized = e ∙ v.sized;
  read_inside = v.read_inside;
  available_fits = h;
  write_follows =
      ap (λ t. (t + n) % r.capacity_frames) v.write_follows
      ∙ mod-add-mod (r.read_frame + r.available) r.capacity_frames n
      ∙ ap (λ t. t % r.capacity_frames) (omega arith);
}

-- What the loop may change.
data SamplesOnly (r : Ring ℤ) : Ring ℤ → Type 0 where
  samples_only :
      (s : List ℤ) → length s ≡ length r.samples → SamplesOnly r (record r { samples = s })

module _ (floats : Floats) where
  write_frames-SamplesOnly :
      (f : Format) (n i : ℕ) (source : List ℕ) (r before : Ring ℤ)
      → SamplesOnly before r
      → SamplesOnly before (write_frames floats f n i source r)
  unfolding write_frames
  write_frames-SamplesOnly f zero i source r before h = h
  write_frames-SamplesOnly f (suc n) i source r before (samples_only s e) =
      write_frames-SamplesOnly f n (i + 1) source _ before (samples_only _ (length-blit s _ _ ∙ e))

  written-IsValid :
      {r r' : Ring ℤ} (n : ℕ)
      → SamplesOnly r r'
      → IsValid r
      → r.available + n ≤ r.capacity_frames
      → IsValid (publish_available (moved_on n r'))
  written-IsValid {r} n (samples_only s e) v h = moved-IsValid r n s v h e

  same_samples : (r : Ring ℤ) → SamplesOnly r r
  same_samples r = samples_only r.samples refl

  push_frames-IsValid :
      (f : Format) (o : Observer) (source : List ℕ) (frames : ℕ) (r : Ring ℤ)
      → IsValid r
      → IsValid (push_frames floats f o source frames r)
  push_frames-IsValid f o source frames r v = elim (lt_or_le frames r.capacity_frames) [
    | inl few ↦
        let r' = make_space space_fuel o frames r in
        rw (push_frames_few (pos 0) floats f o source frames r few) (
          written-IsValid frames
            (write_frames-SamplesOnly f frames 0 source r' r' (same_samples r'))
            (spaced-IsValid (pos 0) o [] frames r v few) (has_room (pos 0) o [] frames r v few))
    | inr many ↦
        let r' = all_dropped o [] frames r in
        rw (push_frames_many (pos 0) floats f o source frames r many) (
          written-IsValid r.capacity_frames
            (write_frames-SamplesOnly f r.capacity_frames 0 _ r' r' (same_samples r'))
            (flushed-IsValid (pos 0) _ r v) (omega (arith, flushed-fields (pos 0) _ r)))
  ]

  push_converted-IsValid :
      (f : Format) (o : Observer) (source : Option (List ℕ)) (frames : ℕ) (r : Ring ℤ)
      → IsValid r
      → IsValid (push_converted floats f o source frames r)
  unfolding push_converted
  push_converted-IsValid f o none frames r v = v
  push_converted-IsValid f o (some source) frames r v =
      elim (Bool-cases (frames == 0 || f.block_align == 0)) [
        | inl e ↦ rw e v
        | inr e ↦ elim (Bool-cases (other_layout f r)) [
          | inl h ↦ rw (e, h) v
          | inr h ↦ rw (e, h) (push_frames-IsValid f o source frames r v)
        ]
      ]

  configured-IsValid :
      (n : ℕ) (r : Ring ℤ) {t : Option (Ring ℤ)}
      → IsValid r
      → ConfigureResult (pos 0) n r t
      → IsValid (unless_thrown r t)
  configured-IsValid n r v (taken c i) = i.valid
  configured-IsValid n r v (thrown a b) = v

  abbrev pub change : Ring ℤ → Change → Ring ℤ
  change r (plainly c) = (step r c).0
  change r (converting f o source frames) = push_converted floats f o source frames r
  change r (configuring n) = unless_thrown r (configure_channels (pos 0) n r)

  abbrev pub changes : Ring ℤ → List Change → Ring ℤ
  changes r [] = r
  changes r (c ∷ cs) = changes (change r c) cs

  change-IsValid : (r : Ring ℤ) (c : Change) → IsValid r → IsValid (change r c)
  change-IsValid r (plainly c) v = step-IsValid (pos 0) r c v
  change-IsValid r (converting f o source frames) v = push_converted-IsValid f o source frames r v
  change-IsValid r (configuring n) v =
      configured-IsValid n r v (configure_channels-ConfigureResult (pos 0) n r v)

  -- Any calls of `Push`, `Pop`, `Clear`, `PushConverted` and `ConfigureChannels` in any order, whatever
  -- their arguments are, with any arithmetic of floats, leave a valid ring valid: its positions lie in
  -- its capacity and go with the number of waiting frames, and its samples with its channels.
  pub changes-IsValid : (cs : List Change) (r : Ring ℤ) → IsValid r → IsValid (changes r cs)
  changes-IsValid [] r v = v
  changes-IsValid (c ∷ cs) r v = changes-IsValid cs (change r c) (change-IsValid r c v)
