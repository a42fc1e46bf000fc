-- ===== src/Audio/Ring/View/Calls.antt =====
-- Each call of the ring against the list of samples that wait in it.
use low_latency_capture_view.Common.{
  ℕ, ◌+◌, ◌-◌, ◌*◌, ◌≤◌, ◌<◌, ◌≡◌, refl, sym, ap, ◌∙◌, inl, inr, List, [], ◌++◌, arith, length,
  length-take, length-drop, length-append, take, drop, Bool, true, false, not, ◌&&◌, lt→leb_false,
  le→leb, ◌==◌,
}
use low_latency_capture_view.Common.Arrays.{drop-append, drop-append_over, window, drop-take}
use low_latency_capture_view.Common.Cyclic.{lt_or_le, sub-mul, cell}
use native.Mathlib.Nat.{mod-eq_of_lt, add-mul, mul-le-mul_right}
use mathlib.Core.Path.{ap₂}
use low_latency_capture_view.Audio.Ring.{
  Ring, Observer, answers, count_overrun, make_space, space_fuel, prepare_write, write_spans,
  push_samples,
}
use low_latency_capture_view.Audio.Ring.Space.{IsValid, Dropped, make_space-Dropped}
use low_latency_capture_view.Audio.Ring.View.{
  contents, length-contents, Dropped-IsValid, Dropped-contents, write_spans-IsValid,
  write_spans-contents,
}

-- The last `n` of a list.
abbrev pub keep_last {ℓ} : {A : Type ℓ} → ℕ → List A → List A
keep_last n l = drop (length l - n) l

abbrev pub flushed {ℓ} : {A : Type ℓ} → Ring A → Ring A
flushed r = record r { read_frame = 0; write_frame = 0; available = 0 }

module _ {ℓ} {A : Type ℓ} (o : Observer) (s : List A) (frames : ℕ) (r : Ring A) where
  pub push_samples_small :
      frames < r.capacity_frames
      → push_samples o s frames r ≡ write_spans s frames (make_space space_fuel o frames r)
  unfolding push_samples prepare_write
  push_samples_small h = rw (lt→leb_false r.capacity_frames frames h)

  abbrev pub all_dropped : Ring A
  all_dropped =
      let dropped = r.available + (frames - r.capacity_frames) in
      count_overrun (not (dropped == 0) && answers o dropped) (flushed r)

  pub push_samples_large :
      r.capacity_frames ≤ frames
      → push_samples o s frames r
        ≡ write_spans
            (drop ((frames - r.capacity_frames) * r.channels) s)
            r.capacity_frames
            all_dropped
  unfolding push_samples prepare_write
  push_samples_large h = rw (le→leb r.capacity_frames frames h)

module _ {ℓ} {A : Type ℓ} (z : A) where
  pub flushed-IsValid :
      (seen : Bool) (r : Ring A) → IsValid r → IsValid (count_overrun seen (flushed r))
  unfolding count_overrun
  flushed-IsValid true r v = record {
    has_capacity = v.has_capacity;
    has_channels = v.has_channels;
    sized = v.sized;
    read_inside = v.has_capacity;
    available_fits = omega arith;
    write_follows = sym (mod-eq_of_lt v.has_capacity);
  }
  flushed-IsValid false r v = record {
    has_capacity = v.has_capacity;
    has_channels = v.has_channels;
    sized = v.sized;
    read_inside = v.has_capacity;
    available_fits = omega arith;
    write_follows = sym (mod-eq_of_lt v.has_capacity);
  }

  pub flushed-contents :
      (seen : Bool) (r : Ring A) → contents z (count_overrun seen (flushed r)) ≡ []
  unfolding contents count_overrun
  flushed-contents true r =
      ap (window (cell z r.samples (r.capacity_frames * r.channels)) (0 * r.channels))
        {x = 0 * r.channels} {y = 0} (omega arith)
  flushed-contents false r =
      ap (window (cell z r.samples (r.capacity_frames * r.channels)) (0 * r.channels))
        {x = 0 * r.channels} {y = 0} (omega arith)

  -- The fields that a flush, counted or not, leaves as they were.
  pub flushed-fields :
      (seen : Bool) (r : Ring A)
      → ((count_overrun seen (flushed r)).available ≡ 0)
        × ((count_overrun seen (flushed r)).capacity_frames ≡ r.capacity_frames)
        × ((count_overrun seen (flushed r)).channels ≡ r.channels)
  unfolding count_overrun
  flushed-fields true r = (refl, refl, refl)
  flushed-fields false r = (refl, refl, refl)

  -- What stays behind, of a list that ends in `frames` new frames.
  keep_last-contents :
      (r : Ring A) (new : List A) (frames : ℕ)
      → length new ≡ frames * r.channels
      → keep_last (r.capacity_frames * r.channels) (contents z r ++ new)
        ≡ drop ((r.available + frames - r.capacity_frames) * r.channels) (contents z r ++ new)
  keep_last-contents r new frames e =
      ap (λ t. drop (t - r.capacity_frames * r.channels) (contents z r ++ new))
        (length-append (contents z r) new
          ∙ ap₂ ◌+◌ (length-contents z r) e
          ∙ sym (add-mul r.available frames r.channels))
      ∙ ap (λ t. drop t (contents z r ++ new))
          (sym (sub-mul (r.available + frames) r.capacity_frames r.channels))

  module _ (o : Observer) (s : List A) (frames : ℕ) (r : Ring A) (v : IsValid r) where
    module _ (few : frames < r.capacity_frames) where
      pub made_space : Dropped frames r (make_space space_fuel o frames r)
      made_space = make_space-Dropped frames o space_fuel r (omega arith) v (omega arith)

      pub spaced-IsValid : IsValid (make_space space_fuel o frames r)
      spaced-IsValid = Dropped-IsValid z frames r _ v made_space (omega arith)

      pub has_room :
          (make_space space_fuel o frames r).available + frames
          ≤ (make_space space_fuel o frames r).capacity_frames
      has_room = omega (arith, made_space.kept, made_space.same_capacity, v.available_fits)

      pub push_small-contents :
          0 < frames
          → frames * r.channels ≤ length s
          → contents z (push_samples o s frames r)
            ≡ keep_last
                (r.capacity_frames * r.channels)
                (contents z r ++ take (frames * r.channels) s)
      push_small-contents p l =
          ap (contents z) (push_samples_small o s frames r few)
          ∙ write_spans-contents z s frames _ spaced-IsValid p has_room
              (omega (arith, ap (λ t. frames * t) made_space.same_channels, l))
          ∙ ap₂ (λ a c. a ++ take (frames * c) s)
              (Dropped-contents z frames r _ v made_space (omega arith)) made_space.same_channels
          ∙ sym (
              drop-append _ (contents z r) (take (frames * r.channels) s) (
                rw (length-contents z r)
                  (mul-le-mul_right r.channels (omega (arith, v.available_fits)))))
          ∙ sym (
              keep_last-contents r (take (frames * r.channels) s) frames
                (length-take (frames * r.channels) s ∙ omega arith))

    -- A burst as long as the ring leaves its own newest frames alone.
    pub push_large-contents :
        r.capacity_frames ≤ frames
        → frames * r.channels ≤ length s
        → contents z (push_samples o s frames r)
          ≡ keep_last
              (r.capacity_frames * r.channels)
              (contents z r ++ take (frames * r.channels) s)
    push_large-contents many l =
        ap (contents z) (push_samples_large o s frames r many)
        ∙ write_spans-contents z (drop (extra * r.channels) s) r.capacity_frames _
            (flushed-IsValid seen r v) v.has_capacity (omega (arith, same.0, same.1))
            (rw same.2 (omega (arith, length-drop (extra * r.channels) s, l, parts)))
        ∙ ap₂ (λ a c. a ++ take (r.capacity_frames * c) (drop (extra * r.channels) s))
            (flushed-contents seen r) same.2
        ∙ ap (λ t. take t (drop (extra * r.channels) s)) (omega (arith, parts))
        ∙ sym (drop-take (extra * r.channels) (frames * r.channels) s)
        ∙ ap (λ t. drop t (take (frames * r.channels) s)) (omega (arith, length-contents z r, over))
        ∙ sym (
            drop-append_over ((r.available + frames - r.capacity_frames) * r.channels)
              (contents z r) (take (frames * r.channels) s)
              (omega (arith, length-contents z r, over)))
        ∙ sym (
            keep_last-contents r (take (frames * r.channels) s) frames
              (length-take (frames * r.channels) s ∙ omega arith))
      where
        extra : ℕ
        extra = frames - r.capacity_frames

        seen : Bool
        seen = not (r.available + extra == 0) && answers o (r.available + extra)

        same :
            ((count_overrun seen (flushed r)).available ≡ 0)
            × ((count_overrun seen (flushed r)).capacity_frames ≡ r.capacity_frames)
            × ((count_overrun seen (flushed r)).channels ≡ r.channels)
        same = flushed-fields seen r

        parts : extra * r.channels + r.capacity_frames * r.channels ≡ frames * r.channels
        parts =
            sym (add-mul extra r.capacity_frames r.channels)
            ∙ ap (λ t. t * r.channels) (omega arith)

        over :
            (r.available + frames - r.capacity_frames) * r.channels
            ≡ r.available * r.channels + extra * r.channels
        over =
            ap (λ t. t * r.channels) {y = r.available + extra} (omega arith)
            ∙ add-mul r.available extra r.channels

  pub push_samples-IsValid :
      (o : Observer) (s : List A) (frames : ℕ) (r : Ring A)
      → IsValid r
      → IsValid (push_samples o s frames r)
  push_samples-IsValid o s frames r v = elim (lt_or_le frames r.capacity_frames) [
    | inl few ↦ rw (push_samples_small o s frames r few) (
        write_spans-IsValid z s frames _ (spaced-IsValid o s frames r v few)
          (has_room o s frames r v few))
    | inr many ↦ rw (push_samples_large o s frames r many) (
        write_spans-IsValid z _ r.capacity_frames _ (flushed-IsValid _ r v)
          (omega (arith, flushed-fields _ r)))
  ]

  -- The shape of a ring never changes under `Push`.
  pub push_samples-shape :
      (o : Observer) (s : List A) (frames : ℕ) (r : Ring A)
      → IsValid r
      → ((push_samples o s frames r).channels ≡ r.channels)
        × ((push_samples o s frames r).capacity_frames ≡ r.capacity_frames)
  unfolding write_spans
  push_samples-shape o s frames r v = elim (lt_or_le frames r.capacity_frames) [
    | inl few ↦
        let d = made_space o s frames r v few in
        rw (push_samples_small o s frames r few) (d.same_channels, d.same_capacity)
    | inr many ↦
        rw (push_samples_large o s frames r many) ((flushed-fields _ r).2, (flushed-fields _ r).1)
  ]
