-- ===== src/Audio/Ring/Setup.antt =====
-- The constructor of PcmRing and `ConfigureChannels`.
use low_latency_capture_view.Common.{
  ℕ, ◌*◌, ◌<◌, ◌≡◌, ◌≢◌, refl, sym, ap, max, [], arith, ◌⊎◌, inl, inr, Option, none, some,
  Bool-cases, ◌==◌, length-replicate, replicate,
}
use low_latency_capture_view.Common.Arrays.{window}
use low_latency_capture_view.Common.Cyclic.{cell}
use native.Mathlib.Nat.{mod-eq_of_lt}
use low_latency_capture_view.Audio.Ring.{Ring, create, configure_channels, publish_available}
use low_latency_capture_view.Audio.Ring.Space.{IsValid}
use low_latency_capture_view.Audio.Ring.View.{contents}

module _ {ℓ} {A : Type ℓ} (z : A) where
  pub create-IsValid : (capacity : ℕ) (published : Option ℕ) → IsValid (create z capacity published)
  unfolding create
  create-IsValid capacity published = record {
    has_capacity = omega arith;
    has_channels = omega arith;
    sized = length-replicate (max 1 capacity * 2) z;
    read_inside = omega arith;
    available_fits = omega arith;
    write_follows = sym (mod-eq_of_lt {n = 0} {m = max 1 capacity} (omega arith));
  }

  abbrev configured : ℕ → Ring A → Ring A
  configured n r = publish_available (record r {
    samples = replicate (r.capacity_frames * n) z;
    channels = n;
    read_frame = 0;
    write_frame = 0;
    available = 0;
  })

  configured-IsValid : (n : ℕ) (r : Ring A) → 0 < n → IsValid r → IsValid (configured n r)
  unfolding publish_available
  configured-IsValid n r p v = record {
    has_capacity = v.has_capacity;
    has_channels = p;
    sized = length-replicate (r.capacity_frames * n) z;
    read_inside = v.has_capacity;
    available_fits = omega arith;
    write_follows = sym (mod-eq_of_lt v.has_capacity);
  }

  configured-contents : (n : ℕ) (r : Ring A) → contents z (configured n r) ≡ []
  unfolding publish_available contents
  configured-contents n r =
      ap (window (cell z (replicate (r.capacity_frames * n) z) (r.capacity_frames * n)) (0 * n))
        {x = 0 * n} {y = 0} (omega arith)

  -- What a successful call leaves: an empty valid ring of that many channels.
  pub record IsConfigured (n : ℕ) (r t : Ring A) : Type ℓ where
    pub valid : IsValid t
    pub channelled : t.channels ≡ n
    pub as_large : t.capacity_frames ≡ r.capacity_frames
    pub emptied : contents z t ≡ []

  is_configured : (n : ℕ) (r : Ring A) → IsValid r → 0 < n → IsConfigured n r (configured n r)
  unfolding publish_available
  is_configured n r v p = record {
    valid = configured-IsValid n r p v;
    channelled = refl;
    as_large = refl;
    emptied = configured-contents n r;
  }

  pub data ConfigureResult (n : ℕ) (r : Ring A) : Option (Ring A) → Type ℓ where
    taken : {t : Ring A} → (n ≡ 2) ⊎ (n ≡ 6) → IsConfigured n r t → ConfigureResult n r (some t)
    thrown : n ≢ 2 → n ≢ 6 → ConfigureResult n r none

  -- On a valid ring: 2 and 6 channels are accepted, and leave an empty valid ring of that many channels
  -- and as many frames; every other number is refused.
  pub configure_channels-ConfigureResult :
      (n : ℕ) (r : Ring A) → IsValid r → ConfigureResult n r (configure_channels z n r)
  unfolding configure_channels
  configure_channels-ConfigureResult n r v = elim (Bool-cases (n == 2)) [
    | inl e ↦
        let two : n ≡ 2 = ground arith in rw e (taken (inl two) (is_configured n r v (omega arith)))
    | inr e ↦ elim (Bool-cases (n == 6)) [
      | inl f ↦
          let six : n ≡ 6 = ground arith in
          rw (e, f) (taken (inr six) (is_configured n r v (omega arith)))
      | inr f ↦ rw (e, f) (thrown (ground arith) (ground arith))
    ]
  ]
