-- ===== src/Audio/Ring/Mailbox.antt =====
-- The promise of PcmRing: a mailbox of bounded length that forgets its oldest frames first.
use low_latency_capture_view.Common.{
  ℕ, zero, suc, ◌*◌, ◌≤◌, ◌≡◌, refl, sym, ap, ◌∙◌, inl, inr, List, [], ◌∷◌, ◌++◌, arith, length,
  take, drop, Bool, true, false, Option, none, some, append-nil, ◌==◌, Bool-cases, suc-ne-zero,
}
use low_latency_capture_view.Common.Arrays.{window}
use low_latency_capture_view.Common.Cyclic.{lt_or_le, cell}
use native.Mathlib.Nat.{mod-eq_of_lt, mul-le-mul_right}
use mathlib.Core.Path.{ap₂}
use low_latency_capture_view.Audio.Ring.{Ring, Observer, push, pop, clear}
use low_latency_capture_view.Audio.Ring.Space.{IsValid}
use low_latency_capture_view.Audio.Ring.View.{contents, length-contents}
use low_latency_capture_view.Audio.Ring.View.Pop.{pop-contents, pop-IsValid}
use low_latency_capture_view.Audio.Ring.View.Calls.{
  keep_last, push_small-contents, push_large-contents, push_samples-IsValid, push_samples-shape,
}

-- One call by the capture thread, the renderer or a restart.
pub data Call {ℓ} (A : Type ℓ) : Type ℓ where
  pushes : Observer → Option (List A) → ℕ → Call A
  pops : Bool → ℕ → Call A
  clears : Call A

-- The samples that the caller promises to have behind its pointer.
abbrev pub IsBacked {ℓ} : {A : Type ℓ} → ℕ → Call A → Type 0
IsBacked channels (pushes o none frames) = Unit {0}
IsBacked channels (pushes o (some s) frames) = frames * channels ≤ length s
IsBacked channels (pops valid frames) = Unit {0}
IsBacked channels clears = Unit {0}

abbrev pub AllBacked {ℓ} : {A : Type ℓ} → ℕ → List (Call A) → Type 0
AllBacked channels [] = Unit {0}
AllBacked channels (c ∷ cs) = IsBacked channels c × AllBacked channels cs

module _ {ℓ} {A : Type ℓ} where
  -- The ring after a call, and the samples that the call copied out.
  pub step : Ring A → Call A → Ring A × List A
  step r (pushes o s frames) = (push o s frames r, [])
  step r (pops valid frames) = ((pop valid frames r).2, (pop valid frames r).1)
  step r clears = (clear r, [])

  pub run : Ring A → List (Call A) → Ring A × List (List A)
  run r [] = (r, [])
  run r (c ∷ cs) = let (r', out) = step r c in let (last, outs) = run r' cs in (last, out ∷ outs)

  -- The same calls on a plain list of at most `limit` samples.
  pub serve : ℕ → ℕ → List A → Call A → List A × List A
  serve limit channels q (pushes o none frames) = (q, [])
  serve limit channels q (pushes o (some s) frames) =
      (keep_last limit (q ++ take (frames * channels) s), [])
  serve limit channels q (pops false frames) = (q, [])
  serve limit channels q (pops true frames) =
      (drop (frames * channels) q, take (frames * channels) q)
  serve limit channels q clears = ([], [])

  pub serve_all : ℕ → ℕ → List A → List (Call A) → List A × List (List A)
  serve_all limit channels q [] = (q, [])
  serve_all limit channels q (c ∷ cs) =
      let (q', out) = serve limit channels q c in
      let (last, outs) = serve_all limit channels q' cs in (last, out ∷ outs)

module _ {ℓ} {A : Type ℓ} (z : A) where
  push-contents :
      (o : Observer) (s : List A) (frames : ℕ) (r : Ring A)
      → IsValid r
      → frames * r.channels ≤ length s
      → contents z (push o (some s) frames r)
        ≡ keep_last (r.capacity_frames * r.channels) (contents z r ++ take (frames * r.channels) s)
  unfolding push
  push-contents o s zero r v l =
      let nothing : 0 * r.channels ≡ 0 = omega arith in
      let fits : r.available * r.channels ≤ r.capacity_frames * r.channels =
        mul-le-mul_right r.channels v.available_fits in
      rw (nothing, append-nil (contents z r))
        (ap (λ t. drop t (contents z r)) {x = 0} (omega (arith, length-contents z r)))
  push-contents o s (suc n) r v l = rw (suc-ne-zero n) (elim (lt_or_le (suc n) r.capacity_frames) [
    | inl few ↦ push_small-contents z o s (suc n) r v few (omega arith) l
    | inr many ↦ push_large-contents z o s (suc n) r v many l
  ])

  -- Every call on a valid ring, whatever its arguments are, leaves a valid ring.
  pub step-IsValid : (r : Ring A) (c : Call A) → IsValid r → IsValid (step r c).0
  unfolding step push clear
  step-IsValid r (pushes o none frames) v = v
  step-IsValid r (pushes o (some s) frames) v = elim (Bool-cases (frames == 0)) [
    | inl e ↦ rw e v
    | inr e ↦ rw e (push_samples-IsValid z o s frames r v)
  ]
  step-IsValid r (pops valid frames) v = pop-IsValid z valid frames r v
  step-IsValid r clears v = record {
    has_capacity = v.has_capacity;
    has_channels = v.has_channels;
    sized = v.sized;
    read_inside = v.has_capacity;
    available_fits = omega arith;
    write_follows = sym (mod-eq_of_lt v.has_capacity);
  }

  -- No call changes the number of channels or the capacity.
  step-shape :
      (r : Ring A) (c : Call A)
      → IsValid r
      → ((step r c).0.channels ≡ r.channels) × ((step r c).0.capacity_frames ≡ r.capacity_frames)
  unfolding step push pop clear
  step-shape r (pushes o none frames) v = (refl, refl)
  step-shape r (pushes o (some s) frames) v = elim (Bool-cases (frames == 0)) [
    | inl e ↦ rw e (refl, refl)
    | inr e ↦ rw e (push_samples-shape z o s frames r v)
  ]
  step-shape r (pops false frames) v = (refl, refl)
  step-shape r (pops true frames) v = elim (Bool-cases (frames == 0)) [
    | inl e ↦ rw e (refl, refl)
    | inr e ↦ rw e (refl, refl)
  ]
  step-shape r clears v = (refl, refl)

  abbrev limit : Ring A → ℕ
  limit r = r.capacity_frames * r.channels

  -- One call does to the ring what it does to the plain list.
  step-serve :
      (r : Ring A) (c : Call A)
      → IsValid r
      → IsBacked r.channels c
      → (contents z (step r c).0 ≡ (serve (limit r) r.channels (contents z r) c).0)
        × ((step r c).1 ≡ (serve (limit r) r.channels (contents z r) c).1)
  unfolding step serve
  step-serve r (pushes o none frames) v b = unfold push in (refl, refl)
  step-serve r (pushes o (some s) frames) v b = (push-contents o s frames r v b, refl)
  step-serve r (pops false frames) v b = unfold pop in (refl, refl)
  step-serve r (pops true frames) v b =
      ((pop-contents z frames r v).1, (pop-contents z frames r v).0)
  step-serve r clears v b =
      unfold clear contents in
      (
        ap (window (cell z r.samples (limit r)) (0 * r.channels)) {x = 0 * r.channels} {y = 0}
            (omega arith),
        refl,
      )

  -- Any sequence of pushes, pops and clears, on a valid ring and with the samples the callers promise:
  -- each call copies out, and leaves behind, what it would on a plain list that keeps the newest
  -- samples up to the capacity of the ring.
  pub run-serve :
      (cs : List (Call A)) (r : Ring A)
      → IsValid r
      → AllBacked r.channels cs
      → (contents z (run r cs).0 ≡ (serve_all (limit r) r.channels (contents z r) cs).0)
        × ((run r cs).1 ≡ (serve_all (limit r) r.channels (contents z r) cs).1)
  unfolding run serve_all
  run-serve [] r v b = (refl, refl)
  run-serve (c ∷ cs) r v (b, bs) =
      let r' = (step r c).0 in
      let shape = step-shape r c v in
      let now = step-serve r c v b in
      let later = run-serve cs r' (step-IsValid r c v) (rw shape.0 bs) in
      let same : serve_all (limit r') r'.channels (contents z r') cs
          ≡ serve_all (limit r) r.channels (serve (limit r) r.channels (contents z r) c).0 cs =
        rw (shape.0, shape.1, now.0) refl in
      (later.0 ∙ ap (λ t. t.0) same, ap₂ ◌∷◌ now.1 (later.1 ∙ ap (λ t. t.1) same))
