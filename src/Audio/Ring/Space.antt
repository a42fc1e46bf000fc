-- ===== src/Audio/Ring/Space.antt =====
-- `PrepareWrite` and its loop.
use low_latency_capture_view.Common.{
  ℕ, zero, suc, ◌+◌, ◌-◌, ◌*◌, ◌%◌, ◌≤◌, ◌<◌, ◌≡◌, refl, min, sym, ap, inl, inr, Bool, true, false,
  arith, ltb, lt→ltb, le→ltb_false, length,
}
use low_latency_capture_view.Common.Cyclic.{lt_or_le}
use native.Mathlib.Nat.{mod-eq_of_lt}
use low_latency_capture_view.Audio.Ring.{
  Ring, Observer, answers, count_overrun, drop_oldest, make_space,
}

pub record IsValid {ℓ} {A : Type ℓ} (r : Ring A) : Type 0 where
  pub has_capacity : 0 < r.capacity_frames
  pub has_channels : 0 < r.channels
  pub sized : length r.samples ≡ r.capacity_frames * r.channels
  pub read_inside : r.read_frame < r.capacity_frames
  pub available_fits : r.available ≤ r.capacity_frames
  pub write_follows : r.write_frame ≡ (r.read_frame + r.available) % r.capacity_frames

-- `r'` is `r` without its oldest frames, as many as make room for `frames`.
pub record Dropped {ℓ} {A : Type ℓ} (frames : ℕ) (r r' : Ring A) : Type ℓ where
  pub kept : r'.available ≡ r.available - (r.available + frames - r.capacity_frames)
  pub moved :
      r'.read_frame
      ≡ (r.read_frame + (r.available + frames - r.capacity_frames)) % r.capacity_frames
  pub same_samples : r'.samples ≡ r.samples
  pub same_channels : r'.channels ≡ r.channels
  pub same_capacity : r'.capacity_frames ≡ r.capacity_frames
  pub same_write : r'.write_frame ≡ r.write_frame

module _ {ℓ} {A : Type ℓ} (frames : ℕ) where
  -- Counting an overrun changes the counter alone.
  count_overrun-Dropped :
      (seen : Bool) (r r' : Ring A) → Dropped frames r r' → Dropped frames r (count_overrun seen r')
  unfolding count_overrun
  count_overrun-Dropped true r r' d = record {
    kept = d.kept;
    moved = d.moved;
    same_samples = d.same_samples;
    same_channels = d.same_channels;
    same_capacity = d.same_capacity;
    same_write = d.same_write;
  }
  count_overrun-Dropped false r r' d = d

  drop_oldest-Dropped :
      (o : Observer) (r : Ring A)
      → frames ≤ r.capacity_frames
      → Dropped frames r (drop_oldest o frames r)
  unfolding drop_oldest
  drop_oldest-Dropped o r f =
      let extra = r.available + frames - r.capacity_frames in
      let few : min extra r.available ≡ extra = omega arith in
      count_overrun-Dropped (answers o (min extra r.available)) r _ (record {
        kept = ap (λ t. r.available - t) few;
        moved = ap (λ t. (r.read_frame + t) % r.capacity_frames) few;
        same_samples = refl;
        same_channels = refl;
        same_capacity = refl;
        same_write = refl;
      })

  Dropped-refl :
      (r : Ring A) → IsValid r → r.available + frames ≤ r.capacity_frames → Dropped frames r r
  Dropped-refl r v h = record {
    kept = omega arith;
    moved =
        let none_over : r.available + frames - r.capacity_frames ≡ 0 = omega arith in
        let stays : r.read_frame + 0 ≡ r.read_frame = omega arith in
        rw (none_over, stays) (sym (mod-eq_of_lt v.read_inside));
    same_samples = refl;
    same_channels = refl;
    same_capacity = refl;
    same_write = refl;
  }

  -- With more than one round of fuel, on a valid ring and for no more frames than it holds: the loop
  -- drops the oldest frames, as many as make room for `frames`, and leaves the samples, the channels,
  -- the capacity and the write position as they are.
  pub make_space-Dropped :
      (o : Observer) (fuel : ℕ) (r : Ring A)
      → 1 < fuel
      → IsValid r
      → frames ≤ r.capacity_frames
      → Dropped frames r (make_space fuel o frames r)
  unfolding make_space
  make_space-Dropped o zero r h v f = absurd (omega arith)
  make_space-Dropped o (suc zero) r h v f = absurd (omega arith)
  make_space-Dropped o (suc (suc fuel)) r h v f =
      let d = drop_oldest-Dropped o r f in
      elim (lt_or_le r.capacity_frames (r.available + frames)) [
        | inl over ↦ rw (lt→ltb _ _ over) (rw (fits d over) d)
        | inr room ↦ rw (le→ltb_false _ _ room) (Dropped-refl r v room)
      ]
    where
      fits :
          {r' : Ring A}
          → Dropped frames r r'
          → r.capacity_frames < r.available + frames
          → ltb r'.capacity_frames (r'.available + frames) ≡ false
      fits d over = le→ltb_false _ _ (omega (arith, d.kept, d.same_capacity, v.available_fits))
