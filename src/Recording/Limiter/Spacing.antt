-- ===== src/Recording/Limiter/Spacing.antt =====
-- How many frames the limiter keeps, and which it never drops.
use low_latency_capture_view.Common.{
  ℕ, suc, ◌+◌, ◌-◌, ◌*◌, ◌/◌, ◌≤◌, ◌<◌, ◌≡◌, refl, ap, ◌∙◌, max, ltb, Bool, true, false, List, [],
  ◌∷◌, ◌==◌, if◌then◌else◌, Bool-cases, inl, inr, pos-ne-zero, arith,
}
use low_latency_capture_view.Common.Int.{ℤ, pos, negsuc, ltb_ℤ, leb_ℤ, ◌-ℤ◌}
use native.Mathlib.Nat.{mul-le-mul_left, mul-le-mul_right, add-mul, div-mul-le_self}
use low_latency_capture_view.Recording.Limiter.{
  Limiter, accept, accept_from, elapsed, bucket, first_of, fresh_limiter, tolerance,
}

-- How many buckets a limiter has behind it.
abbrev pub level : ℤ → ℕ
level (pos n) = suc n
level (negsuc n) = 0

elapsed_pos : (t s : ℕ) → s ≤ t → elapsed (pos t) (pos s) ≡ t - s
unfolding elapsed ◌-ℤ◌
elapsed_pos t s h = ground arith

div_mono : (a b : ℕ) → a ≤ b → a / 10000000 ≤ b / 10000000
div_mono a b h = omega arith

bucket_mono : (l : Limiter) (a b : ℕ) → a ≤ b → bucket l a ≤ bucket l b
unfolding bucket
bucket_mono l a b h =
    let k : (a + tolerance l) * l.fps ≤ (b + tolerance l) * l.fps =
      mul-le-mul_right l.fps (omega arith) in
    div_mono _ _ (omega arith)

-- What one call does to a running limiter.
pub record Stepped (l l' : Limiter) (s t : ℕ) (kept : Bool) : Type 0 where
  pub same_first : l'.first ≡ pos s
  pub same_fps : l'.fps ≡ l.fps
  pub same_input : l'.input_fps ≡ l.input_fps
  pub counted : level l.last_bucket + (if kept then 1 else 0) ≤ level l'.last_bucket
  pub bounded : level l'.last_bucket ≤ max (level l.last_bucket) (bucket l (t - s) + 1)

passes : (b : ℕ) (z : ℤ) → leb_ℤ (pos b) z ≡ false → level z ≤ b
passes b (pos n) h = ground arith
passes b (negsuc n) h = omega arith

accept_from-Stepped :
    (l : Limiter) (s t : ℕ)
    → Stepped l (accept_from (pos t) (pos s) l).0 s t (accept_from (pos t) (pos s) l).1
unfolding accept_from
accept_from-Stepped l s t = elim (Bool-cases (ltb_ℤ (pos t) (pos s))) [
  | inl early ↦ rw early unchanged
  | inr later ↦
      let b = bucket l (elapsed (pos t) (pos s)) in
      elim (Bool-cases (leb_ℤ (pos b) l.last_bucket)) [
        | inl same ↦ rw (later, same) unchanged
        | inr next ↦
            let e : b ≡ bucket l (t - s) = ap (bucket l) (elapsed_pos t s (ground arith)) in
            let k = passes b l.last_bucket next in
            rw (later, next)
              (record {
                same_first = refl;
                same_fps = refl;
                same_input = refl;
                counted = omega arith;
                bounded = omega arith;
              })
      ]
]
  where
    unchanged : Stepped l (record l { first = pos s }) s t false
    unchanged = record {
      same_first = refl;
      same_fps = refl;
      same_input = refl;
      counted = omega arith;
      bounded = omega arith;
    }

-- The frames of a run of calls: how many are kept, and the limiter after.
pub accept_all : Limiter → List ℕ → Limiter × ℕ
accept_all l [] = (l, 0)
accept_all l (t ∷ ts) =
    let (l', kept) = accept (pos t) l in
    let (last, n) = accept_all l' ts in (last, if kept then n + 1 else n)

-- No time lies more than `span` behind `s`.
pub data Within (s span : ℕ) : List ℕ → Type 0 where
  none_left : Within s span []
  then_time : {t : ℕ} {ts : List ℕ} → t ≤ s + span → Within s span ts → Within s span (t ∷ ts)

bucket-same :
    (l l' : Limiter) (x : ℕ)
    → l'.fps ≡ l.fps
    → l'.input_fps ≡ l.input_fps
    → bucket l' x ≡ bucket l x
unfolding bucket
bucket-same l l' x h k = rw (h, k) refl

running :
    (l : Limiter) (s t : ℕ)
    → 0 < l.fps
    → l.first ≡ pos s
    → accept (pos t) l ≡ accept_from (pos t) (pos s) l
unfolding accept
running l s t p e =
    let on : (l.fps == 0) ≡ false = pos-ne-zero l.fps p in
    let begun : ltb_ℤ l.first (pos 0) ≡ false = rw e (ground arith) in
    let from : first_of (pos t) l ≡ pos s = rw begun e in simp (on, from)

in_total :
    (kept : Bool) (a b n m : ℕ)
    → a + (if kept then 1 else 0) ≤ b
    → b + n ≤ m
    → a + (if kept then n + 1 else n) ≤ m
in_total true a b n m h k = omega arith
in_total false a b n m h k = omega arith

module _ (s span : ℕ) where
  -- The first of some calls, and what is known of the others.
  first_call :
      (l : Limiter) (t : ℕ) (ts : List ℕ)
      → accept (pos t) l ≡ accept_from (pos t) (pos s) l
      → t ≤ s + span
      → level l.last_bucket ≤ bucket l span + 1
      → ((l' : Limiter)
          → Stepped l l' s t (accept_from (pos t) (pos s) l).1
          → level l'.last_bucket ≤ bucket l' span + 1
          → level l'.last_bucket + (accept_all l' ts).1 ≤ bucket l' span + 1)
      → level l.last_bucket + (accept_all l (t ∷ ts)).1 ≤ bucket l span + 1
  unfolding accept_all
  first_call l t ts e before h others =
      let step = accept_from-Stepped l s t in
      let l' = (accept_from (pos t) (pos s) l).0 in
      let m = bucket_mono l (t - s) span (omega arith) in
      let same = bucket-same l l' span step.same_fps step.same_input in
      let rest = others l' step (omega (arith, step.bounded)) in
      simp e (
        in_total (accept_from (pos t) (pos s) l).1 (level l.last_bucket) (level l'.last_bucket)
          (accept_all l' ts).1 (bucket l span + 1) step.counted (omega arith))

  accept_all-count :
      (l : Limiter) (ts : List ℕ)
      → 0 < l.fps
      → l.first ≡ pos s
      → level l.last_bucket ≤ bucket l span + 1
      → Within s span ts
      → level l.last_bucket + (accept_all l ts).1 ≤ bucket l span + 1
  unfolding accept_all
  accept_all-count l [] p e h w = omega arith
  accept_all-count l (t ∷ ts) p e h (then_time before w) =
      first_call l t ts (running l s t p e) before h
        λ l' step k. accept_all-count l' ts (omega (arith, step.same_fps)) step.same_first k w

begins :
    (fps input_fps s : ℕ)
    → 0 < fps
    → accept (pos s) (fresh_limiter fps input_fps)
      ≡ accept_from (pos s) (pos s) (fresh_limiter fps input_fps)
unfolding accept
begins fps input_fps s p = rw (pos-ne-zero fps p) refl

next_bucket :
    (l : Limiter) (before after : ℕ)
    → 0 < l.fps
    → before * l.fps + 10000000 ≤ after * l.fps
    → bucket l before < bucket l after
unfolding bucket
next_bucket l before after p far =
    let x = (before + tolerance l) * l.fps in
    let y = (after + tolerance l) * l.fps in
    let apart : x + 10000000 ≤ y =
      rw (add-mul before (tolerance l) l.fps, add-mul after (tolerance l) l.fps) (omega arith) in
    divided x y l.fps p apart
  where
    divided :
        (x y f : ℕ) → 0 < f → x + 10000000 ≤ y → (x + f - 1) / 10000000 < (y + f - 1) / 10000000
    divided x y f p h = omega arith

accept_all-bucket :
    (fps input_fps s span : ℕ) (ts : List ℕ)
    → 0 < fps
    → Within s span ts
    → (accept_all (fresh_limiter fps input_fps) (s ∷ ts)).1
      ≤ bucket (fresh_limiter fps input_fps) span + 1
accept_all-bucket fps input_fps s span ts p w =
    let l = fresh_limiter fps input_fps in
    let counted : level l.last_bucket + (accept_all l (s ∷ ts)).1 ≤ bucket l span + 1 =
      first_call s span l s ts (begins fps input_fps s p) (omega arith) (omega arith) λ l' step k.
        accept_all-count s span l' ts (omega (arith, step.same_fps)) step.same_first k w in
    omega arith

-- The tolerance is half a frame of the input's rate, which is higher: at most half a frame of the
-- lower rate.
tolerance_small : (l : Limiter) → tolerance l * l.fps ≤ 5000000
tolerance_small l = elim (Bool-cases (ltb l.fps l.input_fps)) [
  | inl e ↦
      let m = max 1 l.input_fps in
      let slower : l.fps ≤ m = ground arith in
      let scaled : 5000000 / m * l.fps ≤ 5000000 / m * m = mul-le-mul_left (5000000 / m) slower in
      rw e (omega (arith, scaled, div-mul-le_self 5000000 m))
  | inr e ↦ rw e (omega arith)
]

bucket_small :
    (l : Limiter) (span : ℕ) → 0 < l.fps → bucket l span * 10000000 < span * l.fps + l.fps + 5000000
unfolding bucket
bucket_small l span p =
    let x = (span + tolerance l) * l.fps in
    let parts : x ≡ span * l.fps + tolerance l * l.fps = add-mul span (tolerance l) l.fps in
    let small = tolerance_small l in divided x l.fps (span * l.fps) p (omega arith)
  where
    divided :
        (x f y : ℕ) → 0 < f → x ≤ y + 5000000 → (x + f - 1) / 10000000 * 10000000 < y + f + 5000000
    divided x f y p h = omega arith

-- For a limiter to `fps` frames a second that has seen none, whatever the rate of the input is, and
-- frames of which the first comes at `s` and none more than `span` later, in any order, in units of
-- 100 ns: the number of frames that it keeps, times 10^7, is less than span * fps + fps + 15000000.
pub accept_all-rate :
    (fps input_fps s span : ℕ) (ts : List ℕ)
    → 0 < fps
    → Within s span ts
    → (accept_all (fresh_limiter fps input_fps) (s ∷ ts)).1 * 10000000 < span * fps + fps + 15000000
accept_all-rate fps input_fps s span ts p w =
    let kept = accept_all-bucket fps input_fps s span ts p w in
    let small = bucket_small (fresh_limiter fps input_fps) span p in omega arith

-- On a running limiter, after a frame in the last bucket that was kept: a frame that comes at least
-- the time of one frame of the lower rate later is kept.
pub accept-spaced :
    (l : Limiter) (s before after : ℕ)
    → 0 < l.fps
    → l.first ≡ pos s
    → l.last_bucket ≡ pos (bucket l before)
    → before * l.fps + 10000000 ≤ after * l.fps
    → (accept (pos (s + after)) l).1 ≡ true
unfolding accept_from
accept-spaced l s before after p e b far =
    let from = running l s (s + after) p e in
    let later : ltb_ℤ (pos (s + after)) (pos s) ≡ false = ground arith in
    let spent : elapsed (pos (s + after)) (pos s) ≡ after =
      elapsed_pos (s + after) s (omega arith) ∙ omega arith in
    let more = next_bucket l before after p far in
    let next : leb_ℤ (pos (bucket l (elapsed (pos (s + after)) (pos s)))) l.last_bucket ≡ false =
      rw (spent, b) (ground arith) in
    ap (λ r. r.1) from ∙ rw (later, next) refl
