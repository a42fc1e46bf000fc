-- ===== src/Capture/LatestSample/Balance.antt =====
-- The references that the slot and its owner hold to frames.
use low_latency_capture_view.Common.{
  ℕ, ◌+◌, ◌≡◌, refl, ap, ◌∙◌, List, [], ◌∷◌, Option, none, some, ◌==◌, if◌then◌else◌, Bool-cases,
  inl, inr, arith,
}
use low_latency_capture_view.Common.Int.{ℤ}
use low_latency_capture_view.Common.Hresult.{failed}
use mathlib.Core.Option
use low_latency_capture_view.Capture.LatestSample.{
  Sample, ComCall, add_ref, release, Config, Slot, create, acceptable, publish, push, reject_format,
  take_latest, refreshed, refresh_after_output_reset, safe_release,
}

-- The slot and the frames that its owner holds, the one on display first.
pub record World : Type 0 where
  pub slot : Slot
  pub owned : List ℕ

pub data Call : Type 0 where
  pushes : Option Sample → ℤ → ℕ → ℕ → Call
  rejects : ℕ → Call
  takes : Call
  refreshes : ℤ → ℕ → Call

-- What the calls do: the owner keeps what it takes, and a refresh may replace what it displays.
pub shown : List ℕ → Option ℕ
shown [] = none
shown (frame ∷ rest) = some frame

pub displayed : Option ℕ → List ℕ → List ℕ
displayed none rest = rest
displayed (some frame) [] = frame ∷ []
displayed (some frame) (old ∷ rest) = frame ∷ rest

pub kept : Option (ℕ × ℤ) → List ℕ → List ℕ
kept none rest = rest
kept (some (frame, at)) rest = frame ∷ rest

pub step : Config → World → Call → World
step c w (pushes m arrival now1 now2) = record w { slot = push c m arrival now1 now2 w.slot }
step c w (rejects failure) = record w { slot = reject_format failure w.slot }
step c w takes =
    let (s, taken) = take_latest w.slot in record { slot = s; owned = kept taken w.owned }
step c w (refreshes arrival now) =
    let (s, current, at) = refresh_after_output_reset c (shown w.owned) arrival now w.slot in
    record { slot = s; owned = displayed current w.owned }

pub run : Config → World → List Call → World
run c w [] = w
run c w (call ∷ calls) = run c (step c w call) calls

abbrev tally : ℕ → ℕ → ℕ
tally x y = if x == y then 1 else 0

-- How often the log takes and gives back a reference to `x`.
pub taken_of : ℕ → List ComCall → ℕ
taken_of x [] = 0
taken_of x (add_ref y ∷ log) = tally x y + taken_of x log
taken_of x (release y ∷ log) = taken_of x log

pub given_of : ℕ → List ComCall → ℕ
given_of x [] = 0
given_of x (add_ref y ∷ log) = given_of x log
given_of x (release y ∷ log) = tally x y + given_of x log

pub waiting_of : ℕ → Option ℕ → ℕ
waiting_of x none = 0
waiting_of x (some y) = tally x y

pub count : ℕ → List ℕ → ℕ
count x [] = 0
count x (y ∷ ys) = tally x y + count x ys

-- References taken are given back, in the slot, or with the owner.
abbrev pub Balanced : ℕ → World → Type 0
Balanced x w =
    taken_of x w.slot.log ≡ given_of x w.slot.log + waiting_of x w.slot.latest + count x w.owned

taken-safe_release :
    (x : ℕ) (o : Option ℕ) (log : List ComCall) → taken_of x (safe_release o log) ≡ taken_of x log
unfolding taken_of safe_release
taken-safe_release x none log = refl
taken-safe_release x (some y) log = refl

given-safe_release :
    (x : ℕ) (o : Option ℕ) (log : List ComCall)
    → given_of x (safe_release o log) ≡ waiting_of x o + given_of x log
unfolding given_of safe_release waiting_of
given-safe_release x none log = omega arith
given-safe_release x (some y) log = refl

publish-Balanced :
    (c : Config) (x y : ℕ) (arrival : ℤ) (now1 now2 : ℕ) (w : World)
    → Balanced x w
    → Balanced x (record w { slot = publish c y arrival now1 now2 w.slot })
unfolding publish
publish-Balanced c x y arrival now1 now2 w b = elim (Bool-cases (failed w.slot.format_failure)) [
  | inl f ↦ rw f (unfold taken_of given_of in omega (arith, b))
  | inr f ↦ rw f (
      unfold taken_of given_of waiting_of in
      omega (
        arith,
        b,
        taken-safe_release x w.slot.latest (add_ref y ∷ w.slot.log),
        given-safe_release x w.slot.latest (add_ref y ∷ w.slot.log),
      ))
]

count-kept :
    (x : ℕ) (o : Option ℕ) (at : ℤ) (owned : List ℕ)
    → count x (kept (Option.map (λ frame. (frame, at)) o) owned) ≡ waiting_of x o + count x owned
unfolding count kept waiting_of
count-kept x none at owned = omega arith
count-kept x (some frame) at owned = refl

module _ (c : Config) (x : ℕ) (arrival at : ℤ) (now : ℕ) (s : Slot) where
  abbrev result : Option ℕ → List ℕ → Slot × Option ℕ × ℤ
  result o owned = refreshed c (shown owned) arrival now s (Option.map (λ frame. (frame, at)) o)

  refreshed-latest : (o : Option ℕ) (owned : List ℕ) → (result o owned).0.latest ≡ s.latest
  unfolding refreshed
  refreshed-latest none owned = refl
  refreshed-latest (some frame) owned = refl

  refreshed-taken :
      (o : Option ℕ) (owned : List ℕ) → taken_of x (result o owned).0.log ≡ taken_of x s.log
  unfolding refreshed
  refreshed-taken none owned = refl
  refreshed-taken (some frame) owned = taken-safe_release x (shown owned) s.log

  -- The frame displayed before is given back, and the newer one is the owner's.
  refreshed-given :
      (o : Option ℕ) (owned : List ℕ)
      → given_of x (result o owned).0.log + count x (displayed (result o owned).1 owned)
        ≡ given_of x s.log + waiting_of x o + count x owned
  unfolding refreshed shown displayed count waiting_of safe_release given_of
  refreshed-given none [] = omega arith
  refreshed-given none (y ∷ ys) = omega arith
  refreshed-given (some frame) [] = omega arith
  refreshed-given (some frame) (y ∷ ys) = omega arith

step-Balanced :
    (c : Config) (x : ℕ) (w : World) (call : Call) → Balanced x w → Balanced x (step c w call)
unfolding step push
step-Balanced c x w (pushes none arrival now1 now2) b = b
step-Balanced c x w (pushes (some m) arrival now1 now2) b = elim (Bool-cases (acceptable c m)) [
  | inl e ↦ rw e (publish-Balanced c x m.frame arrival now1 now2 w b)
  | inr e ↦ rw e b
]
step-Balanced c x w (rejects failure) b =
    unfold reject_format waiting_of in
    omega (
      arith,
      b,
      taken-safe_release x w.slot.latest w.slot.log,
      given-safe_release x w.slot.latest w.slot.log,
    )
step-Balanced c x w takes b =
    unfold take_latest waiting_of in
    omega (arith, b, count-kept x w.slot.latest w.slot.arrival w.owned)
step-Balanced c x w (refreshes arrival now) b =
    unfold refresh_after_output_reset take_latest in
    let s = record (w.slot) { latest = none } in
    let o = w.slot.latest in
    let at = w.slot.arrival in
    let same : waiting_of x (result c x arrival at now s o w.owned).0.latest ≡ 0 =
      ap (waiting_of x) (refreshed-latest c x arrival at now s o w.owned)
      ∙ unfold waiting_of in refl in
    omega (
      arith,
      b,
      same,
      refreshed-taken c x arrival at now s o w.owned,
      refreshed-given c x arrival at now s o w.owned,
    )

run-Balanced :
    (c : Config) (x : ℕ) (w : World) (calls : List Call) → Balanced x w → Balanced x (run c w calls)
unfolding run
run-Balanced c x w [] b = b
run-Balanced c x w (call ∷ calls) b =
    run-Balanced c x (step c w call) calls (step-Balanced c x w call b)

-- Over any sequence of pushes, rejections, takes and refreshes from an empty slot, and for any frame:
-- the references that the slot took to it are those that were given back, that of the frame in the
-- slot, and those that went to the owner.
pub create-Balanced :
    (c : Config) (captured replaced : Option ℕ) (calls : List Call) (x : ℕ)
    → Balanced x (run c (record { slot = create captured replaced; owned = [] }) calls)
unfolding create
create-Balanced c captured replaced calls x =
    run-Balanced c x (record { slot = create captured replaced; owned = [] }) calls
      (unfold taken_of given_of waiting_of count in refl)
