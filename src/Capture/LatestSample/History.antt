-- ===== src/Capture/LatestSample/History.antt =====
-- What the slot holds, told from the history of its calls.
use low_latency_capture_view.Common.{
  ℕ, ◌≡◌, refl, sym, List, [], ◌∷◌, Option, none, some, if◌then◌else◌, ◌&&◌, Bool-cases, inl, inr,
}
use low_latency_capture_view.Common.Int.{ℤ}
use low_latency_capture_view.Common.Hresult.{failed, succeeded, s_ok}
use low_latency_capture_view.Capture.LatestSample.{
  Sample, Config, Slot, create, acceptable, publish, push, verdict, reject_format, take_latest,
}

-- A call, with what the clock says to it.
pub data Call : Type 0 where
  pushes : Option Sample → ℤ → ℕ → ℕ → Call
  rejects : ℕ → Call
  takes : Call

pub step : Config → Slot → Call → Slot
step c s (pushes m arrival now1 now2) = push c m arrival now1 now2 s
step c s (rejects failure) = reject_format failure s
step c s takes = (take_latest s).0

-- The slot after a history, the newest call first.
pub after : Config → Slot → List Call → Slot
after c s [] = s
after c s (call ∷ older) = step c (after c s older) call

-- The first rejection of the history decides.
abbrev pub failure_of : List Call → ℕ
failure_of [] = s_ok
failure_of (pushes m arrival now1 now2 ∷ older) = failure_of older
failure_of (takes ∷ older) = failure_of older
failure_of (rejects failure ∷ older) =
    if succeeded (failure_of older) then verdict failure else failure_of older

-- The newest frame that nothing has taken or thrown away since.
abbrev pub newest : Config → List Call → Option (ℕ × ℤ)
newest c [] = none
newest c (pushes none arrival now1 now2 ∷ older) = newest c older
newest c (pushes (some m) arrival now1 now2 ∷ older) =
    if acceptable c m && succeeded (failure_of older)
    then some (m.frame, arrival)
    else newest c older
newest c (rejects failure ∷ older) = none
newest c (takes ∷ older) = none

module _ (c : Config) (captured replaced : Option ℕ) where
  abbrev now : List Call → Slot
  now history = after c (create captured replaced) history

  after-failure : (history : List Call) → (now history).format_failure ≡ failure_of history
  unfolding after step push publish reject_format take_latest create
  after-failure [] = refl
  after-failure (pushes none arrival now1 now2 ∷ older) = after-failure older
  after-failure (pushes (some m) arrival now1 now2 ∷ older) = elim (Bool-cases (acceptable c m)) [
    | inl e ↦ elim (Bool-cases (failed (now older).format_failure)) [
      | inl f ↦ rw (e, f) (after-failure older)
      | inr f ↦ rw (e, f) (after-failure older)
    ]
    | inr e ↦ rw e (after-failure older)
  ]
  after-failure (takes ∷ older) = after-failure older
  after-failure (rejects failure ∷ older) = rw (after-failure older) refl

  -- Over any history of pushes, rejections and takes from an empty slot: a take yields the newest
  -- acceptable frame that was pushed before any rejection and neither taken nor thrown away since,
  -- with the time at which that frame arrived; and the format failure is that of the first rejection.
  pub take_latest-newest :
      (history : List Call)
      → ((take_latest (now history)).1 ≡ newest c history)
        × ((now history).format_failure ≡ failure_of history)
  unfolding after step push publish reject_format take_latest create
  take_latest-newest history = (held history, after-failure history)
    where
      held : (history : List Call) → (take_latest (now history)).1 ≡ newest c history
      held [] = refl
      held (pushes none arrival now1 now2 ∷ older) = held older
      held (pushes (some m) arrival now1 now2 ∷ older) = elim (Bool-cases (acceptable c m)) [
        | inl e ↦ elim (Bool-cases (failed (now older).format_failure)) [
          | inl f ↦ rw (e, sym (after-failure older), f) (held older)
          | inr f ↦ rw (e, sym (after-failure older), f) refl
        ]
        | inr e ↦ rw e (held older)
      ]
      held (takes ∷ older) = refl
      held (rejects failure ∷ older) = refl
