-- ===== src/Video/Transition/Owed.antt =====
-- The requests for a new output, over sequences of window events.
use low_latency_capture_view.Common.{
  ◌≡◌, refl, ap, ◌∙◌, Bool, true, false, not, ◌||◌, ◌&&◌, List, [], ◌∷◌, if◌then◌else◌, Bool-cases,
  inl, inr, ◌==◌, ltb, ◌-◌,
}
use low_latency_capture_view.Common.Int.{ℤ}
use low_latency_capture_view.Video.Transition.{
  Output, reset_client_size, begin, set_manual_resize, take_pending_update, end, new_size,
  on_client_size,
}

pub data Event : Type 0 where
  resets begins takes : Event
  drags : Bool → Event
  ends : Bool → Event
  sizes : ℤ → ℤ → Event

-- The state after an event, and whether the owner is told to make a new output.
unfoldable pub step : Output → Event → Output × Bool
step s resets = (reset_client_size s, false)
step s begins = (begin s, false)
step s takes = take_pending_update s
step s (drags active) = (set_manual_resize active s, false)
step s (ends request) = end request s
step s (sizes w h) = on_client_size w h s

-- Whether an event asks for a new output: an `End` that says so, or a size that is new.
abbrev pub asks : Output → Event → Bool
asks s resets = false
asks s begins = false
asks s takes = false
asks s (drags active) = false
asks s (ends request) = request
asks s (sizes w h) = new_size w h s

-- What is still owed after an event: a new size that is answered at once leaves what was owed before,
-- and any other answer is for all that was asked.
abbrev pub left : Event → Bool → Bool → Bool → Bool
left (sizes w h) told owed asked = owed || asked && not told
left _ told owed asked = not told && (owed || asked)

-- The state after the events, and whether an update is owed.
pub run : Output → Bool → List Event → Output × Bool
run s owed [] = (s, owed)
run s owed (e ∷ es) = let (s', told) = step s e in run s' (left e told owed (asks s e)) es

take-pending :
    (s : Output) → (take_pending_update s).0.pending ≡ (not (take_pending_update s).1 && s.pending)
unfolding take_pending_update
take-pending s = elim (Bool-cases (s.depth == 0)) [
  | inl e ↦ elim (Bool-cases s.pending) [ inl f ↦ rw (e, f) refl | inr f ↦ rw (e, f) refl ]
  | inr e ↦ rw e refl
]

or_false_right : (b : Bool) → b ≡ (b || false)
or_false_right true = refl
or_false_right false = refl

true_right : (b : Bool) → true ≡ (b || true)
true_right true = refl
true_right false = refl

step-pending :
    (s : Output) (e : Event) → (step s e).0.pending ≡ left e (step s e).1 s.pending (asks s e)
unfolding step reset_client_size begin set_manual_resize on_client_size end
step-pending s resets = or_false_right s.pending
step-pending s begins = or_false_right s.pending
step-pending s takes =
    take-pending s ∙ ap (λ b. not (take_pending_update s).1 && b) (or_false_right s.pending)
step-pending s (drags active) = or_false_right s.pending
step-pending s (ends request) = elim (Bool-cases s.manual_resize) [
  | inl m ↦ rw m refl
  | inr m ↦ rw m (
      take-pending (record s {
        depth = if ltb 0 s.depth then s.depth - 1 else s.depth;
        pending = s.pending || request;
        manual_resize = false;
      }))
]
step-pending s (sizes w h) = elim (Bool-cases (new_size w h s)) [
  | inl n ↦ elim (Bool-cases (s.manual_resize || ltb 0 s.depth)) [
    | inl b ↦ rw (n, b) (true_right s.pending)
    | inr b ↦ rw (n, b) (or_false_right s.pending)
  ]
  | inr n ↦ rw n (or_false_right s.pending)
]

-- From any state, after any events: an update is pending exactly when one is owed, that is, when one
-- was pending at the start, or asked for and not answered at once, and no pending update was taken
-- since.
pub run-pending :
    (s : Output) (es : List Event) → (run s s.pending es).0.pending ≡ (run s s.pending es).1
unfolding run
run-pending s es = all s es s.pending refl
  where
    all :
        (s : Output) (es : List Event) (owed : Bool)
        → s.pending ≡ owed
        → (run s owed es).0.pending ≡ (run s owed es).1
    all s [] owed h = h
    all s (e ∷ es) owed h =
        all (step s e).0 es (left e (step s e).1 owed (asks s e))
          (step-pending s e ∙ ap (λ b. left e (step s e).1 b (asks s e)) h)
