-- ===== src/Recording/Delivery/Push/Anchored.antt =====
-- Audio on the arrival clock is contiguous.
use low_latency_capture_view.Common.{
  ℕ, ◌+◌, ◌/◌, ◌%◌, ◌≡◌, refl, ap, ◌∙◌, Bool, true, false, not, ◌||◌, List, [], ◌∷◌, Option, none,
  some, ◌==◌, Bool-cases, Option-cases, inl, inr, arith,
}
use low_latency_capture_view.Common.Int.{ℤ, pos, pos_part, ltb_ℤ, leb_ℤ, ◌+ℤ◌}
use low_latency_capture_view.Common.Hresult.{failed}
use low_latency_capture_view.Recording.Delivery.Push.{
  Sample, World, Producer, Timed, frame_ticks, audio_arrival, take_time, deliver, limit, push_timed,
  push,
}

-- The members of the arrival clock.
abbrev pub clock : Producer → Bool × ℤ × ℕ
clock r = (r.arrival_clock, r.audio_anchor, r.audio_frames)

limit-clock : (video : Bool) (start : ℤ) (r : Producer) → clock (limit video start r).0 ≡ clock r
unfolding limit
limit-clock true start r = refl
limit-clock false start r = refl

deliver-clock :
    (video : Bool) (w : World) (start end : ℤ) (n : ℕ) (source : List ℕ) (r : Producer)
    → clock (deliver video w start end n source r).0 ≡ clock r
unfolding deliver
deliver-clock true w start end n source r = refl
deliver-clock false w start end n source r = refl

push_timed-clock :
    (video : Bool) (w : World) (s : Option Sample) (t : Timed)
    → clock (push_timed video w s t).0 ≡ clock t.0
unfolding push_timed
push_timed-clock video w none t = refl
push_timed-clock video w (some s) (r, hr, start, end) = elim (Option-cases s.pointer) [
  | inl e ↦ rw e refl
  | inr (source, e) ↦ elim (Bool-cases (failed hr || ltb_ℤ start (pos 0))) [
    | inl a ↦ rw (e, a) refl
    | inr a ↦ elim (Bool-cases (leb_ℤ s.actual_length (pos 0) || ltb_ℤ s.size s.actual_length)) [
      | inl b ↦ rw (e, a, b) refl
      | inr b ↦ elim (Bool-cases (not (limit video start r).1)) [
        | inl c ↦ rw (e, a, b, c) (limit-clock video start r)
        | inr c ↦
            rw (e, a, b, c)
              (deliver-clock video w start end (pos_part s.actual_length) source
                  (limit video start r).0
                ∙ limit-clock video start r)
      ]
    ]
  ]
]

push-clock :
    (video : Bool) (s : Option Sample) (w : World) (r : Producer)
    → w.recording ≡ true
    → clock (push video s w r).0 ≡ clock (take_time video s w.now r).0
unfolding push
push-clock video s w r h = elim (Bool-cases (w.generation % 2 == 1)) [
  | inl e ↦ simp (h, e)
  | inr e ↦ simp (h, e) (push_timed-clock video w s (take_time video s w.now r))
]

-- The calls of the audio callback, while a session records.
pub record AudioCall : Type 0 where
  pub sample : Sample
  pub world : World
  pub recording : world.recording ≡ true

pub push_all : Producer → List AudioCall → Producer
push_all r [] = r
push_all r (c ∷ cs) = push_all (push false (some c.sample) c.world r).0 cs

abbrev pub frames_in : List AudioCall → ℕ
frames_in [] = 0
frames_in (c ∷ cs) = pos_part c.sample.actual_length / 4 + frames_in cs

-- Once anchored, a call counts its frames and keeps the anchor.
arrival-clock :
    (a frames : ℕ) (s : Sample) (now : ℤ) (r : Producer)
    → clock r ≡ (true, pos a, frames)
    → clock (take_time false (some s) now r).0
      ≡ (true, pos a, frames + pos_part s.actual_length / 4)
unfolding take_time audio_arrival
arrival-clock a frames s now r e =
    let on : r.arrival_clock ≡ true = ap (λ x. x.0) e in
    let anchor : r.audio_anchor ≡ pos a = ap (λ x. x.1) e in
    let counted : r.audio_frames ≡ frames = ap (λ x. x.2) e in
    let later : ltb_ℤ (pos a) (pos 0) ≡ false = ground arith in simp (on, anchor, counted, later)

push_all-clock :
    (a frames : ℕ) (r : Producer) (calls : List AudioCall)
    → clock r ≡ (true, pos a, frames)
    → clock (push_all r calls) ≡ (true, pos a, frames + frames_in calls)
unfolding push_all
push_all-clock a frames r [] e = let none_more : frames + 0 ≡ frames = omega arith in rw none_more e
push_all-clock a frames r (c ∷ cs) e =
    let n = pos_part c.sample.actual_length / 4 in
    let more : frames + (n + frames_in cs) ≡ frames + n + frames_in cs = omega arith in
    rw more (
      push_all-clock a (frames + n) (push false (some c.sample) c.world r).0 cs (
        push-clock false (some c.sample) c.world r c.recording
        ∙ arrival-clock a frames c.sample c.world.now r e))

add_pos : (a b : ℕ) → pos a +ℤ pos b ≡ pos (a + b)
unfolding ◌+ℤ◌
add_pos a b = ground arith

-- With the arrival clock, anchored at a time `a` that is not negative, and after any calls of the
-- audio callback in a recording session, paused or not, accepted or not: the next audio sample is
-- given the time `a` and that of all the frames counted before it, whenever it arrives.
pub push_all-contiguous :
    (a : ℕ) (r : Producer) (calls : List AudioCall) (s : Sample) (now : ℤ)
    → r.arrival_clock ≡ true
    → r.audio_anchor ≡ pos a
    → (take_time false (some s) now (push_all r calls)).2
      ≡ pos (a + frame_ticks (r.audio_frames + frames_in calls))
unfolding take_time audio_arrival
push_all-contiguous a r calls s now on anchor =
    let before : clock r ≡ (true, pos a, r.audio_frames) = simp (on, anchor) in
    let after = push_all-clock a r.audio_frames r calls before in
    let on' : (push_all r calls).arrival_clock ≡ true = ap (λ x. x.0) after in
    let anchor' : (push_all r calls).audio_anchor ≡ pos a = ap (λ x. x.1) after in
    let counted : (push_all r calls).audio_frames ≡ r.audio_frames + frames_in calls =
      ap (λ x. x.2) after in
    let later : ltb_ℤ (pos a) (pos 0) ≡ false = ground arith in
    simp (on', anchor', counted, later, add_pos)
