-- ===== src/Recording/Pause/Order.antt =====
-- The steps of the map of times, one by one.
use low_latency_capture_view.Common.{
  ℕ, ◌%◌, ◌≤◌, ◌≡◌, refl, Bool, true, false, arith, Bool-cases, inl, inr, ◌⊎◌, ◌==◌, ltb, ◌||◌,
  ◌&&◌, not, or_false,
}
use low_latency_capture_view.Common.Int.{
  ℤ, pos, pos_part, ltb_ℤ, leb_ℤ, max_ℤ, ◌+ℤ◌, ◌-ℤ◌, ◌≤ℤ◌, int_laws, max_ℤ_bounds, parts_apart,
  ltb_ℤ→lt, ltb_ℤ→ge, leb_ℤ→gt,
}
use low_latency_capture_view.Recording.Pause.{
  Timeline, map, place, advanced, skipped, anchor, resume, nothing, skip_frames, frames_time,
}

abbrev pub IsValid : Timeline → Type 0
IsValid t = (pos 0 ≤ℤ t.video_end) × (pos 0 ≤ℤ t.audio_end)

-- Rounding up to whole frames trims at least the lead; the bound is where an uint32 of frames ends.
abbrev pub max_lead : ℕ
max_lead = 800000000000

frames_time_covers : (lead : ℕ) → lead ≤ max_lead → lead ≤ frames_time (skip_frames lead)
frames_time_covers lead h = omega arith

-- The first instant at which audio may continue.
abbrev pub audio_from : Timeline → ℤ
audio_from t = max_ℤ t.cut_source (t.audio_end +ℤ t.offset)

pub skipped_covers :
    (time : ℤ) (t : Timeline)
    → audio_from t ≤ℤ time +ℤ pos max_lead
    → t.audio_end +ℤ t.offset ≤ℤ time +ℤ pos (frames_time (skipped false time t))
unfolding skipped
skipped_covers time t h = elim (Bool-cases (ltb_ℤ time (audio_from t))) [
  | inl late ↦
      let lead = pos_part (audio_from t -ℤ time) in
      let in_bound : lead ≤ max_lead =
        omega (int_laws, parts_apart (audio_from t -ℤ time), ltb_ℤ→lt time (audio_from t) late) in
      rw late (
        omega (
          int_laws,
          max_ℤ_bounds t.cut_source (t.audio_end +ℤ t.offset),
          frames_time_covers lead in_bound,
        ))
  | inr early ↦
      let nothing_trimmed : frames_time 0 ≡ 0 = refl in
      rw (early, nothing_trimmed)
        (omega (
          int_laws,
          max_ℤ_bounds t.cut_source (t.audio_end +ℤ t.offset),
          ltb_ℤ→ge time (audio_from t) early,
        ))
]

-- What the end of `Map` says of a piece that it keeps.
pub place_kept :
    (video : Bool) (skip : ℕ) (time duration : ℤ) (t : Timeline)
    → (place video skip time duration t).1.keep ≡ true
    → let trimmed = pos (frames_time skip) in
      let out = time +ℤ trimmed -ℤ t.offset in
      let left = duration -ℤ trimmed in
      (place video skip time duration t ≡ (
        advanced video (out +ℤ left) t,
        record { time = out; duration = left; skip_audio_frames = skip; keep = true },
      ))
      × (t.offset ≤ℤ time +ℤ trimmed)
      × (pos 1 ≤ℤ left)
unfolding place advanced
place_kept video skip time duration t k =
    let trimmed = pos (frames_time skip) in
    let lost = ltb_ℤ (time +ℤ trimmed) t.offset || leb_ℤ (duration -ℤ trimmed) (pos 0) in
    elim (Bool-cases lost) [
      | inl e ↦ cc (rw (e, place) at k)
      | inr e ↦
          let apart = or_false (ltb_ℤ (time +ℤ trimmed) t.offset) _ e in
          (
            rw e refl,
            ltb_ℤ→ge (time +ℤ trimmed) t.offset apart.0,
            omega (arith, leb_ℤ→gt (duration -ℤ trimmed) (pos 0) apart.1),
          )
    ]

pub place_dropped :
    (video : Bool) (skip : ℕ) (time duration : ℤ) (t : Timeline)
    → (place video skip time duration t).1.keep ≡ false
    → (place video skip time duration t).0 ≡ t
unfolding place
place_dropped video skip time duration t k =
    let trimmed = pos (frames_time skip) in
    let lost = ltb_ℤ (time +ℤ trimmed) t.offset || leb_ℤ (duration -ℤ trimmed) (pos 0) in
    elim (Bool-cases lost) [ inl e ↦ rw e refl | inr e ↦ cc (rw (e, place) at k) ]

-- The timeline that `Map` places a piece in.
abbrev pub anchored : ℕ → ℤ → Timeline → Timeline
anchored generation time t = anchor time (resume generation time t)

pub anchored-ends :
    (generation : ℕ) (time : ℤ) (t : Timeline)
    → ((anchored generation time t).audio_end ≡ t.audio_end)
      × ((anchored generation time t).video_end ≡ t.video_end)
unfolding anchor resume
anchored-ends generation time t = ground arith

-- `Map` refuses a piece and changes nothing, or places it.
pub map_cases :
    (video : Bool) (generation : ℕ) (time duration : ℤ) (t : Timeline)
    → (map video generation time duration t ≡ (t, nothing))
      ⊎ (map video generation time duration t
          ≡ place video
              (skipped video time (anchored generation time t))
              time
              duration
              (anchored generation time t))
unfolding map
map_cases video generation time duration t =
    let refused =
      leb_ℤ duration (pos 0)
      || ltb_ℤ time (pos 0)
      || generation % 2 == 1
      || ltb generation t.generation in
    elim (Bool-cases refused) [
      | inl e ↦ inl (rw e refl)
      | inr e ↦ elim (Bool-cases (not (generation == t.generation) && not video)) [
        | inl f ↦ inl (rw (e, f) refl)
        | inr f ↦ inr (rw (e, f) refl)
      ]
    ]
