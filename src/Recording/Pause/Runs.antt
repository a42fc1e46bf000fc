-- ===== src/Recording/Pause/Runs.antt =====
-- The map over a whole recording: a history of pieces of video and audio.
use low_latency_capture_view.Common.{
  ℕ, ◌%◌, ◌<◌, ◌≡◌, refl, ap, sym, ◌∙◌, Bool, true, false, arith, List, [], ◌∷◌, Bool-cases, inl,
  inr, if◌then◌else◌, ◌==◌, ltb, subst, ◌||◌, le→ltb_false,
}
use mathlib.Core.Path.{ap₂}
use low_latency_capture_view.Common.Int.{
  ℤ, pos, pos_part, neg_part, max_ℤ, ◌+ℤ◌, ◌-ℤ◌, ◌≤ℤ◌, int_laws, max_ℤ_bounds, max_ℤ_right, ltb_ℤ,
  leb_ℤ, le→ltb_ℤ_false, lt→leb_ℤ_false,
}
use low_latency_capture_view.Recording.Pause.{
  Timeline, Mapped, map, place, skipped, anchor, resume, frames_time, advanced,
}
use low_latency_capture_view.Recording.Pause.Order.{
  anchored, anchored-ends, audio_from, max_lead, skipped_covers, place_kept, place_dropped,
  map_cases,
}

pub record Piece : Type 0 where
  pub video : Bool
  pub generation : ℕ
  pub time : ℤ
  pub duration : ℤ

abbrev pub mapped : Timeline → Piece → Timeline × Mapped
mapped t p = map p.video p.generation p.time p.duration t

-- The audio that the worker writes, in order.
pub written_audio : Timeline → List Piece → List Mapped
written_audio t [] = []
written_audio t (p ∷ ps) =
    let (t', m) = mapped t p in
    let rest = written_audio t' ps in if p.video then rest else if m.keep then m ∷ rest else rest

-- Every piece starts where the one before it ended, or later, and lasts.
abbrev pub InOrder : ℤ → List Mapped → Type 0
InOrder from [] = Unit {0}
InOrder from (m ∷ ms) = (from ≤ℤ m.time) × (pos 1 ≤ℤ m.duration) × InOrder (m.time +ℤ m.duration) ms

-- No piece of audio lies further back than an uint32 of frames can count.
abbrev pub InReach : Timeline → List Piece → Type 0
InReach t [] = Unit {0}
InReach t (p ∷ ps) =
    (audio_from (anchored p.generation p.time t) ≤ℤ p.time +ℤ pos max_lead)
    × InReach (mapped t p).0 ps

map_video-audio_end :
    (generation : ℕ) (time duration : ℤ) (t : Timeline)
    → (map true generation time duration t).0.audio_end ≡ t.audio_end
map_video-audio_end generation time duration t =
    let t' = anchored generation time t in
    let same = (anchored-ends generation time t).0 in
    elim (map_cases true generation time duration t) [
      | inl e ↦ ap (λ x. x.0.audio_end) e
      | inr e ↦
          let skip = skipped true time t' in
          ap (λ x. x.0.audio_end) e ∙ elim (Bool-cases (place true skip time duration t').1.keep) [
            | inl k ↦
                ap (λ x. x.0.audio_end) (place_kept true skip time duration t' k).0
                ∙ unfold advanced in same
            | inr k ↦ ap (λ x. x.audio_end) (place_dropped true skip time duration t' k) ∙ same
          ]
    ]

module _ (generation : ℕ) (time duration : ℤ) (t : Timeline) where
  abbrev audio_map : Timeline × Mapped
  audio_map = map false generation time duration t

  map_audio_kept :
      audio_from (anchored generation time t) ≤ℤ time +ℤ pos max_lead
      → audio_map.1.keep ≡ true
      → (t.audio_end ≤ℤ audio_map.1.time)
        × (pos 1 ≤ℤ audio_map.1.duration)
        × (audio_map.0.audio_end ≡ audio_map.1.time +ℤ audio_map.1.duration)
  map_audio_kept reach k =
      let t' = anchored generation time t in
      let same = (anchored-ends generation time t).0 in
      let skip = skipped false time t' in
      elim (map_cases false generation time duration t) [
        | inl e ↦ cc (ap (λ x. x.1.keep) e)
        | inr e ↦
            let kept = place_kept false skip time duration t' (sym (ap (λ x. x.1.keep) e) ∙ k) in
            let trimmed = pos (frames_time skip) in
            let out = time +ℤ trimmed -ℤ t'.offset in
            let starts : t.audio_end ≤ℤ out =
              omega (int_laws, skipped_covers time t' reach, ap pos_part same, ap neg_part same) in
            rw (e ∙ kept.0) (
              starts,
              kept.2,
              unfold advanced in
                  max_ℤ_right t'.audio_end (out +ℤ (duration -ℤ trimmed))
                    (omega (int_laws, starts, ap pos_part same, ap neg_part same, kept.2)),
            )
      ]

  map_audio_dropped : audio_map.1.keep ≡ false → audio_map.0.audio_end ≡ t.audio_end
  map_audio_dropped k =
      let t' = anchored generation time t in
      let skip = skipped false time t' in
      elim (map_cases false generation time duration t) [
        | inl e ↦ ap (λ x. x.0.audio_end) e
        | inr e ↦
            ap (λ x. x.0.audio_end) e
            ∙ ap (λ x. x.audio_end)
                (place_dropped false skip time duration t' (sym (ap (λ x. x.1.keep) e) ∙ k))
            ∙ (anchored-ends generation time t).0
      ]

-- What one piece does to the order: `to` is the end of the audio after it.
InOrder-piece :
    (v : Bool) (m : Mapped) (from to : ℤ) (rest : List Mapped)
    → (v ≡ true → to ≡ from)
    → (v ≡ false → m.keep ≡ false → to ≡ from)
    → (v ≡ false
        → m.keep ≡ true
        → (from ≤ℤ m.time) × (pos 1 ≤ℤ m.duration) × (to ≡ m.time +ℤ m.duration))
    → InOrder to rest
    → InOrder from (if v then rest else if m.keep then m ∷ rest else rest)
InOrder-piece true m from to rest same dropped kept h = subst (λ x. InOrder x rest) (same refl) h
InOrder-piece false m from to rest same dropped kept h = elim (Bool-cases m.keep) [
  | inl k ↦
      let (starts, lasts, ends) = kept refl k in
      rw k (starts, lasts, subst (λ x. InOrder x rest) ends h)
  | inr k ↦ rw k (subst (λ x. InOrder x rest) (dropped refl k) h)
]

-- Over any history of pauses, resumes and pieces of either stream within reach: the audio written is
-- in order and never overlaps, and every piece of it lasts.
pub written_audio-InOrder :
    (t : Timeline) (ps : List Piece) → InReach t ps → InOrder t.audio_end (written_audio t ps)
unfolding written_audio
written_audio-InOrder t [] h = tt
written_audio-InOrder t (p ∷ ps) (reach, h) =
    let at = λ (v : Bool). map v p.generation p.time p.duration t in
    InOrder-piece p.video (mapped t p).1 t.audio_end (mapped t p).0.audio_end
      (written_audio (mapped t p).0 ps)
      (λ e.
        subst (λ v. (at v).0.audio_end ≡ t.audio_end) (sym e)
          (map_video-audio_end p.generation p.time p.duration t))
      (λ e.
        subst (λ v. (at v).1.keep ≡ false → (at v).0.audio_end ≡ t.audio_end) (sym e)
          (map_audio_dropped p.generation p.time p.duration t))
      (λ e.
        subst
          (λ v.
            (at v).1.keep ≡ true
            → (t.audio_end ≤ℤ (at v).1.time)
              × (pos 1 ≤ℤ (at v).1.duration)
              × ((at v).0.audio_end ≡ (at v).1.time +ℤ (at v).1.duration))
          (sym e) (map_audio_kept p.generation p.time p.duration t reach))
      (written_audio-InOrder (mapped t p).0 ps h)

module _ (generation time duration : ℕ) (t : Timeline) where
  module _ (newer : t.generation < generation) where
    other_generation : (generation == t.generation) ≡ false
    other_generation = ground arith

    anchored_resume : anchored generation (pos time) t ≡ record t {
      generation = generation;
      cut_source = pos time;
      offset = pos time -ℤ max_ℤ t.video_end t.audio_end;
    }
    unfolding anchor resume
    anchored_resume =
        let later : ltb_ℤ (pos time) (pos 0) ≡ false =
          le→ltb_ℤ_false (pos time) (pos 0) (omega arith) in
        rw (other_generation, later) refl

    not_refused :
        generation % 2 ≡ 0
        → 0 < duration
        → (leb_ℤ (pos duration) (pos 0)
            || ltb_ℤ (pos time) (pos 0)
            || generation % 2 == 1
            || ltb generation t.generation)
          ≡ false
    not_refused even p =
        rw
          (
            lt→leb_ℤ_false (pos duration) (pos 0) (omega arith),
            le→ltb_ℤ_false (pos time) (pos 0) (omega arith),
            even,
            le→ltb_false generation t.generation (omega arith),
          )
          refl

  -- For a newer generation that is not a paused one, a time and an end of the video that are not
  -- negative, and a positive duration: the first frame of video after a pause starts where the longer
  -- of the two streams ended, and keeps its duration.
  pub map_resume :
      t.generation < generation
      → generation % 2 ≡ 0
      → 0 < duration
      → pos 0 ≤ℤ t.video_end
      → (map true generation (pos time) (pos duration) t).1 ≡ record {
        time = max_ℤ t.video_end t.audio_end;
        duration = pos duration;
        skip_audio_frames = 0;
        keep = true;
      }
  unfolding map place skipped
  map_resume newer even p valid =
      let longest = max_ℤ t.video_end t.audio_end in
      let cut = pos time -ℤ longest in
      let bounds = max_ℤ_bounds t.video_end t.audio_end in
      let kept : ltb_ℤ (pos time +ℤ pos 0) cut ≡ false =
        le→ltb_ℤ_false (pos time +ℤ pos 0) cut (omega (int_laws, bounds)) in
      let lasts : leb_ℤ (pos duration -ℤ pos 0) (pos 0) ≡ false =
        lt→leb_ℤ_false (pos duration -ℤ pos 0) (pos 0) (omega int_laws) in
      let whole : pos duration -ℤ pos 0 ≡ pos duration = omega int_laws in
      let start : pos time +ℤ pos 0 -ℤ cut ≡ longest = omega int_laws in
      rw (not_refused newer even p, other_generation newer, anchored_resume newer, kept, lasts)
        (ap₂ (λ a b. record { time = a; duration = b; skip_audio_frames = 0; keep = true }) start
          whole)
