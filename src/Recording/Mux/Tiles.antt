-- ===== src/Recording/Mux/Tiles.antt =====
-- The video that the timeline of a fragmented file offers to the writer, call by call.
use low_latency_capture_view.Common.{
  ℕ, zero, suc, ◌+◌, ◌-◌, ◌*◌, ◌/◌, min, ◌≡◌, refl, sym, subst, Bool, true, false, ◌||◌, List, [],
  ◌∷◌, ◌++◌, Option, none, some, leb, if◌then◌else◌, length, Bool-cases, inl, inr, ◌⊎◌, arith,
}
use low_latency_capture_view.Common.Hresult.{failed}
use low_latency_capture_view.Common.Int.{
  ℤ, pos, pos_part, ltb_ℤ, leb_ℤ, eqb_ℤ, ◌-ℤ◌, ◌+ℤ◌, int_laws,
}
use low_latency_capture_view.Recording.Mux.{
  Sample, Write, World, Mux, offer, finish_with, finish, keep, push_next, push_first, push_video,
  prefix_from, prefix_audio, then_write, push_audio, push, maximum_prefix,
}

-- The time behind the last video of the list, when each starts where the one before it ended.
pub data Tiles (from : ℤ) : List Write → ℤ → Type 0 where
  empty : Tiles from [] from
  more_video :
      {ws : List Write} {to : ℤ} (d : ℤ)
      → Tiles from ws to
      → Tiles from (ws ++ record { video = true; time = to; duration = d } ∷ []) (to +ℤ d)
  more_audio :
      {ws : List Write} {to : ℤ} (t d : ℤ)
      → Tiles from ws to
      → Tiles from (ws ++ record { video = false; time = t; duration = d } ∷ []) to

-- Where the next video starts: at 0, or where the pending sample does.
abbrev pub Follows : Bool → Option Sample → ℤ → Type 0
Follows first none to = (first ≡ true) × (to ≡ pos 0)
Follows first (some p) to = p.time ≡ to

pub record Tiled (m : Mux) : Type 0 where
  pub upto : ℤ
  pub tiles : Tiles (pos 0) m.writes upto
  pub follows : Follows m.first_video m.pending upto

abbrev pub Offered : Mux → Type 0
Offered m = (to : ℤ) × Tiles (pos 0) m.writes to

-- After a call the next video can follow, or the call failed and nothing is pending.
abbrev pub Good : Mux × ℕ → Type 0
Good r = ((failed r.1 ≡ true) × (r.0.pending ≡ none) × Offered r.0) ⊎ Tiled r.0

keep-Good :
    (s : Sample) (r : Mux × ℕ) (to : ℤ)
    → r.0.pending ≡ none
    → Tiles (pos 0) r.0.writes to
    → s.time ≡ to
    → Good (keep s r)
unfolding keep
keep-Good s (m, hr) to n t e = elim (Bool-cases (failed hr)) [
  | inl f ↦ rw f (inl (f, n, (to, t)))
  | inr f ↦ rw f (inr (record { upto = to; tiles = t; follows = e }))
]

eqb_ℤ→eq : (a b : ℤ) → eqb_ℤ a b ≡ true → a ≡ b
eqb_ℤ→eq a b h = ground arith

module _ (w : World) (s : Sample) (m : Mux) (v : Tiled m) where
  push_next-Good : (p : Sample) → p.time ≡ v.upto → Good (push_next w s p m)
  unfolding push_next finish finish_with offer
  push_next-Good p e = elim (Bool-cases (leb_ℤ s.time p.time)) [
    | inl b ↦ rw b (inr v)
    | inr b ↦ elim (Bool-cases (failed (w.set_hr (length m.writes)))) [
      | inl f ↦ rw (b, f) (inr v)
      | inr f ↦
          rw (b, f)
            (keep-Good s _ (p.time +ℤ (s.time -ℤ p.time)) refl
              (more_video (s.time -ℤ p.time) (subst (Tiles (pos 0) m.writes) (sym e) v.tiles))
              (omega int_laws))
    ]
  ]

  push_first-Good : m.pending ≡ none → v.upto ≡ pos 0 → Good (push_first w s m)
  unfolding push_first offer
  push_first-Good n z =
      let from_zero = subst (Tiles (pos 0) m.writes) z v.tiles in
      elim (Bool-cases (ltb_ℤ maximum_prefix s.time)) [
        | inl b ↦ rw b (inr v)
        | inr b ↦ elim (Bool-cases (eqb_ℤ s.time (pos 0))) [
          | inl q ↦ rw (b, q) (keep-Good s _ (pos 0) n from_zero (eqb_ℤ→eq s.time (pos 0) q))
          | inr q ↦ elim (Bool-cases (failed (w.make_hr (length m.writes)))) [
            | inl f ↦ rw (b, q, f) (inl (f, n, (pos 0, from_zero)))
            | inr f ↦
                rw (b, q, f)
                  (keep-Good s _ (pos 0 +ℤ s.time) n (more_video s.time from_zero) (omega int_laws))
          ]
        ]
      ]

  push_video-Good : (o : Option Sample) → m.pending ≡ o → Good (push_video w s o m)
  unfolding push_video
  push_video-Good (some p) e =
      push_next-Good p (subst (λ o. Follows m.first_video o v.upto) e v.follows)
  push_video-Good none e =
      let (first, zero_yet) = subst (λ o. Follows m.first_video o v.upto) e v.follows in
      simp first (push_first-Good e zero_yet)

-- Audio leaves the video as it is.
offer_audio-Tiled :
    (w : World) (t d : ℤ) (m : Mux)
    → Tiled m
    → Tiled (offer w (record { video = false; time = t; duration = d }) m).0
unfolding offer
offer_audio-Tiled w t d m v = record {
  upto = v.upto;
  tiles = more_audio t d v.tiles;
  follows = v.follows;
}

prefix_from-Tiled :
    (w : World) (rounds first frames : ℕ) (m : Mux)
    → Tiled m
    → Tiled (prefix_from w rounds first frames m).0
unfolding prefix_from
prefix_from-Tiled w zero first frames m v = v
prefix_from-Tiled w (suc rounds) first frames m v =
    let count = min 4800 (frames - first) in
    let silence : Write = record {
      video = false;
      time = pos (first * 10000000 / 48000);
      duration = pos ((first + count) * 10000000 / 48000 - first * 10000000 / 48000);
    } in
    let next = offer_audio-Tiled w silence.time silence.duration m v in
    elim (Bool-cases (leb frames first)) [
      | inl b ↦ rw b v
      | inr b ↦ elim (Bool-cases (failed (w.make_hr (length m.writes)))) [
        | inl f ↦ rw (b, f) v
        | inr f ↦ elim (Bool-cases (failed (offer w silence m).1)) [
          | inl g ↦ rw (b, f, g) next
          | inr g ↦
              rw (b, f, g)
                (prefix_from-Tiled w rounds (first + count) frames (offer w silence m).0 next)
        ]
      ]
    ]

then_write-Tiled : (w : World) (s : Sample) (r : Mux × ℕ) → Tiled r.0 → Tiled (then_write w s r).0
unfolding then_write
then_write-Tiled w s (m, hr) v = elim (Bool-cases (failed hr)) [
  | inl f ↦ rw f v
  | inr f ↦ rw f (offer_audio-Tiled w s.time s.duration m v)
]

push_audio-Tiled : (w : World) (s : Sample) (m : Mux) → Tiled m → Tiled (push_audio w s m).0
unfolding push_audio
push_audio-Tiled w s m v = elim (Bool-cases m.first_audio) [
  | inr a ↦ simp a (offer_audio-Tiled w s.time s.duration m v)
  | inl a ↦ elim (Bool-cases (ltb_ℤ maximum_prefix s.time)) [
    | inl b ↦ simp (a, b) v
    | inr b ↦
        simp (a, b)
          (then_write-Tiled w s
            (prefix_audio w (pos_part s.time) (record m { first_audio = false }))
            (unfold prefix_audio in
              prefix_from-Tiled w _ 0 _ (record m { first_audio = false })
                (record { upto = v.upto; tiles = v.tiles; follows = v.follows })))
  ]
]

pub push-Good :
    (w : World) (video : Bool) (s : Sample) (m : Mux) → Tiled m → Good (push w true video s m)
unfolding push
push-Good w video s m v = elim (Bool-cases (failed s.time_hr)) [
  | inl a ↦ simp a (inr v)
  | inr a ↦ elim (Bool-cases (failed s.duration_hr)) [
    | inl b ↦ simp (a, b) (inr v)
    | inr b ↦ elim (Bool-cases (ltb_ℤ s.time (pos 0) || leb_ℤ s.duration (pos 0))) [
      | inl c ↦ simp (a, b, c) (inr v)
      | inr c ↦ simp (a, b, c) (either video)
    ]
  ]
]
  where
    either : (b : Bool) → Good (if b then push_video w s m.pending m else push_audio w s m)
    either true = push_video-Good w s m v m.pending refl
    either false = inr (push_audio-Tiled w s m v)
