-- ===== src/Recording/Mux/Worker.antt =====
-- The worker's use of the timeline, from the first sample to `Finish`.
use low_latency_capture_view.Common.{
  ◌≡◌, refl, sym, subst, Bool, true, List, [], ◌∷◌, ◌++◌, Option, none, some, if◌then◌else◌,
  Bool-cases, inl, inr,
}
use low_latency_capture_view.Common.Hresult.{failed}
use low_latency_capture_view.Common.Int.{ℤ, pos, ◌+ℤ◌}
use low_latency_capture_view.Recording.Mux.{
  Sample, World, Mux, create, offer, finish_with, finish, push,
}
use low_latency_capture_view.Recording.Mux.Tiles.{
  Tiles, empty, more_video, Follows, Tiled, Offered, push-Good,
}

-- What the worker does: it pushes until a call fails, and finishes what is pending in any case.
pub worker : World → List (Bool × Sample) → Mux → Mux
worker w [] m = (finish w m).0
worker w ((video, s) ∷ rest) m =
    let (m', hr) = push w true video s m in
    let later = worker w rest m' in
    let ended = (finish w m').0 in if failed hr then ended else later

finish-Offered : (w : World) (m : Mux) → Tiled m → Offered (finish w m).0
unfolding finish
finish-Offered w m v = last m.pending refl
  where
    last :
        (o : Option Sample)
        → m.pending ≡ o
        → Offered (finish_with w o (record m { pending = none })).0
    last none e = unfold finish_with in (v.upto, v.tiles)
    last (some p) e =
        let at = subst (λ o. Follows m.first_video o v.upto) e v.follows in
        unfold finish_with offer in
        (
          v.upto +ℤ p.duration,
          subst
              (λ t.
                Tiles (pos 0)
                  (m.writes ++ record { video = true; time = t; duration = p.duration } ∷ [])
                  (v.upto +ℤ p.duration))
              (sym at) (more_video p.duration v.tiles),
        )

finish_nothing : (w : World) (m : Mux) → m.pending ≡ none → Offered m → Offered (finish w m).0
unfolding finish finish_with
finish_nothing w m n (to, t) = rw n (to, t)

worker-Offered :
    (w : World) (ss : List (Bool × Sample)) (m : Mux) → Tiled m → Offered (worker w ss m)
unfolding worker
worker-Offered w [] m v = finish-Offered w m v
worker-Offered w ((video, s) ∷ rest) m v =
    let r = push w true video s m in
    elim (Bool-cases (failed r.1)) [
      | inl f ↦ rw f (elim (push-Good w video s m v) [
        | inl (g, n, o) ↦ finish_nothing w r.0 n o
        | inr t ↦ finish-Offered w r.0 t
      ])
      | inr f ↦ rw f (elim (push-Good w video s m v) [
        | inl (g, n, o) ↦ cc
        | inr t ↦ worker-Offered w rest r.0 t
      ])
    ]

-- A fragmented file, any samples of both streams, and any failures of the calls: the video that the
-- worker offers to the writer starts at 0, and every sample of it starts where the one before ends.
pub worker-Tiles :
    (w : World) (ss : List (Bool × Sample))
    → (to : ℤ) × Tiles (pos 0) (worker w ss create).writes to
worker-Tiles w ss =
    worker-Offered w ss create
      (unfold create in record { upto = pos 0; tiles = empty; follows = (refl, refl) })
