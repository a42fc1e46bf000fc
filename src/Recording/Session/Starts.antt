-- ===== src/Recording/Session/Starts.antt =====
-- What `Start` leaves on each of its branches.
use low_latency_capture_view.Common.{
  ℕ, ◌≡◌, refl, subst, Bool, true, false, none, some, inl, inr, Option-cases, Bool-cases,
}
use low_latency_capture_view.Common.Hresult.{e_outofmemory}
use low_latency_capture_view.Recording.Status
use low_latency_capture_view.Recording.Status.{
  Operation, starting, classify_failure, encoder, begin_finalizing,
}
use low_latency_capture_view.Recording.Options.{Options}
use low_latency_capture_view.Recording.Session.State.{Session, fail, latch, stop}
use low_latency_capture_view.Recording.Session.Formats.{Video, Audio, refusal}
use low_latency_capture_view.Recording.Session.Refusals.{Cause, refusal-Cause}
use low_latency_capture_view.Recording.Session.Start.{start, refused, fresh, begin_worker}

-- A session that was refused for `hr`: it ended before anything was recorded.
pub record Refused (hr : ℕ) (o : Operation) (s : Session) : Type 0 where
  pub idle_again : s.busy ≡ false
  pub told : s.phase ≡ Status.failed
  pub cause : s.result ≡ hr
  pub classified : s.failure ≡ classify_failure hr o
  pub asked_to_stop : s.stopping ≡ true
  pub none_shown : s.started_ms ≡ 0

-- A session that starts: nothing of an earlier recording is left in it.
pub record Started (s : Session) : Type 0 where
  pub is_busy : s.busy ≡ true
  pub begins : s.phase ≡ starting
  pub no_failure : (s.result ≡ 0) × (s.failure ≡ Status.none)
  pub goes_on : s.stopping ≡ false
  pub no_samples : (s.video_count ≡ 0) × (s.audio_count ≡ 0)
  pub no_times : (s.started_ms ≡ 0) × (s.stopped_ms ≡ 0)
  pub no_file : (s.finalize_result ≡ 0) × (s.playable ≡ false)
  pub not_paused : (s.pause_generation ≡ 0) × (s.paused_since_ms ≡ 0) × (s.total_paused_ms ≡ 0)

-- What `Start` returns and leaves, for a session and for whether the thread could be created.
pub data StartResult (wake : Bool) (o : Options) (v : Video) (a : Audio) (s : Session)
    : Bool → Session × Bool → Type 0 where
  already_busy : {spawned : Bool} → s.busy ≡ true → StartResult wake o v a s spawned (s, false)
  turned_down :
      {hr : ℕ} {operation : Operation} {spawned : Bool} {t : Session}
      → s.busy ≡ false
      → Cause wake o v a (some (hr, operation))
      → Refused hr operation t
      → StartResult wake o v a s spawned (t, false)
  no_thread :
      {t : Session}
      → s.busy ≡ false
      → Cause wake o v a none
      → Refused e_outofmemory encoder t
      → StartResult wake o v a s false (t, false)
  accepted :
      {t : Session}
      → s.busy ≡ false
      → Cause wake o v a none
      → Started t
      → StartResult wake o v a s true (t, true)

module _ (now : ℕ) (s : Session) where
  refused-Refused :
      (hr : ℕ) (o : Operation) → s.busy ≡ false → Refused hr o (refused now (hr, o) (fresh s))
  unfolding refused fresh fail latch stop
  refused-Refused hr o b = record {
    idle_again = b;
    told = refl;
    cause = refl;
    classified = refl;
    asked_to_stop = refl;
    none_shown = refl;
  }

  begin_worker-result :
      {wake : Bool} {o : Options} {v : Video} {a : Audio} (spawned : Bool)
      → s.busy ≡ false
      → Cause wake o v a none
      → StartResult wake o v a s spawned (begin_worker spawned now (fresh s))
  unfolding begin_worker fresh refused fail latch stop
  begin_worker-result true b c = accepted b c (record {
    is_busy = refl;
    begins = refl;
    no_failure = (refl, refl);
    goes_on = refl;
    no_samples = (refl, refl);
    no_times = (refl, refl);
    no_file = (refl, refl);
    not_paused = (refl, refl, refl);
  })
  begin_worker-result false b c = no_thread b c (record {
    idle_again = refl;
    told = refl;
    cause = refl;
    classified = refl;
    asked_to_stop = refl;
    none_shown = refl;
  })

-- On any session: a busy recorder refuses and is left as it is. Any other one refuses where there is
-- no event, the video is UYVY, or the options and formats are not ones that can be recorded, in this
-- order, and names that cause; or where the thread cannot be created. The phase is then failed and the
-- recorder not busy. Else it accepts, and its phase, failure and result, the result of the
-- finalization, that no file is playable yet, its counts of samples, its times and its pauses are those
-- of a new recording.
pub start-StartResult :
    (wake spawned : Bool) (o : Options) (v : Video) (a : Audio) (now : ℕ) (s : Session)
    → StartResult wake o v a s spawned (start wake spawned o v a now s)
unfolding start
start-StartResult wake spawned o v a now s = elim (Bool-cases s.busy) [
  | inl b ↦ simp b (already_busy b)
  | inr b ↦ elim (Option-cases (refusal wake o v a)) [
    | inl e ↦
        simp (b, e)
          (begin_worker-result now s spawned b
            (subst (Cause wake o v a) e (refusal-Cause wake o v a)))
    | inr ((hr, op), e) ↦
        simp (b, e)
          (turned_down b (subst (Cause wake o v a) e (refusal-Cause wake o v a))
            (refused-Refused now s hr op b))
  ]
]
