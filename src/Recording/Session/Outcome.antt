-- ===== src/Recording/Session/Outcome.antt =====
-- How a recording ends: saved, or failed with its first cause.
use low_latency_capture_view.Common.{
  ℕ, ◌≡◌, refl, sym, ap, ◌∙◌, Bool, true, false, not, ◌||◌, ◌&&◌, Option, none, some, ◌==◌,
  if◌then◌else◌, inl, inr, ◌⊎◌, arith,
}
use low_latency_capture_view.Common.Hresult
use low_latency_capture_view.Common.Hresult.{succeeded, mf_e_invalid_stream_data}
use low_latency_capture_view.Recording.Status
use low_latency_capture_view.Recording.Status.{
  Operation, saved, write, finalize, finalization_result,
}
use low_latency_capture_view.Recording.Session.State.{Session, stop}
use low_latency_capture_view.Recording.Session.Finish.{
  Ending, broken, settle_file, close_file, finish, both_streams,
}
use low_latency_capture_view.Recording.Session.Stages.{
  Stage, Stage-then, Stage-next, Stage-if, Alike-Stage, same, fail-Stage, settle_file-Stage,
  verify-Stage, finalize_stream-Stage,
}

-- What has to go well for a recording to be saved.
abbrev pub went_on : Option (ℕ × Operation) → Bool
went_on none = true
went_on (some why) = false

abbrev pub file_ok : Bool → Bool → ℕ → Option (ℕ × ℕ) → Bool
file_ok begun both verified none = true
file_ok begun both verified (some (flush, close)) =
    succeeded flush && succeeded close && (not (begun && both) || succeeded verified)

abbrev pub all_well : Ending → Session → Bool
all_well e s =
    went_on e.broke
    && (not e.begun || succeeded e.pending && succeeded e.finalized && both_streams s)
    && file_ok e.begun (both_streams s) e.verified e.storage

close_file-Stage :
    (now : ℕ) (s : Session) (begun : Bool) (verified : ℕ) (storage : Option (ℕ × ℕ))
    → Stage
        (file_ok begun (both_streams s) verified storage)
        s
        (close_file begun verified storage now s)
unfolding close_file
close_file-Stage now s begun verified none = Alike-Stage (same s)
close_file-Stage now s begun verified (some (flush, close)) =
    Stage-next (λ b. not (begun && b) || succeeded verified)
      (Stage-then (settle_file-Stage now s flush)
        (settle_file-Stage now (settle_file flush now s) close))
      (verify-Stage now _ begun verified)

-- An exception is a failing result code.
abbrev pub Fails : Option (ℕ × Operation) → Type 0
Fails none = Unit {0}
Fails (some (hr, o)) = Hresult.failed hr ≡ true

broken-Stage :
    (b : Option (ℕ × Operation)) (now : ℕ) (s : Session)
    → Fails b
    → Stage (went_on b) s (stop now (broken b now s))
unfolding broken stop
broken-Stage none now s f = Alike-Stage (record { result = refl; video = refl; audio = refl })
broken-Stage (some (hr, o)) now s f =
    let st = fail-Stage hr o now s s f (same s) in
    record {
      latched = st.latched;
      passes = st.passes;
      breaks = st.breaks;
      video = st.video;
      audio = st.audio;
    }

module _ (e : Ending) (now : ℕ) (s : Session) (f : Fails e.broke) where
  end-Stage : (t : Session) × Stage (all_well e s) s t × (t.result ≡ (finish e now s).result)
  unfolding finish
  end-Stage =
      let stopped = broken-Stage e.broke now s f in
      let written =
        Stage-next (λ b. not e.begun || succeeded e.pending && succeeded e.finalized && b) stopped
          (Stage-if e.begun
            (finalize_stream-Stage now (stop now (broken e.broke now s)) e.pending e.finalized)) in
      let closed =
        Stage-next (λ b. file_ok e.begun b e.verified e.storage) written
          (close_file-Stage now _ e.begun e.verified e.storage) in
      (_, closed, refl)

  finish_phase :
      (finish e now s).phase ≡ (if succeeded (finish e now s).result then saved else Status.failed)
  unfolding finish
  finish_phase = refl

  -- The end of the worker, when an exception is a failing code: a failure from before is still the
  -- result that is reported.
  finish_first_cause : Hresult.failed s.result ≡ true → (finish e now s).result ≡ s.result
  finish_first_cause h = let (t, st, is) = end-Stage in sym is ∙ st.latched h

  -- The end of the worker, when an exception is a failing code and the result before is `S_OK` or a
  -- failure, as all that `Fail` stores are: the recording is saved exactly when nothing had failed
  -- before, no exception ended the loop, every call that was made succeeded, and a file that was begun
  -- got samples of both streams.
  pub finish-saved :
      (s.result ≡ 0) ⊎ (Hresult.failed s.result ≡ true)
      → (finish e now s).phase ≡ (if s.result == 0 && all_well e s then saved else Status.failed)
  finish-saved r =
      let (t, st, is) = end-Stage in
      finish_phase
      ∙ ap (λ x. if succeeded x then saved else Status.failed) (sym is)
      ∙ ended (all_well e s) refl r st
    where
      ended :
          {t : Session} (ok : Bool)
          → all_well e s ≡ ok
          → (s.result ≡ 0) ⊎ (Hresult.failed s.result ≡ true)
          → Stage (all_well e s) s t
          → (if succeeded t.result then saved else Status.failed)
            ≡ (if s.result == 0 && all_well e s then saved else Status.failed)
      ended true w (inl z) st = rw (z, w, st.passes z w) refl
      ended false w (inl z) st = rw (z, w, st.breaks z w) refl
      ended ok w (inr h) st =
          let nonzero : (s.result == 0) ≡ false = ground arith in rw (nonzero, st.latched h, h) refl
