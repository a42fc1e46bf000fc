-- ===== src/Recording/Session/Stages.antt =====
-- The parts of the end of a recording: what each of them does to the result.
use low_latency_capture_view.Common.{
  ℕ, ◌≡◌, refl, ap, ◌∙◌, subst, Bool, true, false, not, ◌||◌, ◌&&◌, ◌==◌, if◌then◌else◌, Bool-cases,
  inl, inr, arith,
}
use low_latency_capture_view.Common.Hresult
use low_latency_capture_view.Common.Hresult.{succeeded, mf_e_invalid_stream_data}
use low_latency_capture_view.Recording.Status.{Operation, write, finalize, finalization_result}
use low_latency_capture_view.Recording.Session.State.{Session, stop, latch, fail}
use low_latency_capture_view.Recording.Session.Finish.{
  fail_if, require_streams, finalize_stream, settle_file, verify, both_streams,
}

-- What a part of the end does to the result: it keeps a failure, and on a result of `S_OK` it
-- reports a failure of its own, unless all went well.
pub record Stage (ok : Bool) (s t : Session) : Type 0 where
  pub latched : Hresult.failed s.result ≡ true → t.result ≡ s.result
  pub passes : s.result ≡ 0 → ok ≡ true → t.result ≡ 0
  pub breaks : s.result ≡ 0 → ok ≡ false → Hresult.failed t.result ≡ true
  pub video : t.video_count ≡ s.video_count
  pub audio : t.audio_count ≡ s.audio_count

pub Stage-then : {a b : Bool} {s t u : Session} → Stage a s t → Stage b t u → Stage (a && b) s u
Stage-then {a} {b} {s} {t} {u} p q = record {
  latched = λ h. q.latched (ap Hresult.failed (p.latched h) ∙ h) ∙ p.latched h;
  passes = λ z h. both a refl z h;
  breaks = λ z h. either a refl z h;
  video = q.video ∙ p.video;
  audio = q.audio ∙ p.audio;
}
  where
    both : (a' : Bool) → a ≡ a' → s.result ≡ 0 → (a' && b) ≡ true → u.result ≡ 0
    both true e z h = q.passes (p.passes z e) h
    both false e z h = cc

    either :
        (a' : Bool) → a ≡ a' → s.result ≡ 0 → (a' && b) ≡ false → Hresult.failed u.result ≡ true
    either true e z h = q.breaks (p.passes z e) h
    either false e z h = ap Hresult.failed (q.latched (p.breaks z e)) ∙ p.breaks z e

-- The same session as far as a stage can tell.
pub record Alike (s t : Session) : Type 0 where
  pub result : t.result ≡ s.result
  pub video : t.video_count ≡ s.video_count
  pub audio : t.audio_count ≡ s.audio_count

pub Alike-Stage : {s t : Session} → Alike s t → Stage true s t
Alike-Stage a = record {
  latched = λ h. a.result;
  passes = λ z h. a.result ∙ z;
  breaks = λ z h. cc;
  video = a.video;
  audio = a.audio;
}

pub same : (s : Session) → Alike s s
same s = record { result = refl; video = refl; audio = refl }

latch_result :
    (hr : ℕ) (o : Operation) (s : Session)
    → (latch hr o s).result ≡ (if s.result == 0 then hr else s.result)
unfolding latch
latch_result hr o s = elim (Bool-cases (s.result == 0)) [ inl e ↦ rw e refl | inr e ↦ rw e refl ]

latch_counts :
    (hr : ℕ) (o : Operation) (s : Session)
    → ((latch hr o s).video_count ≡ s.video_count) × ((latch hr o s).audio_count ≡ s.audio_count)
unfolding latch
latch_counts hr o s = elim (Bool-cases (s.result == 0)) [
  | inl e ↦ rw e (refl, refl)
  | inr e ↦ rw e (refl, refl)
]

pub fail-Stage :
    (hr : ℕ) (o : Operation) (now : ℕ) (s t : Session)
    → Hresult.failed hr ≡ true
    → Alike s t
    → Stage false s (fail hr o now t)
unfolding fail stop
fail-Stage hr o now s t f a =
    let is : (latch hr o t).result ≡ (if s.result == 0 then hr else s.result) =
      latch_result hr o t ∙ ap (λ r. if r == 0 then hr else r) a.result in
    record {
      latched = λ h. is ∙ ground arith;
      passes = λ z h. cc;
      breaks = λ z h. ap Hresult.failed (is ∙ ap (λ r. if r == 0 then hr else r) z) ∙ f;
      video = (latch_counts hr o t).0 ∙ a.video;
      audio = (latch_counts hr o t).1 ∙ a.audio;
    }

-- A stage that fails exactly when a call has failed.
pub check-Stage :
    (hr : ℕ) (o : Operation) (now : ℕ) (s t u : Session)
    → Alike s t
    → Alike s u
    → Stage (succeeded hr) s (if Hresult.failed hr then fail hr o now t else u)
check-Stage hr o now s t u a b = elim (Bool-cases (Hresult.failed hr)) [
  | inl e ↦ rw e (fail-Stage hr o now s t e a)
  | inr e ↦ rw e (Alike-Stage b)
]

-- The next stage, whose condition reads the counts that the stages leave as they are.
pub Stage-next :
    {a : Bool} {s t u : Session} (f : Bool → Bool)
    → Stage a s t
    → Stage (f (both_streams t)) t u
    → Stage (a && f (both_streams s)) s u
Stage-next {a} {s} {t} {u} f p q =
    let counts : both_streams t ≡ both_streams s = rw (p.video, p.audio) refl in
    Stage-then p (subst (λ b. Stage (f b) t u) counts q)

pub Stage-if :
    {ok : Bool} {s t : Session} (b : Bool)
    → Stage ok s t
    → Stage (not b || ok) s (if b then t else s)
Stage-if true p = p
Stage-if {ok} {s} false p = Alike-Stage (same s)

module _ (now : ℕ) (s : Session) where
  pub fail_if-Stage :
      (hr : ℕ) (o : Operation) (t : Session)
      → Alike s t
      → Stage (succeeded hr) s (fail_if hr o now t)
  unfolding fail_if
  fail_if-Stage hr o t a = check-Stage hr o now s t t a a

  pub require_streams-Stage : Stage (both_streams s) s (require_streams now s)
  unfolding require_streams
  require_streams-Stage = elim (Bool-cases (both_streams s)) [
    | inl e ↦ rw e (Alike-Stage (same s))
    | inr e ↦ rw e (
        fail-Stage mf_e_invalid_stream_data finalize now s _ refl
          (record { result = refl; video = refl; audio = refl }))
  ]

  pub settle_file-Stage : (hr : ℕ) → Stage (succeeded hr) s (settle_file hr now s)
  unfolding settle_file
  settle_file-Stage hr =
      check-Stage hr finalize now s _ s (record { result = refl; video = refl; audio = refl })
        (same s)

  pub verify-Stage :
      (begun : Bool) (verified : ℕ)
      → Stage (not (begun && both_streams s) || succeeded verified) s (verify begun verified now s)
  unfolding verify
  verify-Stage begun verified = elim (Bool-cases (begun && both_streams s)) [
    | inl e ↦ rw e (
        check-Stage verified finalize now s _ _
          (record { result = refl; video = refl; audio = refl })
          (record { result = refl; video = refl; audio = refl }))
    | inr e ↦ rw e (Alike-Stage (same s))
  ]

module _ (now : ℕ) (s : Session) where
  pub finalize_stream-Stage :
      (pending finalized : ℕ)
      → Stage
          (succeeded pending && succeeded finalized && both_streams s)
          s
          (finalize_stream pending finalized now s)
  unfolding finalize_stream
  finalize_stream-Stage pending finalized =
      let first = fail_if-Stage now s pending write s (same s) in
      let second =
        fail_if-Stage now (fail_if pending write now s) finalized finalize
          (record (fail_if pending write now s) {
            finalize_result = finalization_result pending finalized;
          })
          (record { result = refl; video = refl; audio = refl }) in
      Stage-next (λ b. b) (Stage-then first second) (require_streams-Stage now _)
