-- ===== src/Recording/Session/Start.antt =====
-- `Recorder::Start`, and the step of the worker that publishes the recording.
use low_latency_capture_view.Common.{ℕ, ◌||◌, Bool, true, false, not, none, some, if◌then◌else◌}
use low_latency_capture_view.Common.Hresult.{e_outofmemory, s_ok}
use low_latency_capture_view.Recording.Status
use low_latency_capture_view.Recording.Status.{
  Phase, starting, Operation, encoder, try_publish_recording,
}
use low_latency_capture_view.Recording.Options.{Options}
use low_latency_capture_view.Recording.Session.State.{Session, add_u64, fail}
use low_latency_capture_view.Recording.Session.Formats.{Video, Audio, refusal}

-- What every start resets.
unfoldable pub fresh : Session → Session
fresh s = record s {
  session = add_u64 s.session 1;
  result = s_ok;
  stopping = false;
  finalize_result = s_ok;
  failure = Status.none;
  phase = starting;
  started_ms = 0;
  stopped_ms = 0;
  pause_generation = 0;
  playable = false;
  paused_since_ms = 0;
  total_paused_ms = 0;
}

unfoldable pub refused : ℕ → ℕ × Operation → Session → Session
unfolding fail
refused now (hr, operation) s = record (fail hr operation now s) { phase = Status.failed }

unfoldable pub begin_worker : Bool → ℕ → Session → Session × Bool
unfolding refused
begin_worker spawned now s =
    let counted = record s { video_count = 0; audio_count = 0 } in
    if spawned
    then (record counted { busy = true }, true)
    else (refused now (e_outofmemory, encoder) (record counted { busy = false }), false)

-- `spawned` is that the thread could be created.
unfoldable pub start : Bool → Bool → Options → Video → Audio → ℕ → Session → Session × Bool
unfolding refused begin_worker
start wake spawned o v a now s = if s.busy then (s, false) else elim (refusal wake o v a) [
  | some why ↦ (refused now why (fresh s), false)
  | none ↦ begin_worker spawned now (fresh s)
]

-- `Run` once the writer has begun: the start is noted before the phase is published.
unfoldable pub publish_start : ℕ → Session → Session
publish_start now s =
    let (phase, won) = try_publish_recording s.phase in
    record s { started_ms = now; phase = phase; stopping = s.stopping || not won }
