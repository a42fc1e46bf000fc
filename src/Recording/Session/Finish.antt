-- ===== src/Recording/Session/Finish.antt =====
-- The end of `Recorder::Run`: the last sample, the container, the file and its check.
use low_latency_capture_view.Common.{
  ℕ, Bool, false, not, ◌&&◌, Option, none, some, ◌==◌, if◌then◌else◌,
}
use low_latency_capture_view.Common.Hresult
use low_latency_capture_view.Common.Hresult.{succeeded, mf_e_invalid_stream_data}
use low_latency_capture_view.Recording.Status
use low_latency_capture_view.Recording.Status.{
  Operation, saved, write, finalize, finalization_result,
}
use low_latency_capture_view.Recording.Session.State.{Session, stop, fail}

-- What the calls at the end of `Run` return: `broke` is the exception that its loop ended with,
-- `storage` the results of flushing and closing the file, if there is one.
pub record Ending : Type 0 where
  pub broke : Option (ℕ × Operation)
  pub begun : Bool
  pub pending : ℕ
  pub finalized : ℕ
  pub storage : Option (ℕ × ℕ)
  pub verified : ℕ

abbrev pub both_streams : Session → Bool
both_streams s = not (s.video_count == 0) && not (s.audio_count == 0)

-- Of the clock's readings, only the first is kept, so all are one `now`.
unfoldable pub broken : Option (ℕ × Operation) → ℕ → Session → Session
broken none now s = s
broken (some (hr, operation)) now s = fail hr operation now s

unfoldable pub fail_if : ℕ → Operation → ℕ → Session → Session
fail_if hr operation now s = if Hresult.failed hr then fail hr operation now s else s

unfoldable pub require_streams : ℕ → Session → Session
require_streams now s =
    if both_streams s
    then s
    else fail mf_e_invalid_stream_data finalize now
        (record s { finalize_result = mf_e_invalid_stream_data })

unfoldable pub finalize_stream : ℕ → ℕ → ℕ → Session → Session
unfolding fail_if require_streams
finalize_stream pending finalized now s =
    let s' = fail_if pending write now s in
    let s'' = record s' { finalize_result = finalization_result pending finalized } in
    require_streams now (fail_if finalized finalize now s'')

unfoldable pub settle_file : ℕ → ℕ → Session → Session
settle_file hr now s =
    if Hresult.failed hr then fail hr finalize now (record s { finalize_result = hr }) else s

unfoldable pub verify : Bool → ℕ → ℕ → Session → Session
verify begun verified now s =
    let seen = record s { playable = succeeded verified } in
    if begun && both_streams s
    then (if Hresult.failed verified
        then fail verified finalize now (record seen {
          finalize_result = if succeeded s.finalize_result then verified else s.finalize_result;
        })
        else seen)
    else s

unfoldable pub close_file : Bool → ℕ → Option (ℕ × ℕ) → ℕ → Session → Session
unfolding settle_file verify
close_file begun verified none now s = s
close_file begun verified (some (flush, close)) now s =
    verify begun verified now (settle_file close now (settle_file flush now s))

-- `Run` from the end of its loop.
unfoldable pub finish : Ending → ℕ → Session → Session
unfolding broken finalize_stream close_file
finish e now s =
    let stopped = stop now (broken e.broke now s) in
    let written = if e.begun then finalize_stream e.pending e.finalized now stopped else stopped in
    let closed = close_file e.begun e.verified e.storage now written in
    record closed { phase = if succeeded closed.result then saved else Status.failed; busy = false }
