-- ===== src/Recording/Session/State.antt =====
-- The state of the recorder, its requests to pause, stop and fail, and the time that it shows.
use low_latency_capture_view.Common.{
  ℕ, ◌+◌, ◌-◌, ◌%◌, ◌^◌, Bool, true, false, not, ◌||◌, ◌&&◌, ◌==◌, leb, if◌then◌else◌,
}
use low_latency_capture_view.Common.Hresult.{s_ok}
use low_latency_capture_view.Recording.Status
use low_latency_capture_view.Recording.Status.{
  Phase, idle, starting, saved, Failure, Operation, input, encoder, write, finalize,
  classify_failure, finalization_result, begin_finalizing, try_publish_recording, is_recording,
}

pub record Session : Type 0 where
  pub busy : Bool
  pub stopping : Bool  -- stop_
  pub phase : Phase
  pub result : ℕ
  pub finalize_result : ℕ
  pub failure : Failure
  pub started_ms : ℕ  -- uint64
  pub stopped_ms : ℕ  -- uint64
  pub pause_generation : ℕ  -- uint64
  pub paused_since_ms : ℕ  -- uint64
  pub total_paused_ms : ℕ  -- uint64
  pub session : ℕ  -- uint64
  pub video_count : ℕ
  pub audio_count : ℕ
  pub playable : Bool

-- `uint64_t` differences and sums.
abbrev pub sub_u64 : ℕ → ℕ → ℕ
sub_u64 a b = (a + 2 ^ 64 - b) % 2 ^ 64

abbrev pub add_u64 : ℕ → ℕ → ℕ
add_u64 a b = (a + b) % 2 ^ 64

abbrev pub is_none : Failure → Bool
is_none Status.none = true
is_none _ = false

unfoldable pub stop : ℕ → Session → Session
stop now s = record s {
  stopping = true;
  phase = begin_finalizing s.phase;
  stopped_ms = if s.stopped_ms == 0 then now else s.stopped_ms;
}

-- The two exchanges of `Fail`.
unfoldable pub latch : ℕ → Operation → Session → Session
latch hr operation s =
    if s.result == s_ok
    then record s {
      result = hr;
      failure = if is_none s.failure then classify_failure hr operation else s.failure;
    }
    else s

unfoldable pub fail : ℕ → Operation → ℕ → Session → Session
unfolding stop latch
fail hr operation now s = stop now (latch hr operation s)

abbrev pub paused : Session → Bool
paused s = s.pause_generation % 2 == 1

abbrev same : Bool → Bool → Bool
same true b = b
same false b = not b

unfoldable pub set_paused : Bool → ℕ → Session → Session × Bool
set_paused pausing now s =
    if not s.busy || s.stopping || not (is_recording s.phase)
    then (s, false)
    else if same (paused s) pausing
    then (s, true)
    else (
      if pausing
          then record s { paused_since_ms = now; pause_generation = add_u64 s.pause_generation 1 }
          else record s {
            total_paused_ms = add_u64 s.total_paused_ms (sub_u64 now s.paused_since_ms);
            paused_since_ms = 0;
            pause_generation = add_u64 s.pause_generation 1;
          },
      true,
    )

-- `Snapshot::elapsedMs`
unfoldable pub elapsed_ms : ℕ → Session → ℕ
elapsed_ms now s =
    let end = if s.stopped_ms == 0 then now else s.stopped_ms in
    let paused =
      if not (s.paused_since_ms == 0) && leb s.paused_since_ms end
      then add_u64 s.total_paused_ms (sub_u64 end s.paused_since_ms)
      else s.total_paused_ms in
    if not (s.started_ms == 0) && leb s.started_ms end && leb paused (sub_u64 end s.started_ms)
    then sub_u64 (sub_u64 end s.started_ms) paused
    else 0

-- `Snapshot::paused`
abbrev pub shows_paused : Session → Bool
shows_paused s = s.busy && is_recording s.phase && paused s
