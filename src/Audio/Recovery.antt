-- ===== src/Audio/Recovery.antt =====
-- src/audio/RecoveryPolicy.h and the retry loop of src/capture/AudioInputRecovery.h. Times are
-- milliseconds.
pub mod Budget
mod Examples
use low_latency_capture_view.Common.{
  ℕ, zero, suc, ◌+◌, ◌-◌, ◌*◌, ◌^◌, ◌≤◌, ◌<◌, ◌≡◌, refl, sym, ap, ◌∙◌, Bool, true, false, not, ◌&&◌,
  ◌||◌, arith, leb, ltb, ◌==◌, if◌then◌else◌, List, [], ◌∷◌, ◌++◌, length,
}

pub record RecoveryPolicy : Type 0 where
  pub attempts : ℕ

pub observe_successful_runtime : ℕ → RecoveryPolicy → RecoveryPolicy
observe_successful_runtime runtime p = if leb 30000 runtime then record { attempts = 0 } else p

-- The delay before the next attempt, 0 when the budget is spent.
pub next_delay : RecoveryPolicy → RecoveryPolicy × ℕ
next_delay p =
    if leb 3 p.attempts
    then (p, 0)
    else (record { attempts = p.attempts + 1 }, 250 * 2 ^ p.attempts)

-- What the owner of the policy reports to it: a session that ran for a time, or one that broke.
pub data Event : Type 0 where
  ran : ℕ → Event
  broke : Event

-- The delays handed out over a history.
pub delays : RecoveryPolicy → List Event → List ℕ
delays p [] = []
delays p (ran runtime ∷ es) = delays (observe_successful_runtime runtime p) es
delays p (broke ∷ es) = let (p', d) = next_delay p in d ∷ delays p' es

pub data Timeout : Type 0 where
  none startup stalled : Timeout

abbrev pub startup_timeout_ms : ℕ
startup_timeout_ms = 10000

abbrev pub stall_timeout_ms : ℕ
stall_timeout_ms = 5000

-- `AudioInputWatchdog::Check` of a watchdog started at `started`.
pub check : ℕ → ℕ → ℕ → Timeout
check started now last_packet =
    let received = not (last_packet == 0) && leb started last_packet in
    let since = if received then last_packet else started in
    let limit = if received then stall_timeout_ms else startup_timeout_ms in
    if ltb now since || ltb (now - since) limit
    then none
    else (if received then stalled else startup)

pub data Attempt : Type 0 where
  complete failed input_timeout : Attempt

abbrev pub retry_limit : ℕ
retry_limit = 3

-- What `RunAudioInputRecovery` is given: functions that may change the world.
pub record World (S : Type 0) : Type 0 where
  pub attempt : S → S × Attempt
  pub running : S → S × Bool
  pub wait : ℕ → S → S × Bool
  pub notify : ℕ → S → S

-- A call of one of them, with what it returned.
pub data Action : Type 0 where
  asked : Bool → Action
  attempted : Attempt → Action
  notified : ℕ → Action
  waited : ℕ → Bool → Action

abbrev timed_out : Attempt → Bool
timed_out input_timeout = true
timed_out _ = false

-- The result, the world after, and what was done in between.
abbrev pub Outcome : Type 0 → Type 0
Outcome S = Attempt × S × List Action

abbrev did : {S : Type 0} → List Action → Outcome S → Outcome S
did before (r, s, after) = (r, s, before ++ after)

-- The tests of one round, over what its calls returned; `rest` is what the next rounds do.
module _ {S : Type 0} where
  pub choose_wait : List Action → ℕ → Bool → S → Outcome S → Outcome S
  choose_wait before retry waited_out s4 rest =
      let log = before ++ (notified (retry + 1) ∷ waited (250 * 2 ^ retry) waited_out ∷ []) in
      if not waited_out then (complete, s4, log) else did log rest

  pub choose : ℕ → Bool → Bool → Bool → Attempt → S → S → S → Outcome S → Outcome S
  unfolding choose_wait
  choose retry alive still waited_out result s1 s3 s4 rest =
      let log = asked alive ∷ attempted result ∷ asked still ∷ [] in
      if not alive
      then (complete, s1, asked alive ∷ [])
      else if not still
      then (complete, s3, log)
      else if not (timed_out result) || retry == retry_limit
      then (result, s3, log)
      else choose_wait log retry waited_out s4 rest

module _ {S : Type 0} (w : World S) where
  -- Round `retry` of the loop; `again` is the rest of the loop.
  pub round : (ℕ → S → Outcome S) → ℕ → S → Outcome S
  unfolding choose
  round again retry s =
      let (s1, alive) = w.running s in
      let (s2, result) = w.attempt s1 in
      let (s3, still) = w.running s2 in
      let (s4, waited_out) = w.wait (250 * 2 ^ retry) (w.notify (retry + 1) s3) in
      choose retry alive still waited_out result s1 s3 s4 (again (retry + 1) s4)

  pub recover_from : ℕ → ℕ → S → Outcome S
  recover_from zero retry s = (complete, s, [])
  recover_from (suc fuel) retry s = round (recover_from fuel) retry s

  -- The loop ends by itself in round `retry_limit`, so one more round of fuel is enough.
  pub run_audio_input_recovery : S → Outcome S
  run_audio_input_recovery s = recover_from (retry_limit + 1) 0 s
