-- ===== src/Audio/Recovery/Budget.antt =====
-- The retry budgets: how often, and after which waits, a broken input or output is tried again.
use low_latency_capture_view.Common.{
  ℕ, zero, suc, ◌+◌, ◌-◌, ◌*◌, ◌^◌, ◌≤◌, ◌<◌, ◌≡◌, ◌≢◌, ap, ◌∙◌, true, false, arith, List, [], ◌∷◌,
  ◌++◌, take, drop, replicate, lt→leb_false,
}
use low_latency_capture_view.Audio.Recovery.{
  Event, ran, broke, delays, observe_successful_runtime, next_delay, Attempt, complete,
  input_timeout, Action, asked, attempted, notified, waited,
}

-- No session of the history ran long enough to count as healthy.
abbrev pub NoneHealthy : List Event → Type 0
NoneHealthy [] = Unit {0}
NoneHealthy (ran runtime ∷ es) = (runtime < 30000) × NoneHealthy es
NoneHealthy (broke ∷ es) = NoneHealthy es

abbrev pub failures : List Event → ℕ
failures [] = 0
failures (ran runtime ∷ es) = failures es
failures (broke ∷ es) = suc (failures es)

abbrev pub backoff : List ℕ
backoff = 250 ∷ 500 ∷ 1000 ∷ []

-- The waits still to be handed out after `a` attempts, and zeros when they are spent.
abbrev pub schedule : ℕ → ℕ → List ℕ
schedule a n = take n (drop a backoff) ++ replicate (n - (3 - a)) 0

-- One failure more, counted against one wait less.
later :
    (rest : List ℕ) (left n : ℕ)
    → take n rest ++ replicate (n - left) 0 ≡ take n rest ++ replicate (suc n - suc left) 0
later rest left n = ap (λ k. take n rest ++ replicate k 0) (omega arith)

spent : (n : ℕ) → ◌++◌ {A = ℕ} (take n []) (replicate (n - 0) 0) ≡ replicate n 0
spent zero = ap (λ k. replicate k 0) {x = 0 - 0} {y = 0} (omega arith)
spent (suc n) = ap (λ k. replicate k 0) {x = suc n - 0} {y = suc n} (omega arith)

delays_from :
    (a : ℕ) (es : List Event)
    → a ≤ 3
    → NoneHealthy es
    → delays (record { attempts = a }) es ≡ schedule a (failures es)
unfolding delays observe_successful_runtime next_delay
delays_from a [] h n = ap (λ k. replicate k 0) {x = 0} {y = 0 - (3 - a)} (omega arith)
delays_from a (ran runtime ∷ es) h (short, n) =
    rw (lt→leb_false 30000 runtime short) (delays_from a es h n)
delays_from zero (broke ∷ es) h n =
    ap (λ l. 250 ∷ l) (delays_from 1 es (omega arith) n ∙ later (500 ∷ 1000 ∷ []) 2 (failures es))
delays_from (suc zero) (broke ∷ es) h n =
    ap (λ l. 500 ∷ l) (delays_from 2 es (omega arith) n ∙ later (1000 ∷ []) 1 (failures es))
delays_from (suc (suc zero)) (broke ∷ es) h n =
    ap (λ l. 1000 ∷ l) (delays_from 3 es (omega arith) n ∙ later [] 0 (failures es))
delays_from (suc (suc (suc zero))) (broke ∷ es) h n =
    ap (λ l. 0 ∷ l) (delays_from 3 es (omega arith) n ∙ spent (failures es))
    ∙ ap (λ k. replicate k 0) {x = suc (failures es)} {y = suc (failures es) - 0} (omega arith)
delays_from (suc (suc (suc (suc a)))) (broke ∷ es) h n = absurd (omega arith)

-- The calls of a recovery from round `n` on, with what they returned, and how it then ends.
pub data RetryLog : ℕ → Attempt → List Action → Type 0 where
  closed : {n : ℕ} → RetryLog n complete (asked false ∷ [])
  closed_meanwhile :
      {n : ℕ} (a : Attempt) → RetryLog n complete (asked true ∷ attempted a ∷ asked false ∷ [])
  settled :
      {n : ℕ} (a : Attempt)
      → a ≢ input_timeout
      → RetryLog n a (asked true ∷ attempted a ∷ asked true ∷ [])
  exhausted :
      {n : ℕ}
      → n ≡ 3
      → RetryLog n input_timeout (asked true ∷ attempted input_timeout ∷ asked true ∷ [])
  interrupted :
      {n : ℕ}
      → n < 3
      → RetryLog n complete (
          asked true
          ∷ attempted input_timeout
          ∷ asked true
          ∷ notified (n + 1)
          ∷ waited (250 * 2 ^ n) false
          ∷ [])
  retried :
      {n : ℕ} {r : Attempt} {log : List Action}
      → n < 3
      → RetryLog (n + 1) r log
      → RetryLog n r (
          asked true
          ∷ attempted input_timeout
          ∷ asked true
          ∷ notified (n + 1)
          ∷ waited (250 * 2 ^ n) true
          ∷ log)

-- Until a session runs for 30 seconds, the failures of an output are answered by waits of 250, 500
-- and 1000 ms, and then by 0, which gives up, however many follow.
pub delays-schedule :
    (es : List Event)
    → NoneHealthy es
    → delays (record { attempts = 0 }) es
      ≡ take (failures es) backoff ++ replicate (failures es - 3) 0
delays-schedule es n = delays_from 0 es (omega arith) n
