-- ===== src/Recording/Limiter.antt =====
-- src/recording/RecordingOptions.h, `FrameLimiter`: which captured frames a lower frame rate keeps.
-- Rates are not negative; int64 does not wrap.
pub mod Spacing
mod Examples
use low_latency_capture_view.Common.{
  ℕ, ◌+◌, ◌-◌, ◌*◌, ◌/◌, max, Bool, true, false, ◌==◌, ltb, if◌then◌else◌,
}
use low_latency_capture_view.Common.Int.{ℤ, pos, negsuc, pos_part, ltb_ℤ, leb_ℤ, ◌-ℤ◌}

pub record Limiter : Type 0 where
  pub fps : ℕ
  pub input_fps : ℕ
  pub first : ℤ
  pub last_bucket : ℤ

abbrev pub fresh_limiter : ℕ → ℕ → Limiter
fresh_limiter fps input_fps = record {
  fps = fps;
  input_fps = input_fps;
  first = negsuc 0;
  last_bucket = negsuc 0;
}

abbrev pub tolerance : Limiter → ℕ
tolerance l = if ltb l.fps l.input_fps then 5000000 / max 1 l.input_fps else 0

-- The bucket of a time that is `elapsed` after the first, and not before it.
unfoldable pub bucket : Limiter → ℕ → ℕ
bucket l elapsed = ((elapsed + tolerance l) * l.fps + l.fps - 1) / 10000000

abbrev pub first_of : ℤ → Limiter → ℤ
first_of time l = if ltb_ℤ l.first (pos 0) then time else l.first

-- The time since the first frame; `Accept` has tested that it is not negative.
unfoldable pub elapsed : ℤ → ℤ → ℕ
elapsed time start = pos_part (time -ℤ start)

-- From the test of the first frame's time on.
unfoldable pub accept_from : ℤ → ℤ → Limiter → Limiter × Bool
unfolding elapsed bucket
accept_from time start l =
    let seen = record l { first = start } in
    let b = pos (bucket l (elapsed time start)) in
    if ltb_ℤ time start
    then (seen, false)
    else if leb_ℤ b l.last_bucket
    then (seen, false)
    else (record seen { last_bucket = b }, true)

unfoldable pub accept : ℤ → Limiter → Limiter × Bool
unfolding accept_from
accept time l = if l.fps == 0 then (l, true) else accept_from time (first_of time l) l
