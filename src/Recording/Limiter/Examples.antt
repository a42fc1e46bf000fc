-- ===== src/Recording/Limiter/Examples.antt =====
-- The limiter at concrete inputs.
use low_latency_capture_view.Common.{◌+◌, ◌*◌, ◌<◌, ◌≡◌, refl, true, [], ◌∷◌, arith}
use low_latency_capture_view.Common.Int.{pos}
use low_latency_capture_view.Recording.Limiter.{Limiter, accept, bucket, fresh_limiter}
use low_latency_capture_view.Recording.Limiter.Spacing.{
  none_left, then_time, accept_all, accept_all-rate, accept-spaced,
}

-- 60 frames a second, of which 30 are kept.
accept_all-rate_example :
    (accept_all (fresh_limiter 30 60) (1000 ∷ 167667 ∷ 334333 ∷ 501000 ∷ [])).1 * 10000000
    < 500000 * 30 + 30 + 15000000
accept_all-rate_example =
    accept_all-rate 30 60 1000 500000 (167667 ∷ 334333 ∷ 501000 ∷ []) (omega arith)
      (then_time (omega arith) (then_time (omega arith) (then_time (omega arith) none_left)))

abbrev running_limiter : Limiter
running_limiter = record {
  fps = 30;
  input_fps = 60;
  first = pos 1000;
  last_bucket = pos (bucket (fresh_limiter 30 60) 0);
}

accept-spaced_example : (accept (pos (1000 + 333334)) running_limiter).1 ≡ true
unfolding bucket
accept-spaced_example =
    accept-spaced running_limiter 1000 0 333334 (omega arith) refl refl (omega arith)
