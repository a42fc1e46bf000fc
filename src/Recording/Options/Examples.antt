-- ===== src/Recording/Options/Examples.antt =====
-- The options at concrete inputs.
use low_latency_capture_view.Common.{◌≡◌, refl, true, arith}
use low_latency_capture_view.Common.Int.{pos}
use low_latency_capture_view.Recording.Options.{defaults, valid, output_size}
use low_latency_capture_view.Recording.Options.Sizes.{Fits, output_size-Fits}

defaults_valid : valid defaults ≡ true
unfolding valid
defaults_valid = refl

output_size-Fits_example : Fits 3840 2160 (output_size defaults (pos 3840) (pos 2160))
output_size-Fits_example =
    output_size-Fits defaults 3840 2160 defaults_valid (omega arith) (omega arith) (omega arith)
      (omega arith)
