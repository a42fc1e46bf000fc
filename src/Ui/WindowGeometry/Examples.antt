-- ===== src/Ui/WindowGeometry/Examples.antt =====
-- A window that is dragged, at a concrete input.
use low_latency_capture_view.Common.{ℕ, ◌+◌, ◌*◌, ◌/◌, ◌≤◌, ◌<◌, ◌≡◌, refl, arith}
use low_latency_capture_view.Common.Int.{ℤ, pos, tdiv_ℤ, ◌*ℤ◌, ◌-ℤ◌, ◌+ℤ◌}
use native.Mathlib.Nat.{mul-div-le, lt-mul-div-succ, mul_assoc}
use low_latency_capture_view.Ui.WindowGeometry.{
  Rect, AspectConstraint, at_top_left, constrain_to_aspect,
}
use low_latency_capture_view.Ui.WindowGeometry.Anchors.{top_left_edge}
use low_latency_capture_view.Ui.WindowGeometry.Aspect.{
  IsMulDiv, Moderate, Constrained, constrain_to_aspect-Constrained,
}

-- A product and a division that rounds to the nearest, for numbers that are not negative.
abbrev mul_div : ℤ → ℤ → ℤ → ℤ
mul_div (pos a) (pos b) (pos c) = pos ((2 * (a * b) + c) / (2 * c))
mul_div a b c = tdiv_ℤ (a *ℤ b) c

rounded :
    (p c : ℕ)
    → 0 < c
    → (2 * p ≤ 2 * (c * ((2 * p + c) / (2 * c))) + c)
      × (2 * (c * ((2 * p + c) / (2 * c))) ≤ 2 * p + c)
rounded p c h =
    let q = (2 * p + c) / (2 * c) in
    let below : 2 * c * q ≤ 2 * p + c = mul-div-le (2 * p + c) (2 * c) in
    let above : 2 * p + c < 2 * c * (q + 1) = lt-mul-div-succ (2 * p + c) (omega arith) in
    let same : 2 * c * q ≡ 2 * (c * q) = mul_assoc 2 c q in
    let more : 2 * c * (q + 1) ≡ 2 * (c * (q + 1)) = mul_assoc 2 c (q + 1) in
    let next : c * (q + 1) ≡ c * q + c = grind arith in (omega arith, omega arith)

mul_div-IsMulDiv : IsMulDiv mul_div
mul_div-IsMulDiv a b c h k p =
    let fits = rounded (a * b) c p in
    ((2 * (a * b) + c) / (2 * c), refl, record { not_less = fits.0; not_more = fits.1 })

abbrev constraint : AspectConstraint
constraint = record {
  video_width = pos 1920;
  video_height = pos 1080;
  frame_width = pos 16;
  frame_height = pos 39;
  minimum_client_width = pos 320;
  minimum_client_height = pos 180;
}

abbrev window : Rect
window = record { left = pos 100; top = pos 100; right = pos 916; bottom = pos 700 }

window-Moderate : Moderate constraint window 1920 1080 320 180
unfolding ◌-ℤ◌ ◌+ℤ◌
window-Moderate = record {
  video_width = refl;
  video_height = refl;
  minimum_width = refl;
  minimum_height = refl;
  some_video = (omega arith, omega arith);
  small_video = (omega arith, omega arith);
  small_minimum = (omega arith, omega arith);
  small_width = omega arith;
  small_height = omega arith;
}

constrain_to_aspect-Constrained_example :
    Constrained mul_div mul_div-IsMulDiv constraint window 1920 1080 320 180 window-Moderate
      at_top_left
      (constrain_to_aspect mul_div window at_top_left constraint)
constrain_to_aspect-Constrained_example =
    constrain_to_aspect-Constrained mul_div mul_div-IsMulDiv constraint window 1920 1080 320 180
      window-Moderate top_left_edge
