-- ===== src/Ui/WindowGeometry.antt =====
-- src/ui/WindowGeometry.h and .cpp: the size of a window that is being dragged, and the parts of a
-- window without a border. `int` sums do not wrap. `MulDiv` is a function of the platform, an argument
-- here.
pub mod Anchors
pub mod Aspect
mod Examples
use low_latency_capture_view.Common.{ℕ, Bool, true, false, not, ◌&&◌, ◌||◌, if◌then◌else◌}
use low_latency_capture_view.Common.Int.{
  ℤ, pos, negsuc, ltb_ℤ, leb_ℤ, max_ℤ, ◌+ℤ◌, ◌-ℤ◌, pos_part, neg_part,
}

pub record Rect : Type 0 where
  pub left : ℤ
  pub top : ℤ
  pub right : ℤ
  pub bottom : ℤ

pub record AspectConstraint : Type 0 where
  pub video_width : ℤ
  pub video_height : ℤ
  pub frame_width : ℤ
  pub frame_height : ℤ
  pub minimum_client_width : ℤ
  pub minimum_client_height : ℤ

-- The WMSZ_ constants; `other_edge` is any other number.
pub data Edge : Type 0 where
  at_left at_right at_top at_bottom at_top_left at_top_right at_bottom_left at_bottom_right : Edge
  other_edge : Edge

abbrev pub is_vertical : Edge → Bool
is_vertical at_top = true
is_vertical at_bottom = true
is_vertical _ = false

abbrev pub is_horizontal : Edge → Bool
is_horizontal at_left = true
is_horizontal at_right = true
is_horizontal _ = false

abbrev pub abs : ℤ → ℤ
abs z = if ltb_ℤ z (pos 0) then pos 0 -ℤ z else z

module _ (mul_div : ℤ → ℤ → ℤ → ℤ) (c : AspectConstraint) where
  unfoldable pub height_from_width : ℤ → ℤ
  height_from_width outer =
      c.frame_height
      +ℤ mul_div (max_ℤ c.minimum_client_width (outer -ℤ c.frame_width)) c.video_height
          c.video_width

  unfoldable pub width_from_height : ℤ → ℤ
  width_from_height outer =
      c.frame_width
      +ℤ mul_div (max_ℤ c.minimum_client_height (outer -ℤ c.frame_height)) c.video_width
          c.video_height

  -- The outer size, from the proposed width and height.
  unfoldable pub outer_size : Edge → ℤ → ℤ → ℤ × ℤ
  outer_size edge width height =
      let driven_height = height_from_width width in
      let driven_width = width_from_height height in
      if is_vertical edge
      then (driven_width, height)
      else if is_horizontal edge
      then (width, driven_height)
      else if leb_ℤ (abs (driven_height -ℤ height)) (abs (driven_width -ℤ width))
      then (width, driven_height)
      else (driven_width, height)

  abbrev pub proposed_width : Rect → ℤ
  proposed_width r = max_ℤ (c.frame_width +ℤ c.minimum_client_width) (r.right -ℤ r.left)

  abbrev pub proposed_height : Rect → ℤ
  proposed_height r = max_ℤ (c.frame_height +ℤ c.minimum_client_height) (r.bottom -ℤ r.top)

-- The `switch`.
unfoldable pub place : Edge → ℤ → ℤ → Rect → Rect
place at_left w h r = record r { left = r.right -ℤ w; bottom = r.top +ℤ h }
place at_right w h r = record r { right = r.left +ℤ w; bottom = r.top +ℤ h }
place at_top w h r = record r { top = r.bottom -ℤ h; right = r.left +ℤ w }
place at_bottom w h r = record r { bottom = r.top +ℤ h; right = r.left +ℤ w }
place at_top_left w h r = record r { left = r.right -ℤ w; top = r.bottom -ℤ h }
place at_top_right w h r = record r { right = r.left +ℤ w; top = r.bottom -ℤ h }
place at_bottom_left w h r = record r { left = r.right -ℤ w; bottom = r.top +ℤ h }
place at_bottom_right w h r = record r { right = r.left +ℤ w; bottom = r.top +ℤ h }
place other_edge w h r = r

unfoldable pub constrain_to_aspect : (ℤ → ℤ → ℤ → ℤ) → Rect → Edge → AspectConstraint → Rect
unfolding place outer_size
constrain_to_aspect mul_div r edge c =
    let (w, h) =
      outer_size mul_div c edge (proposed_width mul_div c r) (proposed_height mul_div c r) in
    if leb_ℤ c.video_width (pos 0) || leb_ℤ c.video_height (pos 0) then r else place edge w h r

pub data HitTest : Type 0 where
  caption : HitTest
  grip_at : Edge → HitTest

abbrev pub first_hit : Bool → Bool → Bool → Bool → HitTest
first_hit left right top bottom =
    if left && top
    then grip_at at_top_left
    else if right && top
    then grip_at at_top_right
    else if left && bottom
    then grip_at at_bottom_left
    else if right && bottom
    then grip_at at_bottom_right
    else if left
    then grip_at at_left
    else if right
    then grip_at at_right
    else if top
    then grip_at at_top
    else if bottom
    then grip_at at_bottom
    else caption

unfoldable pub borderless_hit_test : Rect → ℤ × ℤ → ℤ → Bool → HitTest
borderless_hit_test r (x, y) grip_pixels resizable =
    let grip = max_ℤ (pos 1) grip_pixels in
    let left = leb_ℤ r.left x && ltb_ℤ x (r.left +ℤ grip) in
    let right = ltb_ℤ x r.right && leb_ℤ (r.right -ℤ grip) x in
    let top = leb_ℤ r.top y && ltb_ℤ y (r.top +ℤ grip) in
    let bottom = ltb_ℤ y r.bottom && leb_ℤ (r.bottom -ℤ grip) y in
    if not resizable then caption else first_hit left right top bottom
