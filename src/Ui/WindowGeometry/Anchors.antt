-- ===== src/Ui/WindowGeometry/Anchors.antt =====
-- What dragging an edge does to the rectangle.
use low_latency_capture_view.Common.{◌≡◌, refl, Bool, true, false, if◌then◌else◌}
use low_latency_capture_view.Common.Int.{ℤ, ◌+ℤ◌, ◌-ℤ◌, int_laws}
use low_latency_capture_view.Ui.WindowGeometry.{
  Rect, Edge, at_left, at_right, at_top, at_bottom, at_top_left, at_top_right, at_bottom_left,
  at_bottom_right, other_edge, is_vertical, is_horizontal, place,
}

-- Whether an edge pulls the left side, or the upper one.
abbrev pub pulls_left : Edge → Bool
pulls_left at_left = true
pulls_left at_top_left = true
pulls_left at_bottom_left = true
pulls_left _ = false

abbrev pub pulls_top : Edge → Bool
pulls_top at_top = true
pulls_top at_top_left = true
pulls_top at_top_right = true
pulls_top _ = false

-- A real edge.
pub data IsEdge : Edge → Type 0 where
  left_edge : IsEdge at_left
  right_edge : IsEdge at_right
  top_edge : IsEdge at_top
  bottom_edge : IsEdge at_bottom
  top_left_edge : IsEdge at_top_left
  top_right_edge : IsEdge at_top_right
  bottom_left_edge : IsEdge at_bottom_left
  bottom_right_edge : IsEdge at_bottom_right

pub record Placed (edge : Edge) (w h : ℤ) (r r' : Rect) : Type 0 where
  pub width : r'.right -ℤ r'.left ≡ w
  pub height : r'.bottom -ℤ r'.top ≡ h
  pub across : (if pulls_left edge then r'.right ≡ r.right else r'.left ≡ r.left)
  pub down : (if pulls_top edge then r'.bottom ≡ r.bottom else r'.top ≡ r.top)

add_sub : (a w : ℤ) → (a +ℤ w) -ℤ a ≡ w
add_sub a w = omega int_laws

sub_sub : (a w : ℤ) → a -ℤ (a -ℤ w) ≡ w
sub_sub a w = omega int_laws

pub place-Placed :
    {edge : Edge} → IsEdge edge → (w h : ℤ) (r : Rect) → Placed edge w h r (place edge w h r)
unfolding place
place-Placed left_edge w h r = record {
  width = sub_sub r.right w;
  height = add_sub r.top h;
  across = refl;
  down = refl;
}
place-Placed right_edge w h r = record {
  width = add_sub r.left w;
  height = add_sub r.top h;
  across = refl;
  down = refl;
}
place-Placed top_edge w h r = record {
  width = add_sub r.left w;
  height = sub_sub r.bottom h;
  across = refl;
  down = refl;
}
place-Placed bottom_edge w h r = record {
  width = add_sub r.left w;
  height = add_sub r.top h;
  across = refl;
  down = refl;
}
place-Placed top_left_edge w h r = record {
  width = sub_sub r.right w;
  height = sub_sub r.bottom h;
  across = refl;
  down = refl;
}
place-Placed top_right_edge w h r = record {
  width = add_sub r.left w;
  height = sub_sub r.bottom h;
  across = refl;
  down = refl;
}
place-Placed bottom_left_edge w h r = record {
  width = sub_sub r.right w;
  height = add_sub r.top h;
  across = refl;
  down = refl;
}
place-Placed bottom_right_edge w h r = record {
  width = add_sub r.left w;
  height = add_sub r.top h;
  across = refl;
  down = refl;
}

pub never_both : (edge : Edge) → is_vertical edge ≡ true → is_horizontal edge ≡ false
never_both at_top h = refl
never_both at_bottom h = refl
never_both at_left h = cc
never_both at_right h = cc
never_both at_top_left h = cc
never_both at_top_right h = cc
never_both at_bottom_left h = cc
never_both at_bottom_right h = cc
never_both other_edge h = cc
