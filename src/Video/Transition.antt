-- ===== src/Video/Transition.antt =====
-- src/video/OutputTransitionState.h and ExclusivePresentationState.h: which size changes ask for a new
-- output, and which changes of exclusive fullscreen are tried. An `int` is an integer.
pub mod Owed
pub mod Attempts
mod Examples
use low_latency_capture_view.Common.{
  ℕ, ◌+◌, ◌-◌, ◌%◌, ◌^◌, Bool, true, false, not, ◌||◌, ◌&&◌, ◌==◌, ltb, if◌then◌else◌,
}
use low_latency_capture_view.Common.Int.{ℤ, pos, negsuc, eqb_ℤ, leb_ℤ}

pub record Output : Type 0 where
  pub depth : ℕ  -- unsigned
  pub pending : Bool
  pub manual_resize : Bool
  pub width : ℤ
  pub height : ℤ

pub create : Output
create = record {
  depth = 0;
  pending = false;
  manual_resize = false;
  width = negsuc 0;
  height = negsuc 0;
}

pub reset_client_size : Output → Output
reset_client_size s = record s { width = negsuc 0; height = negsuc 0 }

pub begin : Output → Output
begin s = record s { depth = (s.depth + 1) % 2 ^ 32 }

pub set_manual_resize : Bool → Output → Output
set_manual_resize active s = record s { manual_resize = active }

unfoldable pub take_pending_update : Output → Output × Bool
take_pending_update s =
    if not (s.depth == 0) || not s.pending then (s, false) else (record s { pending = false }, true)

-- `End` takes the update when no edge is being dragged.
unfoldable pub end : Bool → Output → Output × Bool
unfolding take_pending_update
end request_update s =
    let s' : Output = record s {
      pending = s.pending || request_update;
      depth = if ltb 0 s.depth then s.depth - 1 else s.depth;
    } in
    if s.manual_resize then (s', false) else take_pending_update s'

abbrev pub new_size : ℤ → ℤ → Output → Bool
new_size width height s =
    not
      (leb_ℤ width (pos 0) || leb_ℤ height (pos 0) || eqb_ℤ s.width width && eqb_ℤ s.height height)

unfoldable pub on_client_size : ℤ → ℤ → Output → Output × Bool
on_client_size width height s =
    let s' : Output = record s { width = width; height = height } in
    if not (new_size width height s)
    then (s, false)
    else if s.manual_resize || ltb 0 s.depth
    then (record s' { pending = true }, false)
    else (s', true)

-- What the window owner publishes for exclusive fullscreen.
pub record Inputs : Type 0 where
  pub selected : Bool
  pub fullscreen : Bool
  pub active : Bool
  pub minimized : Bool
  pub blocked : Bool
  pub closing : Bool

pub wanted : Inputs → Bool
wanted i =
    i.selected && i.fullscreen && i.active && not i.minimized && not i.blocked && not i.closing

pub record AttemptGate : Type 0 where
  pub revision : ℕ  -- uint64
  pub wanted_last : Bool
  pub attempted : Bool

abbrev pub same : Bool → Bool → Bool
same true b = b
same false b = not b

-- `AttemptGate::Begin`
pub begin_attempt : ℕ → Bool → Bool → AttemptGate → AttemptGate × Bool
begin_attempt revision wants exclusive g =
    if same wants exclusive
    then (g, false)
    else if g.attempted && revision == g.revision && same wants g.wanted_last
    then (g, false)
    else (record { attempted = true; revision = revision; wanted_last = wants }, true)

pub reset : AttemptGate → AttemptGate
reset g = record g { attempted = false }
