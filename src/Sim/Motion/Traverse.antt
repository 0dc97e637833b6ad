-- ===== src/Sim/Motion/Traverse.antt =====
-- `traverse` (crates/fallingsand_sim/src/motion.rs): the steps of a moving cell, one at a time along the
-- axis that is behind. The closures `entry` and `swap` are parameters.
use fallingsand.Prelude.{
  ℕ, zero, suc, ◌+◌, ◌-◌, ◌*◌, Bool, true, false, not, ◌&&◌, ◌||◌, ltb, leb, ◌==◌, if◌then◌else◌,
  Option, none, some,
}
use fallingsand.Prelude.Int.{ℤ, pos, magnitude, signum}
use fallingsand.Coords.{CellPos}
use fallingsand.Math.{Rng}
use fallingsand.Sim.Window.{Window, mark}
use fallingsand.Sim.Motion.Speed.{moved_by, step_cells}

pub data Entry : Type 0 where
  open_entry busy blocked : Entry

pub data TraverseControl : Type 0 where
  continue : TraverseControl
  revector : ℤ → ℤ → TraverseControl

-- The variables of the loop: the steps asked for and done along each axis, the steps that remain in
-- all, the position, and the directions that were blocked. `distance` is the steps without their sign.
pub record Walk : Type 0 where
  pub window : Window
  pub rng : Rng
  pub step_x : ℤ
  pub step_y : ℤ
  pub done_x : ℕ
  pub done_y : ℕ
  pub remaining : ℕ
  pub at : CellPos
  pub blocked_x : ℤ
  pub blocked_y : ℤ

unfoldable pub start_walk : Window → CellPos → ℤ → ℤ → Rng → Walk
unfolding step_cells
start_walk w p vx vy rng =
    let (rng', sx) = step_cells vx rng in
    let (rng'', sy) = step_cells vy rng' in
    record {
      window = w;
      rng = rng'';
      step_x = sx;
      step_y = sy;
      done_x = 0;
      done_y = 0;
      remaining = magnitude sx + magnitude sy;
      at = p;
      blocked_x = pos 0;
      blocked_y = pos 0;
    }

-- `done != distance && remaining > 0`.
unfoldable pub walking : Walk → Bool
walking s =
    not (s.done_x == magnitude s.step_x && s.done_y == magnitude s.step_y) && ltb 0 s.remaining

-- The axis of the next step is the horizontal one.
unfoldable pub along_x : Walk → Bool
along_x s =
    not (s.done_x == magnitude s.step_x)
    && (s.done_y == magnitude s.step_y
        || leb (s.done_x * magnitude s.step_y) (s.done_y * magnitude s.step_x))

-- The direction of the next step, for a walk along that axis.
abbrev pub heading : Walk → Bool → ℤ × ℤ
heading s true = (signum s.step_x, pos 0)
heading s false = (pos 0, signum s.step_y)

-- `done[axis] = distance[axis]`.
abbrev pub finish_axis : Walk → Bool → Walk
finish_axis s true = record s { done_x = magnitude s.step_x }
finish_axis s false = record s { done_y = magnitude s.step_y }

abbrev pub advance_axis : Walk → Bool → Walk
advance_axis s true = record s { done_x = s.done_x + 1 }
advance_axis s false = record s { done_y = s.done_y + 1 }

abbrev pub block_axis : Walk → Bool → Walk
block_axis s true = record s { blocked_x = signum s.step_x }
block_axis s false = record s { blocked_y = signum s.step_y }

-- A change of velocity on the way starts new steps.
unfoldable pub redirect : Walk → TraverseControl → Walk
unfolding step_cells
redirect s continue = s
redirect s (revector vx vy) =
    let (rng', sx) = step_cells vx s.rng in
    let (rng'', sy) = step_cells vy rng' in
    record s {
      rng = rng'';
      step_x = sx;
      step_y = sy;
      done_x = 0;
      done_y = 0;
      blocked_x = pos 0;
      blocked_y = pos 0;
    }

module _ (entry : Window → ℤ × ℤ → CellPos → Entry)
    (swap : Window → CellPos → CellPos → Window × TraverseControl) where
  -- One round of the loop, along the axis.
  unfoldable pub round_along : Walk → Bool → Walk
  unfolding moved_by redirect mark
  round_along s axis =
      let dir = heading s axis in
      let next = moved_by s.at dir.0 dir.1 in
      elim (entry s.window dir next) [
        | open_entry ↦
            let (w, control) = swap s.window s.at next in
            redirect
              (record (advance_axis s axis) { window = w; at = next; remaining = s.remaining - 1 })
              control
        | busy ↦ finish_axis (record s { window = mark s.window s.at }) axis
        | blocked ↦ finish_axis (block_axis s axis) axis
      ]

  unfoldable pub round : Walk → Walk
  unfolding round_along along_x
  round s = round_along s (along_x s)

  -- `none` means that the fuel ran out.
  unfoldable pub walk : ℕ → Walk → Option Walk
  unfolding walking round
  walk zero s = none
  walk (suc fuel) s = let rest = walk fuel (round s) in if walking s then rest else some s

  -- A step forward uses up one of the steps that remain, and a stop finishes an axis.
  unfoldable pub traverse : Window → CellPos → ℤ → ℤ → Rng → Option Walk
  unfolding walk start_walk
  traverse w p vx vy rng = let s = start_walk w p vx vy rng in walk (3 * s.remaining + 3) s
