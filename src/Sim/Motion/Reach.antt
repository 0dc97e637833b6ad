-- ===== src/Sim/Motion/Reach.antt =====
-- How far a cell travels in one tick (crates/fallingsand_sim/src/motion.rs).
use fallingsand.Prelude.{
  ℕ, zero, suc, ◌+◌, ◌-◌, ◌*◌, ◌/◌, ◌<◌, ◌≤◌, ◌≡◌, inl, inr, refl, arith, Bool, true, false, some,
  Bool-cases,
}
use fallingsand.Prelude.Words.{add_i32, to_i32, as_i32_fits}
use fallingsand.Prelude.Int.{ℤ, pos, negsuc, ◌+ℤ◌, ◌*ℤ◌, signum, min_ℤ, magnitude}
use fallingsand.Coords.{CellPos}
use fallingsand.Coords.Cells
use fallingsand.Sim.Window.{Window, mark}
use fallingsand.Sim.Motion.Rounds.{left, left-bound, round-left}
use fallingsand.Sim.Motion.Traverse.{
  Entry, open_entry, busy, blocked, TraverseControl, continue, revector, Walk, walking, along_x,
  finish_axis, block_axis, advance_axis, heading, redirect, round_along, round, walk, start_walk,
  traverse,
}
use fallingsand.Math.{Rng}
use fallingsand.Sim.Motion.Speed.{moved_by, step_cells}

capped : (size : ℕ) (more : ℕ) → magnitude (min_ℤ (pos size +ℤ pos more) (pos 31)) ≤ 31
unfolding ◌+ℤ◌
capped size more = ground arith

signed-le : (a v : ℤ) → magnitude (a *ℤ signum v) ≤ magnitude a
unfolding ◌*ℤ◌
signed-le a (pos zero) = ground arith
signed-le a (pos (suc n)) = ground arith
signed-le a (negsuc n) = ground arith

cells-le :
    (size more : ℕ) (v : ℤ) → magnitude (min_ℤ (pos size +ℤ pos more) (pos 31) *ℤ signum v) ≤ 31
cells-le size more v =
    omega (arith, signed-le (min_ℤ (pos size +ℤ pos more) (pos 31)) v, capped size more)

step_cells-le :
    (v : ℤ) (rng : Rng) → magnitude v < 2_147_483_648 → magnitude (step_cells v rng).1 ≤ 31
unfolding step_cells
step_cells-le v rng h = rw (as_i32_fits (pos (magnitude v)) h) (cells-le (magnitude v / 1024) _ v)

moved_twice :
    (w : ℕ) (a b : ℤ) → add_i32 (add_i32 w (to_i32 a)) (to_i32 b) ≡ add_i32 w (to_i32 (a +ℤ b))
unfolding ◌+ℤ◌
moved_twice w a b = ground arith

-- A position is at most so many cells away from another, across and up together.
abbrev pub WithinReach : ℕ → CellPos → CellPos → Type 0
WithinReach n p q = (dx : ℤ) × (dy : ℤ) × (q ≡ moved_by p dx dy) × (magnitude dx + magnitude dy ≤ n)

start_near :
    (p : CellPos) → p.x < 4_294_967_296 → p.y < 4_294_967_296 → p ≡ moved_by p (pos 0) (pos 0)
unfolding moved_by Cells.translated
start_near p hx hy =
    let ex : add_i32 p.x 0 ≡ p.x = omega arith in
    let ey : add_i32 p.y 0 ≡ p.y = omega arith in rw (ex, ey) refl

moved_again :
    (p : CellPos) (a b c d : ℤ) → moved_by (moved_by p a b) c d ≡ moved_by p (a +ℤ c) (b +ℤ d)
unfolding moved_by Cells.translated
moved_again p a b c d = rw (moved_twice p.x a c, moved_twice p.y b d) refl

sum-le : (a b : ℤ) → magnitude (a +ℤ b) ≤ magnitude a + magnitude b
unfolding ◌+ℤ◌
sum-le a b = ground arith

heading-le :
    (s : Walk) (axis : Bool) → magnitude (heading s axis).0 + magnitude (heading s axis).1 ≤ 1
heading-le s true = ground arith
heading-le s false = ground arith

walking-left : (s : Walk) → walking s ≡ true → 0 < s.remaining
unfolding walking
walking-left s h = ground arith

step_near :
    (n m : ℕ) (p q : CellPos) (a b : ℤ)
    → WithinReach n p q
    → magnitude a + magnitude b ≤ m
    → WithinReach (n + m) p (moved_by q a b)
step_near n m p q a b (dx, dy, e, h) k =
    (dx +ℤ a, dy +ℤ b, rw e (moved_again p dx dy a b), omega (arith, sum-le dx a, sum-le dy b))

module _ (entry : Window → ℤ × ℤ → CellPos → Entry)
    (swap : Window → CellPos → CellPos → Window × TraverseControl) where
  -- The cells gone and those that remain are at most `n`.
  abbrev Near : ℕ → CellPos → Walk → Type 0
  Near n p s = (m : ℕ) × WithinReach m p s.at × (m + s.remaining ≤ n)

  redirect-Near :
      (n : ℕ) (p : CellPos) (s : Walk) (c : TraverseControl) → Near n p s → Near n p (redirect s c)
  unfolding redirect
  redirect-Near n p s continue h = h
  redirect-Near n p s (revector vx vy) h = h

  finish-Near :
      (n : ℕ) (p : CellPos) (s : Walk) (axis : Bool) → Near n p s → Near n p (finish_axis s axis)
  finish-Near n p s true h = h
  finish-Near n p s false h = h

  block-Near :
      (n : ℕ) (p : CellPos) (s : Walk) (axis : Bool) → Near n p s → Near n p (block_axis s axis)
  block-Near n p s true h = h
  block-Near n p s false h = h

  round-Near :
      (n : ℕ) (p : CellPos) (s : Walk) (axis : Bool)
      → 0 < s.remaining
      → Near n p s
      → Near n p (round_along entry swap s axis)
  unfolding round_along
  round-Near n p s axis r (m, near, h) =
      let dir = heading s axis in
      let next = moved_by s.at dir.0 dir.1 in
      elim (entry s.window dir next)
        as (λ e.
          let t : Walk = elim e [
            | open_entry ↦
                let (w, control) = swap s.window s.at next in
                redirect
                  (record (advance_axis s axis) {
                    window = w;
                    at = next;
                    remaining = s.remaining - 1;
                  })
                  control
            | busy ↦ finish_axis (record s { window = mark s.window s.at }) axis
            | blocked ↦ finish_axis (block_axis s axis) axis
          ] in
          Near n p t) [
            | open_entry ↦
                redirect-Near n p
                  (record (advance_axis s axis) {
                    window = (swap s.window s.at next).0;
                    at = next;
                    remaining = s.remaining - 1;
                  })
                  (swap s.window s.at next).1
                  (m + 1, step_near m 1 p s.at dir.0 dir.1 near (heading-le s axis), omega arith)
            | busy ↦ finish-Near n p (record s { window = mark s.window s.at }) axis (m, near, h)
            | blocked ↦
                finish-Near n p (block_axis s axis) axis (block-Near n p s axis (m, near, h))
          ]

  walk-Near :
      (n : ℕ) (p : CellPos) (fuel : ℕ) (s : Walk)
      → left s < fuel
      → Near n p s
      → (t : Walk) × (walk entry swap fuel s ≡ some t) × Near n p t
  unfolding walk round
  walk-Near n p zero s h k = absurd (omega arith)
  walk-Near n p (suc fuel) s h k = elim (Bool-cases (walking s)) [
    | inl e ↦ rw e (
        walk-Near n p fuel (round entry swap s) (omega (arith, round-left entry swap s e))
          (round-Near n p s (along_x s) (walking-left s e) k))
    | inr e ↦ rw e (s, refl, k)
  ]

-- The travel of a cell from a position of two 32-bit coordinates, at velocities that are `i32` values
-- other than the smallest, ends, whatever the neighbours answer and however its velocity is turned on the
-- way, at most 62 cells from where it began: less than the 64 cells that a window has around its block.
pub traverse-WithinReach :
    (entry : Window → ℤ × ℤ → CellPos → Entry)
    (swap : Window → CellPos → CellPos → Window × TraverseControl) (w : Window) (p : CellPos)
    (vx vy : ℤ) (rng : Rng)
    → p.x < 4_294_967_296
    → p.y < 4_294_967_296
    → magnitude vx < 2_147_483_648
    → magnitude vy < 2_147_483_648
    → (t : Walk) × (traverse entry swap w p vx vy rng ≡ some t) × WithinReach 62 p t.at
unfolding traverse start_walk
traverse-WithinReach entry swap w p vx vy rng hx hy lx ly =
    let s = start_walk w p vx vy rng in
    let bound_x = step_cells-le vx rng lx in
    let bound_y = step_cells-le vy (step_cells vx rng).0 ly in
    let (t, e, (m, (dx, dy, f, k), h)) =
      walk-Near entry swap 62 p (3 * s.remaining + 3) s (left-bound s)
        (0, (pos 0, pos 0, start_near p hx hy, omega arith), omega (arith, bound_x, bound_y)) in
    (t, e, (dx, dy, f, omega arith))
