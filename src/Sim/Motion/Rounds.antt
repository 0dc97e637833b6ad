-- ===== src/Sim/Motion/Rounds.antt =====
-- The loop of `traverse` ends (crates/fallingsand_sim/src/motion.rs).
use fallingsand.Prelude.{
  ℕ, zero, suc, ◌+◌, ◌-◌, ◌*◌, ◌<◌, ◌≤◌, ◌≡◌, inl, inr, refl, arith, Bool, true, false, ◌==◌, some,
  if◌then◌else◌, Bool-cases,
}
use fallingsand.Prelude.Int.{ℤ, magnitude}
use fallingsand.Coords.{CellPos}
use fallingsand.Sim.Window.{Window, mark}
use fallingsand.Sim.Motion.Speed.{moved_by}
use fallingsand.Sim.Motion.Traverse.{
  Entry, open_entry, busy, blocked, TraverseControl, continue, revector, Walk, walking, along_x,
  finish_axis, block_axis, redirect, advance_axis, heading, round_along, round, walk,
}

-- An axis has steps to do.
abbrev pub waiting : ℕ → ℕ → ℕ
waiting done distance = if done == distance then 0 else 1

-- More than the rounds that the loop still takes.
unfoldable pub left : Walk → ℕ
left s =
    3 * s.remaining + waiting s.done_x (magnitude s.step_x) + waiting s.done_y (magnitude s.step_y)

redirect-left : (s : Walk) (c : TraverseControl) → left (redirect s c) ≤ 3 * s.remaining + 2
unfolding left redirect
redirect-left s continue = ground arith
redirect-left s (revector vx vy) = ground arith

-- A stop finishes the axis, and no other changes.
stop-left : (s : Walk) → walking s ≡ true → left (finish_axis s (along_x s)) < left s
unfolding left walking along_x
stop-left s h = elim (Bool-cases (along_x s)) [
  | inl e ↦ rw e (ground arith)
  | inr e ↦ rw e (ground arith)
]

blocked-left :
    (s : Walk) (axis : Bool)
    → left (finish_axis (block_axis s axis) axis) ≡ left (finish_axis s axis)
unfolding left
blocked-left s true = refl
blocked-left s false = refl

marked-left :
    (s : Walk) (w : Window) (axis : Bool)
    → left (finish_axis (record s { window = w }) axis) ≡ left (finish_axis s axis)
unfolding left
marked-left s w true = refl
marked-left s w false = refl

walking-remaining : (s : Walk) → walking s ≡ true → (3 * (s.remaining - 1) + 2 < left s)
unfolding left walking
walking-remaining s h = ground arith

pub left-bound : (s : Walk) → left s < 3 * s.remaining + 3
unfolding left
left-bound s = ground arith

module _ (entry : Window → ℤ × ℤ → CellPos → Entry)
    (swap : Window → CellPos → CellPos → Window × TraverseControl) where
  -- Every round leaves fewer.
  pub round-left : (s : Walk) → walking s ≡ true → left (round entry swap s) < left s
  unfolding round round_along
  round-left s h =
      elim (entry s.window (heading s (along_x s))
          (moved_by s.at (heading s (along_x s)).0 (heading s (along_x s)).1))
        as (λ e.
          left (elim e [
            | open_entry ↦
                let (w, control) =
                  swap s.window s.at
                    (moved_by s.at (heading s (along_x s)).0 (heading s (along_x s)).1) in
                redirect
                  (record (advance_axis s (along_x s)) {
                    window = w;
                    at = (moved_by s.at (heading s (along_x s)).0 (heading s (along_x s)).1);
                    remaining = s.remaining - 1;
                  })
                  control
            | busy ↦ finish_axis (record s { window = mark s.window s.at }) (along_x s)
            | blocked ↦ finish_axis (block_axis s (along_x s)) (along_x s)
          ])
          < left s) [
            | open_entry ↦ omega (arith, redirect-left _ _, walking-remaining s h)
            | busy ↦ omega (arith, marked-left s (mark s.window s.at) (along_x s), stop-left s h)
            | blocked ↦ omega (arith, blocked-left s (along_x s), stop-left s h)
          ]

  -- With the fuel of `left` the loop ends.
  pub walk_returns :
      (fuel : ℕ) (s : Walk) → left s < fuel → (t : Walk) × (walk entry swap fuel s ≡ some t)
  unfolding walk
  walk_returns zero s h = absurd (omega arith)
  walk_returns (suc fuel) s h = elim (Bool-cases (walking s)) [
    | inl e ↦ rw e (walk_returns fuel (round entry swap s) (omega (arith, round-left s e)))
    | inr e ↦ rw e (s, refl)
  ]
