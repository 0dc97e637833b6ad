-- ===== src/Sim/Motion/Travel.antt =====
-- The travel of a cell ends and keeps matter (crates/fallingsand_sim/src/motion.rs).
use fallingsand.Prelude.{
  ℕ, zero, suc, ◌+◌, ◌-◌, ◌*◌, ◌<◌, ◌≡◌, inl, inr, refl, arith, Bool, true, false, some, Bool-cases,
}
use fallingsand.Prelude.Int.{ℤ}
use fallingsand.Coords.{CellPos}
use fallingsand.Cell.{Cell}
use fallingsand.Cell as Cell
use fallingsand.Math.{Rng}
use fallingsand.Sim.Content.{Content}
use fallingsand.Sim.Window.{Window, mark}
use fallingsand.Sim.Salts.{seeded, movement_salt}
use fallingsand.Sim.Window.Keep.{Keeps, Keeps-refl, Keeps-trans, mark-Keeps}
use fallingsand.Sim.Motion.Speed.{moved_by}
use fallingsand.Sim.Motion.Exchange.{entry, swap_dynamic}
use fallingsand.Sim.Motion.Move.{arrive, move_cell}
use fallingsand.Sim.Motion.Keep.{swap_dynamic-Keeps}
use fallingsand.Sim.Motion.Conserve.{arrive-Keeps}
use fallingsand.Sim.Motion.Rounds.{left, round-left, left-bound}
use fallingsand.Sim.Motion.Traverse.{
  Entry, open_entry, busy, blocked, TraverseControl, continue, revector, Walk, walking, along_x,
  finish_axis, block_axis, advance_axis, heading, redirect, round_along, round, walk, start_walk,
  traverse,
}

redirect-window : (s : Walk) (c : TraverseControl) → (redirect s c).window ≡ s.window
unfolding redirect
redirect-window s continue = refl
redirect-window s (revector vx vy) = refl

finish-window : (s : Walk) (axis : Bool) → (finish_axis s axis).window ≡ s.window
finish-window s true = refl
finish-window s false = refl

blocked-window : (s : Walk) (axis : Bool) → (finish_axis (block_axis s axis) axis).window ≡ s.window
blocked-window s true = refl
blocked-window s false = refl

same-Keeps : {w v : Window} (v' : Window) → v' ≡ v → Keeps w v → Keeps w v'
same-Keeps {w} v' e h = rw e h

module _ (entry : Window → ℤ × ℤ → CellPos → Entry)
    (swap : Window → CellPos → CellPos → Window × TraverseControl)
    (swap_keeps : (w : Window) (a b : CellPos) → Keeps w (swap w a b).0) where
  round_along-Keeps :
      (s : Walk) (axis : Bool) → Keeps s.window (round_along entry swap s axis).window
  unfolding round_along
  round_along-Keeps s axis =
      let dir = heading s axis in
      let next = moved_by s.at dir.0 dir.1 in
      elim (entry s.window dir next)
        as (λ e.
          let t : Walk = elim e [
            | open_entry ↦
                let (w, control) = swap s.window s.at next in
                redirect
                  (record (advance_axis s axis) {
                    window = w;
                    at = next;
                    remaining = s.remaining - 1;
                  })
                  control
            | busy ↦ finish_axis (record s { window = mark s.window s.at }) axis
            | blocked ↦ finish_axis (block_axis s axis) axis
          ] in
          Keeps s.window t.window) [
            | open_entry ↦ same-Keeps _ (redirect-window _ _) (swap_keeps _ _ _)
            | busy ↦
                same-Keeps _ (finish-window (record s { window = mark s.window s.at }) axis)
                  (mark-Keeps _ _)
            | blocked ↦ same-Keeps _ (blocked-window s axis) (Keeps-refl _)
          ]

  -- The loop returns, with the matter it began with.
  walk-Keeps :
      (fuel : ℕ) (s : Walk)
      → left s < fuel
      → (t : Walk) × (walk entry swap fuel s ≡ some t) × Keeps s.window t.window
  unfolding walk round
  walk-Keeps zero s h = absurd (omega arith)
  walk-Keeps (suc fuel) s h = elim (Bool-cases (walking s)) [
    | inl e ↦
        let (t, f, k) =
          walk-Keeps fuel (round entry swap s) (omega (arith, round-left entry swap s e)) in
        rw e (t, f, Keeps-trans (round_along-Keeps s (along_x s)) k)
    | inr e ↦ rw e (s, refl, Keeps-refl s.window)
  ]

  -- Where no swap on the way makes or loses matter, the travel of a cell ends, and makes or loses none.
  pub traverse-Keeps :
      (w : Window) (p : CellPos) (vx vy : ℤ) (rng : Rng)
      → (t : Walk) × (traverse entry swap w p vx vy rng ≡ some t) × Keeps w t.window
  unfolding traverse start_walk
  traverse-Keeps w p vx vy rng =
      let s = start_walk w p vx vy rng in walk-Keeps (3 * s.remaining + 3) s (left-bound s)

-- The movement of a cell always ends: `move_cell` returns, and the window shows as many cells of each
-- material and shade as before, from the same place.
pub move_cell-Keeps :
    (content : Content) (w : Window) (p : CellPos) (c : Cell) (tick : ℕ)
    → (v : Window) × (move_cell content w p c tick ≡ some v) × Keeps w v
unfolding move_cell
move_cell-Keeps content w p c tick =
    let (t, e, k) =
      traverse-Keeps (λ w' dir target. entry content w' c.material dir.1 target)
        (λ w' from to. swap_dynamic content tick w' from to) (swap_dynamic-Keeps content tick) w p
        (Cell.vel c).0 (Cell.vel c).1 (seeded tick movement_salt p) in
    rw (move_cell, e) (arrive content c t, refl, Keeps-trans k (arrive-Keeps content c t))
