-- ===== src/Sim/Gas/Keep.antt =====
-- No movement of a gas makes or loses matter (crates/fallingsand_sim/src/gas.rs).
use fallingsand.Prelude.{
  ℕ, ◌≡◌, inl, inr, refl, Bool, not, some, if◌then◌else◌, Bool-cases, List, [], ◌∷◌,
}
use fallingsand.Prelude.Int.{ℤ, pos, neg}
use fallingsand.Coords.{CellPos}
use fallingsand.Cell.{Cell}
use fallingsand.Cell as Cell
use fallingsand.Math.{Rng, below, draw}
use fallingsand.Sim.Content.{Content}
use fallingsand.Sim.Salts.{seeded, movement_salt}
use fallingsand.Sim.Window.{Window, mark, swap}
use fallingsand.Sim.Window.Keep.{Keeps, Keeps-refl, Keeps-trans, mark-Keeps, swap-Keeps}
use fallingsand.Sim.Motion.Speed.{moved_by, prefer_side}
use fallingsand.Sim.Motion.Exchange.{same_vel, entry}
use fallingsand.Sim.Motion.Traverse.{Entry, open_entry, busy, blocked}
use fallingsand.Sim.Motion.Keep.{Keeps-if}
use fallingsand.Sim.Motion.Travel as Travel
use fallingsand.Sim.Gas.{flow_sides, flow, move_cell}

-- Whatever the entry, the window that is chosen keeps matter.
pub entry-Keeps :
    {w a b c : Window} (e : Entry)
    → Keeps w a
    → Keeps w b
    → Keeps w c
    → Keeps w (elim e [ open_entry ↦ a | busy ↦ b | blocked ↦ c ])
entry-Keeps open_entry h k l = h
entry-Keeps busy h k l = k
entry-Keeps blocked h k l = l

module _ (content : Content) where
  -- A gas moves where it may, and else waits there.
  step-Keeps :
      (w : Window) (p q : CellPos) (b : Bool) → Keeps w (if b then swap content w p q else mark w p)
  step-Keeps w p q b = Keeps-if b (swap-Keeps content w p q) (mark-Keeps w p)

  flow_sides-Keeps :
      (w : Window) (p : CellPos) (c : Cell) (sides : List ℤ) (rng : Rng)
      → Keeps w (flow_sides content w p c sides rng)
  unfolding flow_sides
  flow_sides-Keeps w p c [] rng = Keeps-refl w
  flow_sides-Keeps w p c (side ∷ sides) rng =
      let skip = Keeps-trans (mark-Keeps w p) (flow_sides-Keeps (mark w p) p c sides rng) in
      let next = flow_sides-Keeps w p c sides rng in
      let beside = moved_by p side (pos 0) in
      let diagonal = moved_by p side (pos 1) in
      let flows = below (draw rng).1 (content.flow_threshold c.material) in
      entry-Keeps (entry content w c.material (pos 0) beside)
        (entry-Keeps (entry content w c.material (pos 1) diagonal) (step-Keeps w p diagonal flows)
          skip (step-Keeps w p beside flows))
        skip next

  flow-Keeps : (w : Window) (p : CellPos) (c : Cell) (rng : Rng) → Keeps w (flow content w p c rng)
  unfolding flow
  flow-Keeps w p c rng =
      let (rng', preferred) = prefer_side (pos 0) rng in
      let above = moved_by p (pos 0) (pos 1) in
      entry-Keeps (entry content w c.material (pos 1) above) (swap-Keeps content w p above)
        (mark-Keeps w p) (flow_sides-Keeps w p c (preferred ∷ neg preferred ∷ []) rng')

  pub move_cell-Keeps :
      (w : Window) (p : CellPos) (c : Cell) (tick : ℕ)
      → (v : Window) × (move_cell content w p c tick ≡ some v) × Keeps w v
  unfolding move_cell
  move_cell-Keeps w p c tick = elim (Bool-cases (not (same_vel (Cell.vel c) (pos 0) (pos 0)))) [
    | inl e ↦ rw (move_cell, e) (Travel.move_cell-Keeps content w p c tick)
    | inr e ↦
        rw (move_cell, e)
          (flow content w p c (seeded tick movement_salt p), refl, flow-Keeps w p c _)
  ]
