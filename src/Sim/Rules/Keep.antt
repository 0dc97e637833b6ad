-- ===== src/Sim/Rules/Keep.antt =====
-- The movement pass makes or loses no matter (crates/fallingsand_sim/src/rules.rs).
use fallingsand.Prelude.{
  ℕ, ◌≡◌, inl, inr, refl, not, Option, some, if◌then◌else◌, Bool-cases, Option-cases,
}
use fallingsand.Prelude.Int.{pos}
use fallingsand.Coords.{CellPos}
use fallingsand.Cell.{Cell}
use fallingsand.Cell as Cell
use fallingsand.Material.{Phase, empty_phase, solid, powder_phase, liquid_phase, gas_phase}
use fallingsand.Sim.Content.{Content}
use fallingsand.Sim.Window.{Window, get, mark}
use fallingsand.Sim.Window.Keep.{Keeps, Keeps-refl, mark-Keeps}
use fallingsand.Sim.Motion.Exchange.{same_vel}
use fallingsand.Sim.Motion.Move
use fallingsand.Sim.Motion.Travel
use fallingsand.Sim.Gas
use fallingsand.Sim.Gas.Keep as GasKeep
use fallingsand.Sim.Liquid
use fallingsand.Sim.Liquid.Keep as LiquidKeep
use fallingsand.Sim.Rules.{move_cell}

-- The result is a window, and keeps matter.
Returns : Window → Option Window → Type 0
Returns w o = (v : Window) × (o ≡ some v) × Keeps w v

module _ (content : Content) where
  stay-Returns : (w : Window) → Returns w (some w)
  unfolding Returns
  stay-Returns w = (w, refl, Keeps-refl w)

  phase-Returns :
      (w : Window) (p : CellPos) (c : Cell) (tick : ℕ) (phase : Phase)
      → get w p ≡ some c
      → Returns w (elim phase [
        | powder_phase ↦
            if not (same_vel (Cell.vel c) (pos 0) (pos 0))
            then Move.move_cell content w p c tick
            else some w
        | liquid_phase ↦ Liquid.move_cell content w p c tick
        | gas_phase ↦ Gas.move_cell content w p c tick
        | empty_phase ↦ some w
        | solid ↦ some w
      ])
  unfolding Returns
  phase-Returns w p c tick powder_phase e =
      elim (Bool-cases (not (same_vel (Cell.vel c) (pos 0) (pos 0)))) [
        | inl b ↦ rw b (Travel.move_cell-Keeps content w p c tick)
        | inr b ↦ rw b (stay-Returns w)
      ]
  phase-Returns w p c tick liquid_phase e = LiquidKeep.move_cell-Keeps content w p c tick e
  phase-Returns w p c tick gas_phase e = GasKeep.move_cell-Keeps content w p c tick
  phase-Returns w p c tick empty_phase e = stay-Returns w
  phase-Returns w p c tick solid e = stay-Returns w

  -- The movement of the cell at a position always ends, whatever its material and its neighbours. The
  -- window then shows as many cells of each material and shade as before, from the same place.
  pub move_cell-Keeps :
      (w : Window) (p : CellPos) (tick : ℕ)
      → (v : Window) × (move_cell content w p tick ≡ some v) × Keeps w v
  unfolding move_cell Returns
  move_cell-Keeps w p tick = elim (Option-cases (get w p)) [
    | inl e ↦ rw (move_cell, e) (stay-Returns w)
    | inr (c, e) ↦ elim (Option-cases (Cell.body_id c)) [
      | inr (id, f) ↦ rw (move_cell, e, f) (stay-Returns w)
      | inl f ↦ elim (Bool-cases (Cell.is_moved c)) [
        | inl m ↦ rw (move_cell, e, f, m) (mark w p, refl, mark-Keeps w p)
        | inr m ↦ rw (move_cell, e, f, m) (phase-Returns w p c tick (content.phase c.material) e)
      ]
    ]
  ]
