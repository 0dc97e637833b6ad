-- ===== src/Sim/Rules.antt =====
-- `crates/fallingsand_sim/src/rules.rs`: the rules of one cell in the passes of a tick.
pub mod Keep
pub mod Effects
use fallingsand.Prelude.{ℕ, Bool, true, not, ◌&&◌, if◌then◌else◌, Option, none, some}
use fallingsand.Prelude.Int.{ℤ, pos}
use fallingsand.Coords.{CellPos}
use fallingsand.Cell.{Cell}
use fallingsand.Cell as Cell
use fallingsand.Material.{
  Phase, empty_phase, solid, powder_phase, liquid_phase, gas_phase, Dynamics, no_dynamics, powder,
  liquid, gas,
}
use fallingsand.Math.{Rng}
use fallingsand.Sim.Content.{Content, MatSpec}
use fallingsand.Sim.Salts.{seeded, effect_salt}
use fallingsand.Sim.Window.{Window, get, mark}
use fallingsand.Sim.Motion.Exchange.{same_vel}
use fallingsand.Sim.Motion.Move
use fallingsand.Sim.Gas
use fallingsand.Sim.Liquid
use fallingsand.Sim.Powder
use fallingsand.Sim.Chemistry
use fallingsand.Sim.Chemistry.{Outcome}

unfoldable pub random_tick : Window → CellPos → ℕ → Window
random_tick w p tick = w

module _ (content : Content) where
  -- The match of `apply_effects` on the dynamics of a material.
  unfoldable pub drive : MatSpec → Window → CellPos → Cell → Rng → Option Window
  unfolding Powder.apply_effects Liquid.apply_effects Gas.apply_effects
  drive spec w p cell rng = elim spec.dynamics [
    | no_dynamics ↦ some w
    | powder d ↦ Powder.apply_effects content spec w p cell d rng
    | liquid d ↦ some (Liquid.apply_effects content w p cell d)
    | gas d ↦ some (Gas.apply_effects content w p cell d)
  ]

  unfoldable pub apply_effects : MatSpec → Window → CellPos → Cell → ℕ → Option Window
  unfolding Chemistry.apply drive seeded effect_salt Cell.body_id
  apply_effects spec w p cell tick =
      let o = Chemistry.apply content spec w p (seeded tick effect_salt p) in
      if o.acted then some o.window else (elim (Cell.body_id cell) [
        | some id ↦ some o.window
        | none ↦ drive spec o.window p cell o.rng
      ])

  -- An id that names no material panics.
  unfoldable pub effect_cell : Window → CellPos → ℕ → Option Window
  unfolding get apply_effects
  effect_cell w p tick = elim (get w p) [
    | none ↦ some w
    | some cell ↦ elim (content.spec cell.material) [
      | none ↦ none
      | some spec ↦ apply_effects spec w p cell tick
    ]
  ]

  unfoldable pub move_cell : Window → CellPos → ℕ → Option Window
  unfolding get mark Move.move_cell Liquid.move_cell Gas.move_cell Cell.vel Cell.body_id
      Cell.is_moved
  move_cell w p tick = elim (get w p) [
    | none ↦ some w
    | some cell ↦ elim (Cell.body_id cell) [
      | some id ↦ some w
      | none ↦ if Cell.is_moved cell then some (mark w p) else (elim (content.phase cell.material) [
        | powder_phase ↦
            if not (same_vel (Cell.vel cell) (pos 0) (pos 0))
            then Move.move_cell content w p cell tick
            else some w
        | liquid_phase ↦ Liquid.move_cell content w p cell tick
        | gas_phase ↦ Gas.move_cell content w p cell tick
        | empty_phase ↦ some w
        | solid ↦ some w
      ])
    ]
  ]
