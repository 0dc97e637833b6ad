-- ===== src/Sim/Rules/Effects.antt =====
-- The effects of the dynamics change velocities only (crates/fallingsand_sim/src/rules.rs).
use fallingsand.Prelude.{◌≡◌, refl, Bool, true, false, some}
use fallingsand.Prelude.Int.{pos, leb_ℤ}
use fallingsand.Coords.{CellPos}
use fallingsand.Cell.{Cell}
use fallingsand.Material.{Dynamics, no_dynamics, powder, liquid, gas, LiquidDynamics, GasDynamics}
use fallingsand.Math.{Rng}
use fallingsand.Sim.Content.{Content, MatSpec}
use fallingsand.Sim.Window.{Window, get}
use fallingsand.Sim.Window.Keep.{Keeps, Keeps-refl}
use fallingsand.Sim.Motion.Keep.{write_velocity-Keeps}
use fallingsand.Sim.Gas
use fallingsand.Sim.Liquid
use fallingsand.Sim.Powder
use fallingsand.Sim.Powder.Keep as PowderKeep
use fallingsand.Sim.Rules.{drive}

abbrev pub is_powder : Dynamics → Bool
is_powder (powder d) = true
is_powder no_dynamics = false
is_powder (liquid d) = false
is_powder (gas d) = false

-- A powder has a positive density.
abbrev pub IsWeighty : MatSpec → Type 0
IsWeighty spec = is_powder spec.dynamics ≡ true → leb_ℤ spec.density_milli (pos 0) ≡ false

module _ (content : Content) where
  liquid-Keeps :
      (w : Window) (p : CellPos) (c : Cell) (d : LiquidDynamics)
      → get w p ≡ some c
      → Keeps w (Liquid.apply_effects content w p c d)
  unfolding Liquid.apply_effects
  liquid-Keeps w p c d e = search (write_velocity-Keeps, e)

  gas-Keeps :
      (w : Window) (p : CellPos) (c : Cell) (d : GasDynamics)
      → get w p ≡ some c
      → Keeps w (Gas.apply_effects content w p c d)
  unfolding Gas.apply_effects
  gas-Keeps w p c d e = search (write_velocity-Keeps, e)

  -- The effects of drag, gravity, toppling and load on a cell that is loaded, of a material that has a
  -- positive density if it is a powder, do not panic, and leave as many cells of each material and shade
  -- in the window as before, whatever the dynamics of its material.
  pub drive-Keeps :
      (spec : MatSpec) (w : Window) (p : CellPos) (c : Cell) (rng : Rng)
      → IsWeighty spec
      → get w p ≡ some c
      → (v : Window) × (drive content spec w p c rng ≡ some v) × Keeps w v
  unfolding drive
  drive-Keeps spec w p c rng heavy e = by_dynamics spec.dynamics heavy
    where
      by_dynamics :
          (d : Dynamics)
          → (is_powder d ≡ true → leb_ℤ spec.density_milli (pos 0) ≡ false)
          → (v : Window) × ((elim d [
            | no_dynamics ↦ some w
            | powder d' ↦ Powder.apply_effects content spec w p c d' rng
            | liquid d' ↦ some (Liquid.apply_effects content w p c d')
            | gas d' ↦ some (Gas.apply_effects content w p c d')
          ])
              ≡ some v)
            × Keeps w v
      by_dynamics no_dynamics k = (w, refl, Keeps-refl w)
      by_dynamics (powder d) k = PowderKeep.apply_effects-Keeps content spec w p c d rng (k refl) e
      by_dynamics (liquid d) k = (_, refl, liquid-Keeps w p c d e)
      by_dynamics (gas d) k = (_, refl, gas-Keeps w p c d e)
