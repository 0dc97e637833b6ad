-- ===== src/Sim/Gas.antt =====
-- `crates/fallingsand_sim/src/gas.rs`.
pub mod Keep
use fallingsand.Prelude.{
  ℕ, ◌+◌, ◌-◌, ◌*◌, ◌/◌, ◌^◌, Bool, true, false, not, ◌&&◌, if◌then◌else◌, Option, none, some, List,
  [], ◌∷◌,
}
use fallingsand.Prelude.Int.{ℤ, pos, negsuc, neg, ◌+ℤ◌, ◌-ℤ◌, ◌*ℤ◌, eqb_ℤ, magnitude, signed_as}
use fallingsand.Coords.{CellPos}
use fallingsand.Cell.{Cell}
use fallingsand.Cell as Cell
use fallingsand.Material.{GasDynamics, is_zero, apply}
use fallingsand.Math.{Rng, draw, bits, below}
use fallingsand.Sim.Content.{Content}
use fallingsand.Sim.Salts.{seeded, turbulence_salt, movement_salt}
use fallingsand.Sim.Window.{Window, mark}
use fallingsand.Sim.Window as Window
use fallingsand.Sim.Motion.Speed.{gravity_dv, moved_by, prefer_side}
use fallingsand.Sim.Motion.Traverse.{Entry, open_entry, busy, blocked}
use fallingsand.Sim.Motion.Exchange.{can_enter, entry, write_velocity, same_vel}
use fallingsand.Sim.Motion.Move

-- `scaled_round(product, shift)`.
unfoldable pub scaled_round : ℤ → ℕ → ℤ
scaled_round product shift = signed_as product ((magnitude product + 2 ^ (shift - 1)) / 2 ^ shift)

module _ (content : Content) where
  unfoldable pub apply_effects : Window → CellPos → Cell → GasDynamics → Window
  unfolding can_enter write_velocity Cell.vel seeded turbulence_salt bits scaled_round apply is_zero
      moved_by
  apply_effects w p cell dynamics =
      let (vx, vy) = Cell.vel cell in
      let capped = not (can_enter content w cell.material (pos 1) (moved_by p (pos 0) (pos 1))) in
      let rising = if capped then vy else vy +ℤ pos gravity_dv in
      let vx' = apply dynamics.air_drag_keep vx in
      let vy' = apply dynamics.air_drag_keep rising in
      let noise =
        pos (bits (seeded (cell.material * 256 + cell.shade) turbulence_salt p) 16) -ℤ pos 32_768 in
      let swirl = vx' +ℤ scaled_round (pos dynamics.turbulence *ℤ noise) 31 in
      write_velocity content w p cell (if is_zero dynamics.turbulence then vx' else swirl) vy'
        capped

  -- The sides in the order of the loop of `flow`.
  unfoldable pub flow_sides : Window → CellPos → Cell → List ℤ → Rng → Window
  unfolding entry mark Window.swap below draw moved_by
  flow_sides w p cell [] rng = w
  flow_sides w p cell (side ∷ sides) rng =
      let beside = moved_by p side (pos 0) in
      let diagonal = moved_by p side (pos 1) in
      let skip = flow_sides (mark w p) p cell sides rng in
      let next = flow_sides w p cell sides rng in
      let (rng', h) = draw rng in
      let flows = below h (content.flow_threshold cell.material) in
      elim (entry content w cell.material (pos 0) beside) [
        | busy ↦ skip
        | blocked ↦ next
        | open_entry ↦ elim (entry content w cell.material (pos 1) diagonal) [
          | busy ↦ skip
          | open_entry ↦ if flows then Window.swap content w p diagonal else mark w p
          | blocked ↦ if flows then Window.swap content w p beside else mark w p
        ]
      ]

  unfoldable pub flow : Window → CellPos → Cell → Rng → Window
  unfolding entry mark Window.swap prefer_side flow_sides moved_by
  flow w p cell rng =
      let above = moved_by p (pos 0) (pos 1) in
      elim (entry content w cell.material (pos 1) above) [
        | open_entry ↦ Window.swap content w p above
        | busy ↦ mark w p
        | blocked ↦
            let (rng', preferred) = prefer_side (pos 0) rng in
            flow_sides w p cell (preferred ∷ neg preferred ∷ []) rng'
      ]

  unfoldable pub move_cell : Window → CellPos → Cell → ℕ → Option Window
  unfolding Move.move_cell flow seeded movement_salt Cell.vel
  move_cell w p cell tick =
      if not (same_vel (Cell.vel cell) (pos 0) (pos 0))
      then Move.move_cell content w p cell tick
      else some (flow w p cell (seeded tick movement_salt p))
