-- ===== src/Sim/Motion/Move.antt =====
-- `move_cell` (crates/fallingsand_sim/src/motion.rs): a cell travels, pushes what blocks it, and keeps
-- the velocity that is left. `none` means that the loop of `traverse` ran out of fuel.
use fallingsand.Prelude.{
  ℕ, Bool, true, false, not, ◌||◌, if◌then◌else◌, Option, none, some, List, [], ◌∷◌,
}
use fallingsand.Prelude.Int.{ℤ, pos, negsuc, neg, ◌*ℤ◌, ltb_ℤ, eqb_ℤ, quot}
use fallingsand.Coords.{CellPos}
use fallingsand.Cell.{Cell, MaterialId}
use fallingsand.Cell as Cell
use fallingsand.Material.{Phase, empty_phase, solid, powder_phase, liquid_phase, gas_phase}
use fallingsand.Material as Q
use fallingsand.Sim.Content.{Content}
use fallingsand.Sim.Salts.{seeded, movement_salt}
use fallingsand.Sim.Window.{Window, get, struck_body}
use fallingsand.Sim.Motion.Speed.{moved_by}
use fallingsand.Sim.Motion.Traverse.{Walk, traverse}
use fallingsand.Sim.Motion.Exchange.{
  same_phase, can_enter, entry, write_velocity, swap_dynamic, transfer_momentum,
}

-- `CARDINAL_NEIGHBORS` (crates/fallingsand_core/src/coords.rs).
abbrev pub neighbors : List (ℤ × ℤ)
neighbors = (pos 0, negsuc 0) ∷ (negsuc 0, pos 0) ∷ (pos 1, pos 0) ∷ (pos 0, pos 1) ∷ []

-- The window and the velocity, between the rounds over the neighbours.
pub record Push : Type 0 where
  pub window : Window
  pub vx : ℤ
  pub vy : ℤ

-- The window and the velocity along one axis change.
abbrev pub turn : Push → Bool → Window × ℤ → Push
turn s true (w, v) = record s { window = w; vx = v }
turn s false (w, v) = record s { window = w; vy = v }

abbrev pub moves_stuff : Phase → Bool
moves_stuff powder_phase = true
moves_stuff liquid_phase = true
moves_stuff gas_phase = true
moves_stuff _ = false

module _ (content : Content) where
  -- The new velocity along the direction, where a cell stands in the way and is no body.
  unfoldable pub rebound : Window → Cell → Cell → CellPos → ℤ × ℤ → ℤ → Window × ℤ
  unfolding transfer_momentum Q.apply
  rebound w cell blocker target dir velocity =
      let restitution = content.restitution cell.material in
      if moves_stuff (content.phase blocker.material)
      then transfer_momentum content w cell.material target dir velocity restitution
      else if same_phase (content.phase blocker.material) (content.phase cell.material)
      then (w, quot velocity 2)
      else (w, neg (Q.apply restitution velocity))

  -- One round of the loop over the neighbours.
  unfoldable pub push_side : Cell → CellPos → Push → ℤ × ℤ → Push
  unfolding get can_enter struck_body moved_by rebound
  push_side cell at s dir =
      let horizontal = not (eqb_ℤ dir.0 (pos 0)) in
      let velocity = if horizontal then s.vx else s.vy in
      let target = moved_by at dir.0 dir.1 in
      let incoming = ltb_ℤ (pos 0) (velocity *ℤ (if horizontal then dir.0 else dir.1)) in
      if not incoming || can_enter content s.window cell.material dir.1 target
      then s
      else (elim (get s.window target) [
        | none ↦ s
        | some blocker ↦
            let (struck, hit) = struck_body content s.window cell at target in
            let turned = rebound s.window cell blocker target dir velocity in
            if hit then record s { window = struck } else turn s horizontal turned
      ])

  unfoldable pub push_sides : Cell → CellPos → List (ℤ × ℤ) → Push → Push
  unfolding push_side
  push_sides cell at [] s = s
  push_sides cell at (d ∷ ds) s = push_sides cell at ds (push_side cell at s d)

  -- What follows the travel.
  unfoldable pub arrive : Cell → Walk → Window
  unfolding get push_sides can_enter write_velocity moved_by Cell.vel
  arrive cell travel =
      let start = Cell.vel cell in
      let v : ℤ × ℤ = elim (get travel.window travel.at) [ none ↦ start | some c ↦ Cell.vel c ] in
      let s =
        push_sides cell travel.at neighbors
          (record { window = travel.window; vx = v.0; vy = v.1 }) in
      let down = if same_phase (content.phase cell.material) gas_phase then pos 1 else negsuc 0 in
      let settled =
        not (can_enter content s.window cell.material down (moved_by travel.at (pos 0) down)) in
      elim (get s.window travel.at) [
        | none ↦ s.window
        | some current ↦ write_velocity content s.window travel.at current s.vx s.vy settled
      ]

  unfoldable pub move_cell : Window → CellPos → Cell → ℕ → Option Window
  unfolding traverse entry swap_dynamic seeded movement_salt arrive Cell.vel
  move_cell w p cell tick =
      let (vx, vy) = Cell.vel cell in
      elim (traverse (λ w' dir target. entry content w' cell.material dir.1 target)
        (λ w' from to. swap_dynamic content tick w' from to) w p vx vy
        (seeded tick movement_salt p)) [ none ↦ none | some travel ↦ some (arrive cell travel) ]
