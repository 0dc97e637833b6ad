-- ===== src/Sim/Liquid.antt =====
-- `crates/fallingsand_sim/src/liquid.rs`.
pub mod Keep
use fallingsand.Prelude.{
  ℕ, ◌+◌, ◌*◌, ◌/◌, ◌%◌, Bool, true, false, not, ◌&&◌, ◌||◌, ltb, ◌==◌, if◌then◌else◌, Option, none,
  some, is_some, List, [], ◌∷◌, bit_xor,
}
use fallingsand.Prelude.Int.{
  ℤ, pos, negsuc, neg, ◌+ℤ◌, ◌-ℤ◌, ◌*ℤ◌, ltb_ℤ, leb_ℤ, eqb_ℤ, signum, signed_as, magnitude,
}
use fallingsand.Prelude.Root.{isqrt}
use fallingsand.Prelude.Words.{signed32}
use fallingsand.Coords.{CellPos}
use fallingsand.Cell.{Cell, MaterialId}
use fallingsand.Cell as Cell
use fallingsand.Material.{LiquidDynamics, liquid_phase, Q16, apply}
use fallingsand.Math.{Rng, draw, below}
use fallingsand.Sim.Content.{Content}
use fallingsand.Sim.Salts.{seeded, movement_salt}
use fallingsand.Sim.Window.{Window, get, mark, struck_body}
use fallingsand.Sim.Window as Window
use fallingsand.Sim.Motion.Speed.{
  gravity_dv, moved_by, prefer_side, divide_signed, vector_length, is_liquid,
}
use fallingsand.Sim.Motion.Traverse.{
  Entry, open_entry, busy, blocked, TraverseControl, continue, revector, Walk, traverse,
}
use fallingsand.Sim.Motion.Exchange.{
  fluid, write_velocity, same_vel, swap_through_liquid, control_of,
}

-- `(2 * GRAVITY_DV * SUBCELL_UNITS_PER_CELL).isqrt()`.
unfoldable pub downhill_launch : ℕ
unfolding isqrt
downhill_launch = isqrt (2 * gravity_dv * 1024)

unfoldable pub apply_drag : LiquidDynamics → ℤ → ℤ → ℤ × ℤ
unfolding vector_length divide_signed apply
apply_drag dynamics vx vy =
    let x = apply dynamics.drag_keep vx in
    let y = apply dynamics.drag_keep vy in
    let denominator = 65_536 + (918 * vector_length x y + 128) / 256 in
    (divide_signed (x *ℤ pos 65_536) denominator, divide_signed (y *ℤ pos 65_536) denominator)

-- `(pos.y ^ i32::from(material)) & 1 == 0`.
unfoldable pub interface_direction : Cell → CellPos → ℤ
interface_direction cell p = if bit_xor p.y cell.material % 2 == 0 then pos 1 else negsuc 0

module _ (content : Content) where
  -- The test of a cell, false where none is loaded: `window.get(target).is_some_and(test)`.
  unfoldable pub holds_at : Window → CellPos → (Cell → Bool) → Bool
  unfolding get
  holds_at w p test = elim (get w p) [ none ↦ false | some c ↦ test c ]

  unfoldable pub can_fall_freely_into : Window → Cell → CellPos → Bool
  unfolding holds_at fluid
  can_fall_freely_into w mover target = holds_at w target (λ c.
      fluid content c
      && not (is_liquid content c.material)
      && ltb_ℤ (content.density_milli c.material) (content.density_milli mover.material))

  unfoldable pub can_exchange_downhill_into : Window → Cell → CellPos → Bool
  unfolding holds_at fluid
  can_exchange_downhill_into w mover target = holds_at w target (λ c.
      fluid content c
      && ltb_ℤ (content.density_milli c.material) (content.density_milli mover.material))

  unfoldable pub exposed : Window → CellPos → Cell → Bool
  unfolding holds_at fluid moved_by
  exposed w p mover = holds_at w (moved_by p (pos 0) (pos 1)) (λ c.
      fluid content c
      && ltb_ℤ (content.density_milli c.material) (content.density_milli mover.material))

  unfoldable pub supported_interface : Window → Cell → CellPos → Bool
  unfolding holds_at fluid moved_by
  supported_interface w mover target = holds_at w target (λ c.
      fluid content c
      && ltb_ℤ (content.density_milli c.material) (content.density_milli mover.material)
      && holds_at w (moved_by target (pos 0) (negsuc 0)) (λ b.
        not (fluid content b)
        || leb_ℤ (content.density_milli mover.material) (content.density_milli b.material)))

  unfoldable pub entry : Window → CellPos → Entry
  unfolding get fluid Cell.is_air Cell.is_moved
  entry w target = elim (get w target) [
    | none ↦ blocked
    | some c ↦
        if not (fluid content c)
        then blocked
        else if not (Cell.is_air c) && Cell.is_moved c
        then busy
        else open_entry
  ]

  unfoldable pub apply_effects : Window → CellPos → Cell → LiquidDynamics → Window
  unfolding can_fall_freely_into holds_at apply_drag write_velocity Cell.vel fluid apply moved_by
  apply_effects w p cell dynamics =
      let (vx, vy) = Cell.vel cell in
      let below = moved_by p (pos 0) (negsuc 0) in
      let falling = can_fall_freely_into w cell below in
      let vy' = if falling then vy -ℤ pos gravity_dv else vy in
      let gliding =
        not falling && eqb_ℤ vy' (pos 0) && holds_at w below (λ c. is_liquid content c.material) in
      let ahead = moved_by p (signum vx) (pos 0) in
      let glide =
        if not (eqb_ℤ vx (pos 0)) && not (holds_at w ahead (λ c. fluid content c))
        then pos 0
        else apply dynamics.glide_keep vx in
      let v : ℤ × ℤ = if gliding then (glide, vy') else apply_drag dynamics vx vy' in
      write_velocity content w p cell v.0 v.1 (not falling)

  unfoldable pub passive_threshold : Window → Cell → CellPos → ℕ
  unfolding get
  passive_threshold w mover target = elim (get w target) [
    | none ↦ 0
    | some c ↦
        if is_liquid content c.material && not (c.material == mover.material)
        then content.liquid_exchange_threshold mover.material c.material
        else content.flow_threshold mover.material
  ]

  unfoldable pub swap_moving : ℕ → Window → CellPos → CellPos → Window × TraverseControl
  unfolding get Window.swap swap_through_liquid
  swap_moving tick w from to = elim (get w from) [
    | none ↦ (w, continue)
    | some mover ↦ elim (get w to) [
      | none ↦ (w, continue)
      | some displaced ↦
          if is_liquid content displaced.material && not (displaced.material == mover.material)
          then (let (w', v) = swap_through_liquid content w from to tick in
              (w', control_of content v))
          else (Window.swap content w from to, continue)
    ]
  ]

  -- The impact on what lies below is turned to the first open side.
  unfoldable pub redirect_impact : Window → CellPos → ℤ → ℤ → Q16 → Rng → ℤ × ℤ
  unfolding entry vector_length apply prefer_side moved_by
  redirect_impact w p vx vy keep rng =
      let speed = apply keep (pos (vector_length vx vy)) in
      let (rng', preferred) = prefer_side vx rng in
      elim (entry w (moved_by p preferred (pos 0))) [
        | open_entry ↦ (preferred *ℤ speed, pos 0)
        | _ ↦ elim (entry w (moved_by p (neg preferred) (pos 0))) [
          | open_entry ↦ (neg preferred *ℤ speed, pos 0)
          | _ ↦ (pos 0, pos 0)
        ]
      ]

  -- The last branch of `relax`: sideways along the surface.
  unfoldable pub relax_interface : Window → CellPos → Cell → Rng → Window
  unfolding exposed supported_interface entry passive_threshold Window.swap mark draw below
      interface_direction moved_by
  relax_interface w p cell rng =
      let target = moved_by p (interface_direction cell p) (pos 0) in
      let (rng', h) = draw rng in
      if not (exposed w p cell) || not (supported_interface w cell target)
      then w
      else (elim (entry w target) [
        | blocked ↦ w
        | busy ↦ mark w p
        | open_entry ↦
            if below h (passive_threshold w cell target)
            then Window.swap content w p target
            else mark w p
      ])

  -- The first of the targets that the cell can sink into.
  unfoldable pub downhill_target : Window → Cell → List CellPos → Option CellPos
  unfolding can_exchange_downhill_into
  downhill_target w cell [] = none
  downhill_target w cell (t ∷ ts) =
      if can_exchange_downhill_into w cell t then some t else downhill_target w cell ts

  -- A passive exchange with the cell at the target.
  unfoldable pub sink : Window → CellPos → Cell → CellPos → ℕ → Window
  unfolding get Window.swap Window.set swap_through_liquid Cell.set_vel holds_at downhill_launch
  sink w p cell target tick =
      if holds_at w target (λ c. is_liquid content c.material && not (c.material == cell.material))
      then (swap_through_liquid content w p target tick).0
      else (let swapped = Window.swap content w p target in
          let launch = (signed32 target.x -ℤ signed32 p.x) *ℤ pos downhill_launch in
          if target.x == p.x
          then swapped
          else Window.set content swapped target (Cell.set_vel cell launch (pos 0)))

  unfoldable pub relax : Window → CellPos → Cell → ℕ → Rng → Window
  unfolding prefer_side downhill_target relax_interface entry passive_threshold sink mark draw below
      moved_by
  relax w p cell tick rng =
      let (rng', side) = prefer_side (pos 0) rng in
      let (rng'', h) = draw rng' in
      let below_p = moved_by p (pos 0) (negsuc 0) in
      let targets = below_p ∷ moved_by p side (negsuc 0) ∷ moved_by p (neg side) (negsuc 0) ∷ [] in
      elim (downhill_target w cell targets) [
        | none ↦ relax_interface w p cell rng'
        | some target ↦ elim (entry w target) [
          | blocked ↦ w
          | busy ↦ mark w p
          | open_entry ↦
              if below h (passive_threshold w cell target)
              then sink w p cell target tick
              else mark w p
        ]
      ]

  -- What follows the travel. The generator is the one that the travel left.
  unfoldable pub land : Cell → Walk → Window
  unfolding get struck_body redirect_impact can_fall_freely_into write_velocity Cell.vel apply
      moved_by
  land cell travel = elim (get travel.window travel.at) [
    | none ↦ travel.window
    | some current ↦
        let at = travel.at in
        let (vx, vy) = Cell.vel current in
        let impact = content.liquid_impact cell.material in
        let (w_down, hit_down) =
          struck_body content travel.window cell at (moved_by at (pos 0) (negsuc 0)) in
        let turned : ℤ × ℤ =
          if hit_down then (vx, vy) else redirect_impact w_down at vx vy impact travel.rng in
        let (w_up, hit_up) =
          struck_body content travel.window cell at (moved_by at (pos 0) (pos 1)) in
        let upward = ltb_ℤ (pos 0) travel.blocked_y in
        let w_rise = if upward then w_up else travel.window in
        let vy_rise = if upward && not hit_up then pos 0 else vy in
        let (w_side, hit_side) =
          struck_body content w_rise cell at (moved_by at travel.blocked_x (pos 0)) in
        let sideways = not (eqb_ℤ travel.blocked_x (pos 0)) in
        let w_flat = if sideways then w_side else w_rise in
        let vx_flat = if sideways && not hit_side then neg (apply impact vx) else vx in
        let downward = ltb_ℤ travel.blocked_y (pos 0) in
        let w = if downward then w_down else w_flat in
        let v : ℤ × ℤ = if downward then turned else (vx_flat, vy_rise) in
        let settled = not (can_fall_freely_into w current (moved_by at (pos 0) (negsuc 0))) in
        write_velocity content w at current v.0 v.1 settled
  ]

  unfoldable pub move_cell : Window → CellPos → Cell → ℕ → Option Window
  unfolding relax traverse entry swap_moving land seeded movement_salt Cell.vel
  move_cell w p cell tick =
      let rng = seeded tick movement_salt p in
      let (vx, vy) = Cell.vel cell in
      if same_vel (vx, vy) (pos 0) (pos 0)
      then some (relax w p cell tick rng)
      else (elim (traverse (λ w' dir target. entry w' target)
          (λ w' from to. swap_moving tick w' from to) w p vx vy rng) [
            | none ↦ none
            | some travel ↦ some (land cell travel)
          ])
