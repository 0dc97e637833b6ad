-- ===== src/Sim/Powder.antt =====
-- `crates/fallingsand_sim/src/powder.rs`.
pub mod Keep
use fallingsand.Prelude.{
  ℕ, ◌+◌, ◌*◌, Bool, true, false, not, ◌&&◌, ◌||◌, leb, ◌==◌, if◌then◌else◌, Option, none, some,
  List, [], ◌∷◌,
}
use fallingsand.Prelude.Int.{
  ℤ, pos, negsuc, neg, ◌+ℤ◌, ◌-ℤ◌, ◌*ℤ◌, ltb_ℤ, min_ℤ, max_ℤ, clamp, quot, magnitude, leb_ℤ,
}
use fallingsand.Coords.{CellPos}
use fallingsand.Cell.{Cell, MaterialId, air_id}
use fallingsand.Cell as Cell
use fallingsand.Material.{PowderDynamics, powder_phase, liquid_phase, gas_phase, apply}
use fallingsand.Math.{Rng, draw, below}
use fallingsand.Sim.Content.{Content, MatSpec}
use fallingsand.Sim.Salts.{seeded, topple_resistance_salt}
use fallingsand.Sim.Window.{Window, get, load_body}
use fallingsand.Sim.Window as Window
use fallingsand.Sim.Motion.Speed.{gravity_dv, agitated, moved_by, prefer_side, mass}
use fallingsand.Sim.Motion.Exchange.{can_enter, write_velocity, same_phase}
use fallingsand.Sim.Liquid.{holds_at}

-- `struct Load`.
pub record Load : Type 0 where
  pub kept : ℤ
  pub saturated : Bool

unfoldable pub retain : ℤ → ℤ → ℤ → Load
retain carried sent cap =
    let kept = carried -ℤ sent in
    if ltb_ℤ cap kept
    then record { kept = cap; saturated = true }
    else record { kept = max_ℤ kept (pos 0); saturated = false }

-- A density below zero makes `clamp` panic, and a density of zero the division.
unfoldable pub buoyant_gravity : ℤ → ℤ → Option ℤ
buoyant_gravity density ambient =
    let submerged = clamp (density -ℤ ambient) (pos 0) density in
    if leb_ℤ density (pos 0)
    then none
    else some (quot (pos gravity_dv *ℤ submerged +ℤ quot density 2) (magnitude density))

-- The sides in the order in which a loop tries them: the first that passes the test, and the generator.
unfoldable pub first_side : List ℤ → (ℤ → Rng → Rng × Bool) → Rng → Rng × Option ℤ
first_side [] test rng = (rng, none)
first_side (side ∷ sides) test rng =
    let (rng', ok) = test side rng in
    let rest = first_side sides test rng' in if ok then (rng', some side) else rest

-- A draw where the condition holds.
unfoldable pub draw_if : Bool → ℕ → Rng → Rng × Bool
unfolding draw below
draw_if c threshold rng =
    let (rng', h) = draw rng in if c then (rng', below h threshold) else (rng, false)

module _ (content : Content) where
  unfoldable pub flux_cap : MaterialId → ℕ
  flux_cap m = content.repose_layers m * gravity_dv

  unfoldable pub ambient_density : Window → CellPos → ℤ
  unfolding get moved_by
  ambient_density w p = elim (get w (moved_by p (pos 0) (negsuc 0))) [
    | none ↦ content.density_milli air_id
    | some c ↦ elim (content.phase c.material) [
      | liquid_phase ↦ content.density_milli c.material
      | gas_phase ↦ content.density_milli c.material
      | _ ↦ content.density_milli air_id
    ]
  ]

  -- The window after the load went to the cell below, and what stays of it.
  unfoldable pub transfer_load : Window → CellPos → MaterialId → ℤ → Window × Option Load
  unfolding get flux_cap load_body retain Window.set Cell.vel Cell.set_vel Cell.body_id
      Cell.is_stressed moved_by
  transfer_load w p material vy =
      let below_p = moved_by p (pos 0) (negsuc 0) in
      let cap = flux_cap material in
      let carried = pos gravity_dv +ℤ max_ℤ (neg vy) (pos 0) in
      let m = mass content material in
      let send = min_ℤ carried (pos cap) in
      elim (get w below_p) [
        | none ↦ (w, none)
        | some support ↦ if cap == 0 then (w, none) else (elim (Cell.body_id support) [
          | some id ↦
              (load_body w id below_p (neg send *ℤ pos m), some (retain carried send (pos cap)))
          | none ↦
              let (sx, sy) = Cell.vel support in
              let s = mass content support.material in
              let room = max_ℤ (pos (flux_cap support.material) +ℤ min_ℤ sy (pos 0)) (pos 0) in
              let deposited = min_ℤ (quot (send *ℤ pos m) s) room in
              let w' =
                if ltb_ℤ (pos 0) deposited
                then Window.set content w below_p (Cell.set_vel support sx (sy -ℤ deposited))
                else w in
              let sent = quot (deposited *ℤ pos s) m in
              if not (same_phase (content.phase support.material) powder_phase)
                || not (Cell.is_stressed support)
              then (w, none)
              else (w', some (retain carried sent (pos cap)))
        ])
      ]

  -- The horizontal velocity after a topple, and the generator.
  unfoldable pub topple : Window → CellPos → Cell → PowderDynamics → ℤ → ℤ → Rng → Rng × ℤ
  unfolding can_enter holds_at first_side draw_if prefer_side seeded topple_resistance_salt apply
      moved_by
  topple w p cell dynamics vx vy rng =
      let enters = λ (dy dx dy' : ℤ). can_enter content w cell.material dy (moved_by p dx dy') in
      let kinetic = leb agitated (magnitude vx) || leb agitated (magnitude vy) in
      let loaded =
        holds_at content w (moved_by p (pos 0) (pos 1))
          (λ c. same_phase (content.phase c.material) powder_phase) in
      let left = enters (pos 0) (negsuc 0) (pos 0) in
      let right = enters (pos 0) (pos 1) (pos 0) in
      let passable = λ (side : ℤ). if ltb_ℤ (pos 0) side then right else left in
      let downhill = λ (side : ℤ). enters (negsuc 0) side (negsuc 0) in
      let deflect = λ (side : ℤ).
        vx +ℤ side *ℤ max_ℤ (apply dynamics.deflect_keep (pos (magnitude vy))) (pos agitated) in
      let settle_on = λ (r : Rng) (o : Option ℤ). elim o as (λ _. Rng × ℤ) [
        | none ↦ (r, vx)
        | some side ↦ (r, deflect side)
      ] in
      let (rng', preferred) = prefer_side vx rng in
      let moving =
        first_side (preferred ∷ neg preferred ∷ [])
          (λ side r.
            if not (passable side)
            then (r, false)
            else if downhill side
            then (r, true)
            else draw_if true dynamics.topple_keep_threshold r)
          rng' in
      let resist = seeded (cell.material * 256 + cell.shade) topple_resistance_salt p in
      let (r1, leaning) = prefer_side vx resist in
      let sides = leaning ∷ neg leaning ∷ [] in
      let ready = λ (side : ℤ). passable side && downhill side in
      let slide =
        first_side sides
          (λ side r.
            let (r', h) = draw_if (ready side) dynamics.cohesion_threshold r in
            (r', ready side && not h))
          r1 in
      let held = ready leaning || ready (neg leaning) in
      let toward_drop = λ (side : ℤ).
        passable side
        && enters (pos 0) (pos 2 *ℤ side) (pos 0)
        && enters (negsuc 0) (pos 2 *ℤ side) (negsuc 0) in
      let lean =
        first_side sides (λ side r. draw_if (toward_drop side) dynamics.topple_start_threshold r)
          slide.0 in
      if not kinetic && not loaded && (if left then right else not right)
      then (rng, vx)
      else if kinetic
      then settle_on moving.0 moving.1
      else (
        rng,
        elim slide.1 as (λ _. ℤ) [
          | some side ↦ deflect side
          | none ↦ if held then vx else (settle_on rng lean.1).1
        ],
      )

  -- `apply_effects` from the drag on, with the velocity that friction and gravity leave.
  unfoldable pub settle_effects :
      Window → CellPos → Cell → PowderDynamics → Bool → ℤ → ℤ → Rng → Window
  unfolding holds_at topple transfer_load write_velocity Window.set apply Cell.set_vel
      Cell.set_stressed Cell.clear_stressed Cell.set_moved Cell.is_stressed moved_by
  settle_effects w p cell dynamics grounded vx1 vy1 rng =
      let drag =
        if holds_at content w (moved_by p (pos 0) (pos 1))
          (λ c. same_phase (content.phase c.material) liquid_phase)
        then dynamics.submerged_drag_keep
        else dynamics.air_drag_keep in
      let vx2 = apply drag vx1 in
      let vy2 = apply drag vy1 in
      let vx3 = if grounded then (topple w p cell dynamics vx2 vy2 rng).1 else vx2 in
      let shifted : Window × Option Load =
        if grounded then transfer_load w p cell.material vy2 else (w, none) in
      elim shifted.1 as (λ _. Window) [
        | some load ↦
            let written = Cell.set_stressed (Cell.set_vel cell vx3 (neg load.kept)) in
            Window.set content shifted.0 p
              (if load.saturated then written else Cell.set_moved written)
        | none ↦
            if Cell.is_stressed cell
            then Window.set content shifted.0 p (Cell.set_vel (Cell.clear_stressed cell) vx3 vy2)
            else write_velocity content shifted.0 p cell vx3 vy2 grounded
      ]

  unfoldable pub apply_effects :
      MatSpec → Window → CellPos → Cell → PowderDynamics → Rng → Option Window
  unfolding can_enter ambient_density buoyant_gravity settle_effects apply Cell.vel moved_by
  apply_effects spec w p cell dynamics rng =
      let (vx, vy) = Cell.vel cell in
      let grounded =
        not (can_enter content w cell.material (negsuc 0) (moved_by p (pos 0) (negsuc 0))) in
      if grounded
      then some
          (settle_effects w p cell dynamics true (apply dynamics.ground_friction_keep vx) vy rng)
      else (elim (buoyant_gravity spec.density_milli (ambient_density w p)) [
        | none ↦ none
        | some g ↦ some (settle_effects w p cell dynamics false vx (vy -ℤ g) rng)
      ])
