-- ===== src/Sim/Motion/Exchange.antt =====
-- What a moving cell does to the cells in its way (crates/fallingsand_sim/src/motion.rs).
use fallingsand.Prelude.{
  ℕ, ◌+◌, ◌*◌, min, Bool, true, false, not, ◌&&◌, ◌||◌, ltb, if◌then◌else◌, Option, none, some,
  is_some,
}
use fallingsand.Prelude.Int.{ℤ, pos, negsuc, neg_ℕ, ◌+ℤ◌, ◌-ℤ◌, ◌*ℤ◌, ltb_ℤ, leb_ℤ, clamp, eqb_ℤ}
use fallingsand.Coords.{CellPos}
use fallingsand.Cell.{Cell, MaterialId}
use fallingsand.Cell as Cell
use fallingsand.Material.{Phase, empty_phase, solid, powder_phase, liquid_phase, gas_phase, Q16}
use fallingsand.Material as Q
use fallingsand.Math.{Hash, bit}
use fallingsand.Sim.Content.{Content}
use fallingsand.Sim.Salts.{seeded, liquid_wake_salt}
use fallingsand.Sim.Window.{Window, get, mark}
use fallingsand.Sim.Window as Window
use fallingsand.Sim.Motion.Speed.{
  settle, max_component_raw, divide_signed, vector_length, density_scatter, mass, liquid_wake_keep,
  density_exchange_speed,
}
use fallingsand.Sim.Motion.Traverse.{
  Entry, open_entry, busy, blocked, TraverseControl, continue, revector,
}

-- The same velocity, as `cell.vel() != (vx, vy)` tests it.
abbrev pub same_vel : ℤ × ℤ → ℤ → ℤ → Bool
same_vel v vx vy = eqb_ℤ v.0 vx && eqb_ℤ v.1 vy

abbrev pub same_phase : Phase → Phase → Bool
same_phase empty_phase empty_phase = true
same_phase solid solid = true
same_phase powder_phase powder_phase = true
same_phase liquid_phase liquid_phase = true
same_phase gas_phase gas_phase = true
same_phase _ _ = false

module _ (content : Content) where
  -- A cell that is no part of a body and not solid.
  unfoldable pub fluid : Cell → Bool
  unfolding Cell.body_id
  fluid c = not (is_some (Cell.body_id c)) && (elim (content.phase c.material) [
    | empty_phase ↦ true
    | liquid_phase ↦ true
    | gas_phase ↦ true
    | _ ↦ false
  ])

  unfoldable pub admits : MaterialId → ℤ → Cell → Bool
  unfolding fluid Cell.is_air
  admits mover dy target =
      let m = content.density_milli mover in
      let t = content.density_milli target.material in
      fluid target
      && (ltb_ℤ t m || (ltb_ℤ (pos 0) dy && ltb_ℤ m t) || (eqb_ℤ dy (pos 0) && Cell.is_air target))

  unfoldable pub can_enter : Window → MaterialId → ℤ → CellPos → Bool
  unfolding get admits
  can_enter w mover dy target = elim (get w target) [ none ↦ false | some c ↦ admits mover dy c ]

  unfoldable pub entry : Window → MaterialId → ℤ → CellPos → Entry
  unfolding get admits Cell.is_air Cell.is_moved
  entry w mover dy target = elim (get w target) [
    | none ↦ blocked
    | some c ↦
        if not (admits mover dy c)
        then blocked
        else if not (Cell.is_air c) && Cell.is_moved c
        then busy
        else open_entry
  ]

  unfoldable pub write_velocity : Window → CellPos → Cell → ℤ → ℤ → Bool → Window
  unfolding Window.set mark Cell.vel Cell.set_vel vector_length
  write_velocity w p cell vx vy settled =
      let stop = settled && ltb (vector_length vx vy) settle in
      let limit = max_component_raw in
      let vx' = clamp (if stop then pos 0 else vx) (neg_ℕ limit) (pos limit) in
      let vy' = clamp (if stop then pos 0 else vy) (neg_ℕ limit) (pos limit) in
      if not (same_vel (Cell.vel cell) vx' vy')
      then Window.set content w p (Cell.set_vel cell vx' vy')
      else if not (eqb_ℤ vx' (pos 0)) || not (eqb_ℤ vy' (pos 0))
      then mark w p
      else w

  -- The velocities after a cell pushed through a liquid: the mover's and the displaced cell's.
  unfoldable pub wake : Hash → Cell → Cell → CellPos → CellPos → (ℤ × ℤ) × (ℤ × ℤ)
  unfolding Cell.vel divide_signed liquid_wake_keep density_scatter density_exchange_speed bit
      Q.apply
  wake noise mover displaced from to =
      let (mx, my) = Cell.vel mover in
      let (dx, dy) = Cell.vel displaced in
      let m = mass content mover.material in
      let d = mass content displaced.material in
      let center_x = divide_signed (pos m *ℤ mx +ℤ pos d *ℤ dx) (m + d) in
      let center_y = divide_signed (pos m *ℤ my +ℤ pos d *ℤ dy) (m + d) in
      let (forward, transverse) =
        density_scatter (liquid_wake_keep content mover.material displaced.material) m d in
      let side = if bit noise then negsuc 0 else pos 1 in
      let relative_x = mx -ℤ dx in
      let relative_y = my -ℤ dy in
      let wake_x = Q.apply forward relative_x -ℤ side *ℤ Q.apply transverse relative_y in
      let wake_y = Q.apply forward relative_y +ℤ side *ℤ Q.apply transverse relative_x in
      let density_x =
        side *ℤ pos (density_exchange_speed content mover.material displaced.material from to) in
      (
        (
          center_x +ℤ divide_signed (pos d *ℤ wake_x) (m + d) +ℤ density_x,
          center_y +ℤ divide_signed (pos d *ℤ wake_y) (m + d),
        ),
        (
          center_x
              -ℤ divide_signed (pos m *ℤ wake_x) (m + d)
              -ℤ divide_signed (pos m *ℤ density_x) d,
          center_y -ℤ divide_signed (pos m *ℤ wake_y) (m + d),
        ),
      )

  unfoldable pub swap_through_liquid : Window → CellPos → CellPos → ℕ → Window × Option (ℤ × ℤ)
  unfolding get Window.set Window.swap seeded liquid_wake_salt wake Cell.set_vel
  swap_through_liquid w from to tick = elim (get w from) [
    | none ↦ (w, none)
    | some mover ↦ elim (get w to) [
      | none ↦ (w, none)
      | some displaced ↦
          let ((ax, ay), (bx, by)) =
            wake (seeded tick liquid_wake_salt to) mover displaced from to in
          let w1 = Window.set content w from (Cell.set_vel mover ax ay) in
          let w2 = Window.set content w1 to (Cell.set_vel displaced bx by) in
          (Window.swap content w2 from to, some (ax, ay))
    ]
  ]

  -- `map_or(Continue, |(vx, vy)| Revector(vx, vy))`.
  abbrev pub control_of : Option (ℤ × ℤ) → TraverseControl
  control_of none = continue
  control_of (some (vx, vy)) = revector vx vy

  unfoldable pub swap_dynamic : ℕ → Window → CellPos → CellPos → Window × TraverseControl
  unfolding get Window.swap swap_through_liquid
  swap_dynamic tick w from to = elim (get w from) [
    | none ↦ (w, continue)
    | some mover ↦ elim (get w to) [
      | none ↦ (w, continue)
      | some displaced ↦
          if same_phase (content.phase mover.material) powder_phase
            && same_phase (content.phase displaced.material) liquid_phase
          then (let (w', v) = swap_through_liquid w from to tick in (w', control_of v))
          else (Window.swap content w from to, continue)
    ]
  ]

  -- Momentum passes along the direction to a blocking cell; the mover's new velocity along it.
  unfoldable pub transfer_momentum : Window → MaterialId → CellPos → ℤ × ℤ → ℤ → Q16 → Window × ℤ
  unfolding get Window.set Cell.vel Cell.set_vel Cell.set_moved divide_signed
  transfer_momentum w mover target dir velocity restitution = elim (get w target) [
    | none ↦ (w, velocity)
    | some blocker ↦
        let horizontal = not (eqb_ℤ dir.0 (pos 0)) in
        let sign = if horizontal then dir.0 else dir.1 in
        let (bx, by) = Cell.vel blocker in
        let b = if horizontal then bx else by in
        let closing = (velocity -ℤ b) *ℤ sign in
        let m = mass content mover in
        let d = mass content blocker.material in
        let rest =
          if same_phase (content.phase mover) (content.phase blocker.material)
          then 0
          else min restitution (content.restitution blocker.material) in
        let impulse = 65_536 + rest in
        let mover_delta = divide_signed (closing *ℤ pos (d * impulse)) ((m + d) * 65_536) in
        let blocker_delta = divide_signed (closing *ℤ pos (m * impulse)) ((m + d) * 65_536) in
        let received = b +ℤ sign *ℤ blocker_delta in
        let pushed =
          if horizontal
          then Cell.set_vel blocker received by
          else Cell.set_vel blocker bx received in
        if leb_ℤ closing (pos 0)
        then (w, velocity)
        else (Window.set content w target (Cell.set_moved pushed), velocity -ℤ sign *ℤ mover_delta)
  ]
