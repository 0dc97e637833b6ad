-- ===== src/Sim/Known/Drive.antt =====
-- Which materials the effects of the dynamics leave in a window (crates/fallingsand_sim/src/rules.rs).
use fallingsand.Prelude.{
  ℕ, ◌≡◌, inl, inr, refl, Bool, true, false, not, Option, none, some, if◌then◌else◌, Option-cases,
  Bool-cases,
}
use fallingsand.Prelude.Int.{ℤ, pos, neg, negsuc, leb_ℤ, ◌+ℤ◌, ◌-ℤ◌, ◌*ℤ◌, clamp, quot, magnitude}
use fallingsand.Coords.{CellPos}
use fallingsand.Cell.{Cell, MaterialId}
use fallingsand.Cell as Cell
use fallingsand.Material.{
  Dynamics, no_dynamics, powder, liquid, gas, PowderDynamics, LiquidDynamics, GasDynamics, apply,
}
use fallingsand.Math.{Rng}
use fallingsand.Sim.Content.{Content, MatSpec}
use fallingsand.Sim.Window.{Window, get, set, mark, load_body}
use fallingsand.Sim.Motion.Speed.{moved_by, gravity_dv}
use fallingsand.Sim.Motion.Exchange.{can_enter, write_velocity}
use fallingsand.Sim.Powder.{Load, transfer_load, settle_effects, buoyant_gravity, ambient_density}
use fallingsand.Sim.Powder
use fallingsand.Sim.Liquid
use fallingsand.Sim.Gas
use fallingsand.Sim.Rules.{drive}
use fallingsand.Sim.Rules.Effects.{IsWeighty, is_powder}
use fallingsand.Sim.Known.{AllSeen, mark-AllSeen, set-AllSeen, get-AllSeen}

module _ (content : Content) (K : MaterialId → Type 0) where
  pub record Seen (w : Window) : Type 0 where
    pub known : AllSeen K w

  set-Seen :
      (w : Window) (p : CellPos) (c : Cell) → K c.material → Seen w → Seen (set content w p c)
  set-Seen w p c kc k = record { known = set-AllSeen K content w p c kc k.known }

  vel-Seen :
      (w : Window) (p : CellPos) (c : Cell) (vx vy : ℤ)
      → K c.material
      → Seen w
      → Seen (set content w p (Cell.set_vel c vx vy))
  unfolding Cell.set_vel
  vel-Seen w p c vx vy kc k = set-Seen w p (Cell.set_vel c vx vy) kc k

  mark-Seen : (w : Window) (p : CellPos) → Seen w → Seen (mark w p)
  mark-Seen w p k = record { known = mark-AllSeen K w p k.known }

  either : (b : Bool) {u v : Window} → Seen u → Seen v → Seen (if b then u else v)
  either true h k = h
  either false h k = k

  either_load :
      (b : Bool) (s t : Window × Option Load) → Seen s.0 → Seen t.0 → Seen (if b then s else t).0
  either_load true s t h k = h
  either_load false s t h k = k

  either_cell :
      (b : Bool) (c d : Cell) → K c.material → K d.material → K (if b then c else d).material
  either_cell true c d h k = h
  either_cell false c d h k = k

  body-Seen : (w : Window) (q : CellPos) (id : ℕ) (jy : ℤ) → Seen w → Seen (load_body w id q jy)
  unfolding load_body
  body-Seen w q id jy k = record { known = k.known }

  velocity-Seen :
      (w : Window) (p : CellPos) (c : Cell) (vx vy : ℤ) (settled : Bool)
      → K c.material
      → Seen w
      → Seen (write_velocity content w p c vx vy settled)
  unfolding write_velocity
  velocity-Seen w p c vx vy settled kc k =
      let chosen : (b d : Bool) (ux uy : ℤ)
          → Seen (if b then set content w p (Cell.set_vel c ux uy) else if d then mark w p else w) =
        λ b d ux uy. either b (vel-Seen w p c ux uy kc k) (either d (mark-Seen w p k) k) in
      search chosen

  transfer_load-Seen :
      (w : Window) (p : CellPos) (m : MaterialId) (vy : ℤ)
      → Seen w
      → Seen (transfer_load content w p m vy).0
  unfolding transfer_load
  transfer_load-Seen w p m vy k =
      let q = moved_by p (pos 0) (negsuc 0) in
      let sent : (s : Cell)
          → K s.material
          → (a b d : Bool) (ux uy : ℤ) (l : Load)
          → Seen
              (if◌then◌else◌ {A = Window × Option Load} a (w, none)
                (if◌then◌else◌ {A = Window × Option Load} b (w, none)
                  (if d then set content w q (Cell.set_vel s ux uy) else w, some l))).0 =
        λ s ks a b d ux uy l.
          either_load a (w, none)
            (if◌then◌else◌ {A = Window × Option Load} b (w, none)
              (if d then set content w q (Cell.set_vel s ux uy) else w, some l))
            k
            (either_load b (w, none)
              (if d then set content w q (Cell.set_vel s ux uy) else w, some l) k
              (either d (vel-Seen w q s ux uy ks k) k)) in
      elim (Option-cases (get w q)) [
        | inl f ↦ rw (transfer_load, f) k
        | inr (s, f) ↦
            let ks = get-AllSeen K w q s f k.known in
            elim (Option-cases (Cell.body_id s)) [
              | inr (id, g) ↦ rw (transfer_load, f, g) (search (either_load, body-Seen, k))
              | inl g ↦ rw (transfer_load, f, g) (search (sent s ks))
            ]
      ]

  end-Seen :
      (p : CellPos) (c : Cell) (s : Window × Option Load) (vx vy : ℤ) (grounded : Bool)
      → K c.material
      → Seen s.0
      → Seen (elim s.1 as (λ _. Window) [
        | some load ↦ set content s.0 p (
            if load.saturated
            then Cell.set_stressed (Cell.set_vel c vx (neg load.kept))
            else Cell.set_moved (Cell.set_stressed (Cell.set_vel c vx (neg load.kept))))
        | none ↦
            if Cell.is_stressed c
            then set content s.0 p (Cell.set_vel (Cell.clear_stressed c) vx vy)
            else write_velocity content s.0 p c vx vy grounded
      ])
  unfolding Cell.set_vel Cell.set_stressed Cell.set_moved Cell.clear_stressed
  end-Seen p c (v, some load) vx vy grounded kc k =
      set-Seen v p _ (either_cell load.saturated _ _ kc kc) k
  end-Seen p c (v, none) vx vy grounded kc k =
      either (Cell.is_stressed c) (set-Seen v p (Cell.set_vel (Cell.clear_stressed c) vx vy) kc k)
        (velocity-Seen v p c vx vy grounded kc k)

  settle_effects-Seen :
      (w : Window) (p : CellPos) (c : Cell) (d : PowderDynamics) (grounded : Bool) (vx vy : ℤ)
      (rng : Rng)
      → K c.material
      → Seen w
      → Seen (settle_effects content w p c d grounded vx vy rng)
  unfolding settle_effects
  settle_effects-Seen w p c d grounded vx vy rng kc k =
      let ended : (b : Bool) (ux uy uz : ℤ)
          → Seen
              (elim (if◌then◌else◌ {A = Window × Option Load} b
                  (transfer_load content w p c.material uz) (w, none)).1
                as (λ _. Window) [
                  | some load ↦
                      set content
                        (if◌then◌else◌ {A = Window × Option Load} b
                          (transfer_load content w p c.material uz) (w, none)).0
                        p
                        (if load.saturated
                          then Cell.set_stressed (Cell.set_vel c ux (neg load.kept))
                          else Cell.set_moved
                              (Cell.set_stressed (Cell.set_vel c ux (neg load.kept))))
                  | none ↦
                      if Cell.is_stressed c
                      then set content
                          (if◌then◌else◌ {A = Window × Option Load} b
                            (transfer_load content w p c.material uz) (w, none)).0
                          p (Cell.set_vel (Cell.clear_stressed c) ux uy)
                      else write_velocity content
                          (if◌then◌else◌ {A = Window × Option Load} b
                            (transfer_load content w p c.material uz) (w, none)).0
                          p c ux uy b
                ]) =
        λ b ux uy uz.
          end-Seen p c (if b then transfer_load content w p c.material uz else (w, none)) ux uy b kc
            (either_load b (transfer_load content w p c.material uz) (w, none)
              (transfer_load-Seen w p c.material uz k) k) in
      search ended

  powder-Seen :
      (spec : MatSpec) (w : Window) (p : CellPos) (c : Cell) (d : PowderDynamics) (rng : Rng)
      → leb_ℤ spec.density_milli (pos 0) ≡ false
      → K c.material
      → Seen w
      → (v : Window) × (Powder.apply_effects content spec w p c d rng ≡ some v) × Seen v
  unfolding Powder.apply_effects buoyant_gravity
  powder-Seen spec w p c d rng heavy kc k =
      let grounded =
        not (can_enter content w c.material (negsuc 0) (moved_by p (pos 0) (negsuc 0))) in
      let density = spec.density_milli in
      let submerged = clamp (density -ℤ ambient_density content w p) (pos 0) density in
      let fall = quot (pos gravity_dv *ℤ submerged +ℤ quot density 2) (magnitude density) in
      let (vx, vy) = Cell.vel c in
      elim (Bool-cases grounded) [
        | inl h ↦ rw h (
          _,
          refl,
          settle_effects-Seen w p c d true (apply d.ground_friction_keep vx) vy rng kc k,
        )
        | inr h ↦
            rw (h, heavy) (_, refl, settle_effects-Seen w p c d false vx (vy -ℤ fall) rng kc k)
      ]

  liquid-Seen :
      (w : Window) (p : CellPos) (c : Cell) (d : LiquidDynamics)
      → K c.material
      → Seen w
      → Seen (Liquid.apply_effects content w p c d)
  unfolding Liquid.apply_effects
  liquid-Seen w p c d kc k = search (velocity-Seen, kc, k)

  gas-Seen :
      (w : Window) (p : CellPos) (c : Cell) (d : GasDynamics)
      → K c.material
      → Seen w
      → Seen (Gas.apply_effects content w p c d)
  unfolding Gas.apply_effects
  gas-Seen w p c d kc k = search (velocity-Seen, kc, k)

  -- The effects of the dynamics do not panic, and leave known materials.
  pub drive-Seen :
      (spec : MatSpec) (w : Window) (p : CellPos) (c : Cell) (rng : Rng)
      → IsWeighty spec
      → K c.material
      → Seen w
      → (v : Window) × (drive content spec w p c rng ≡ some v) × Seen v
  unfolding drive
  drive-Seen spec w p c rng heavy kc k = by_dynamics spec.dynamics heavy
    where
      by_dynamics :
          (d : Dynamics)
          → (is_powder d ≡ true → leb_ℤ spec.density_milli (pos 0) ≡ false)
          → (v : Window) × ((elim d [
            | no_dynamics ↦ some w
            | powder d' ↦ Powder.apply_effects content spec w p c d' rng
            | liquid d' ↦ some (Liquid.apply_effects content w p c d')
            | gas d' ↦ some (Gas.apply_effects content w p c d')
          ])
              ≡ some v)
            × Seen v
      by_dynamics no_dynamics h = (w, refl, k)
      by_dynamics (powder d) h = powder-Seen spec w p c d rng (h refl) kc k
      by_dynamics (liquid d) h = (_, refl, liquid-Seen w p c d kc k)
      by_dynamics (gas d) h = (_, refl, gas-Seen w p c d kc k)
