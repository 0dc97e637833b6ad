-- ===== src/Sim/Powder/Keep.antt =====
-- The effects of a powder change velocities and flags only (crates/fallingsand_sim/src/powder.rs).
use fallingsand.Prelude.{
  ℕ, ◌≡◌, inl, inr, refl, sym, ap, ◌∙◌, Bool, true, false, Option, none, some, if◌then◌else◌,
  Option-cases, Bool-cases, not,
}
use fallingsand.Prelude.Int.{ℤ, pos, neg, negsuc, leb_ℤ, ◌+ℤ◌, ◌-ℤ◌, ◌*ℤ◌, clamp, quot, magnitude}
use fallingsand.Coords.{CellPos}
use fallingsand.Cell.{Cell, MaterialId}
use fallingsand.Cell as Cell
use fallingsand.Material.{PowderDynamics, apply}
use fallingsand.Math.{Rng}
use fallingsand.Sim.Content.{Content, MatSpec}
use fallingsand.Sim.Window.{Window, get, set, mark, load_body}
use fallingsand.Sim.Window.Keep.{
  Keeps, Keeps-refl, Keeps-trans, mark-Keeps, set-Keeps, get-set_cases, SameLook,
}
use fallingsand.Sim.Motion.Speed.{moved_by, gravity_dv}
use fallingsand.Sim.Motion.Exchange.{can_enter, write_velocity}
use fallingsand.Sim.Motion.Keep.{Keeps-if, set_vel-look, set_vel-Keeps}
use fallingsand.Sim.Powder.{
  Load, transfer_load, apply_effects, settle_effects, buoyant_gravity, ambient_density,
}

module _ (content : Content) where
  -- The second window has the same matter, and a cell of the same look at the position.
  abbrev Loaded : Window → CellPos → Cell → Window → Type 0
  Loaded w p c v = Keeps w v × ((x : Cell) × (get v p ≡ some x) × SameLook x c)

  refl-Loaded : (w : Window) (p : CellPos) (c : Cell) → get w p ≡ some c → Loaded w p c w
  refl-Loaded w p c e = (Keeps-refl w, (c, e, (refl, refl)))

  set-Loaded :
      (w : Window) (p q : CellPos) (c s : Cell) (vx vy : ℤ)
      → get w p ≡ some c
      → get w q ≡ some s
      → Loaded w p c (set content w q (Cell.set_vel s vx vy))
  set-Loaded w p q c s vx vy e f = (
    set_vel-Keeps content w q s vx vy f,
    elim (get-set_cases content w q p (Cell.set_vel s vx vy) f e) [
      | inl (h, same) ↦
          let look = set_vel-look s vx vy in
          (
            Cell.set_vel s vx vy,
            h,
            (
              ap (λ (k : Cell). k.material) same ∙ sym look.0,
              ap (λ (k : Cell). k.shade) same ∙ sym look.1,
            ),
          )
      | inr h ↦ (c, h, (refl, refl))
    ],
  )

  if-Loaded :
      (w : Window) (p : CellPos) (c : Cell) (b : Bool) (s t : Window × Option Load)
      → Loaded w p c s.0
      → Loaded w p c t.0
      → Loaded w p c (if b then s else t).0
  if-Loaded w p c true s t h k = h
  if-Loaded w p c false s t h k = k

  if_set-Loaded :
      (w : Window) (p q : CellPos) (c s : Cell) (vx vy : ℤ) (b : Bool)
      → get w p ≡ some c
      → get w q ≡ some s
      → Loaded w p c (if b then set content w q (Cell.set_vel s vx vy) else w)
  if_set-Loaded w p q c s vx vy true e f = set-Loaded w p q c s vx vy e f
  if_set-Loaded w p q c s vx vy false e f = refl-Loaded w p c e

  body-Loaded :
      (w : Window) (p q : CellPos) (c : Cell) (id : ℕ) (jy : ℤ)
      → get w p ≡ some c
      → Loaded w p c (load_body w id q jy)
  unfolding load_body get
  body-Loaded w p q c id jy e = (record { place = refl; amount = λ l. refl }, (c, e, (refl, refl)))

  transfer_load-Loaded :
      (w : Window) (p : CellPos) (c : Cell) (m : MaterialId) (vy : ℤ)
      → get w p ≡ some c
      → Loaded w p c (transfer_load content w p m vy).0
  unfolding transfer_load
  transfer_load-Loaded w p c m vy e =
      let q = moved_by p (pos 0) (negsuc 0) in
      elim (Option-cases (get w q)) [
        | inl f ↦ rw (transfer_load, f) (refl-Loaded w p c e)
        | inr (s, f) ↦ elim (Option-cases (Cell.body_id s)) [
          | inr (id, g) ↦ rw (transfer_load, f, g) (search (if-Loaded, refl-Loaded, body-Loaded, e))
          | inl g ↦ rw (transfer_load, f, g) (search (if-Loaded, refl-Loaded, if_set-Loaded, e, f))
        ]
      ]

  -- A cell of the same look is written over the one in place.
  over-Keeps :
      (w v : Window) (p : CellPos) (c d : Cell)
      → Loaded w p c v
      → SameLook c d
      → Keeps w (set content v p d)
  over-Keeps w v p c d (k, (x, e, l)) h =
      Keeps-trans k (set-Keeps content v p d e (h.0 ∙ l.0, h.1 ∙ l.1))

  SameLook-if :
      (b : Bool) (c d e : Cell) → SameLook c d → SameLook c e → SameLook c (if b then d else e)
  SameLook-if true c d e h k = h
  SameLook-if false c d e h k = k

  velocity-Keeps :
      (w v : Window) (p : CellPos) (c : Cell) (vx vy : ℤ) (settled : Bool)
      → Loaded w p c v
      → Keeps w (write_velocity content v p c vx vy settled)
  unfolding write_velocity
  velocity-Keeps w v p c vx vy settled h =
      let chosen : (b d : Bool) (ux uy : ℤ)
          → Keeps w
              (if b then set content v p (Cell.set_vel c ux uy) else if d then mark v p else v) =
        λ b d ux uy.
          Keeps-if b (over-Keeps w v p c (Cell.set_vel c ux uy) h (set_vel-look c ux uy))
            (Keeps-if d (Keeps-trans h.0 (mark-Keeps v p)) h.0) in
      search chosen

  end-Keeps :
      (w : Window) (p : CellPos) (c : Cell) (s : Window × Option Load) (vx vy : ℤ) (grounded : Bool)
      → Loaded w p c s.0
      → Keeps w (elim s.1 as (λ _. Window) [
        | some load ↦ set content s.0 p (
            if load.saturated
            then Cell.set_stressed (Cell.set_vel c vx (neg load.kept))
            else Cell.set_moved (Cell.set_stressed (Cell.set_vel c vx (neg load.kept))))
        | none ↦
            if Cell.is_stressed c
            then set content s.0 p (Cell.set_vel (Cell.clear_stressed c) vx vy)
            else write_velocity content s.0 p c vx vy grounded
      ])
  unfolding Cell.set_vel Cell.set_stressed Cell.set_moved Cell.clear_stressed
  end-Keeps w p c (v, some load) vx vy grounded h =
      over-Keeps w v p c _ h (SameLook-if load.saturated c _ _ (refl, refl) (refl, refl))
  end-Keeps w p c (v, none) vx vy grounded h =
      Keeps-if (Cell.is_stressed c)
        (over-Keeps w v p c (Cell.set_vel (Cell.clear_stressed c) vx vy) h (refl, refl))
        (velocity-Keeps w v p c vx vy grounded h)

  -- The load is passed on where the cell is grounded.
  grounded-Keeps :
      (w : Window) (p : CellPos) (c : Cell) (b : Bool) (vx vy : ℤ)
      → get w p ≡ some c
      → Keeps w
          (elim (if◌then◌else◌ {A = Window × Option Load} b
              (transfer_load content w p c.material vy)
              (w, none)).1
            as (λ _. Window) [
              | some load ↦
                  set content
                    (if◌then◌else◌ {A = Window × Option Load} b
                      (transfer_load content w p c.material vy)
                      (w, none)).0
                    p
                    (if load.saturated
                      then Cell.set_stressed (Cell.set_vel c vx (neg load.kept))
                      else Cell.set_moved (Cell.set_stressed (Cell.set_vel c vx (neg load.kept))))
              | none ↦
                  if Cell.is_stressed c
                  then set content
                      (if◌then◌else◌ {A = Window × Option Load} b
                        (transfer_load content w p c.material vy)
                        (w, none)).0
                      p
                      (Cell.set_vel (Cell.clear_stressed c) vx vy)
                  else write_velocity content
                      (if◌then◌else◌ {A = Window × Option Load} b
                        (transfer_load content w p c.material vy)
                        (w, none)).0
                      p
                      c
                      vx
                      vy
                      b
            ])
  grounded-Keeps w p c b vx vy e =
      let s : Window × Option Load =
        if b then transfer_load content w p c.material vy else (w, none) in
      end-Keeps w p c s vx vy b (
        if-Loaded w p c b (transfer_load content w p c.material vy) (w, none)
          (transfer_load-Loaded w p c c.material vy e) (refl-Loaded w p c e))

  settle_effects-Keeps :
      (w : Window) (p : CellPos) (c : Cell) (d : PowderDynamics) (grounded : Bool) (vx vy : ℤ)
      (rng : Rng)
      → get w p ≡ some c
      → Keeps w (settle_effects content w p c d grounded vx vy rng)
  unfolding settle_effects
  settle_effects-Keeps w p c d grounded vx vy rng e = search (grounded-Keeps, e)

  -- A powder of a positive density falls without a panic.
  pub apply_effects-Keeps :
      (spec : MatSpec) (w : Window) (p : CellPos) (c : Cell) (d : PowderDynamics) (rng : Rng)
      → leb_ℤ spec.density_milli (pos 0) ≡ false
      → get w p ≡ some c
      → (v : Window) × (apply_effects content spec w p c d rng ≡ some v) × Keeps w v
  unfolding apply_effects buoyant_gravity
  apply_effects-Keeps spec w p c d rng heavy e =
      let grounded =
        not (can_enter content w c.material (negsuc 0) (moved_by p (pos 0) (negsuc 0))) in
      let density = spec.density_milli in
      let submerged = clamp (density -ℤ ambient_density content w p) (pos 0) density in
      let fall = quot (pos gravity_dv *ℤ submerged +ℤ quot density 2) (magnitude density) in
      elim (Bool-cases grounded) [
        | inl h ↦ rw h (
          _,
          refl,
          settle_effects-Keeps w p c d true (apply d.ground_friction_keep (Cell.vel c).0)
              (Cell.vel c).1 rng e,
        )
        | inr h ↦
            rw (h, heavy)
              (
                _,
                refl,
                settle_effects-Keeps w p c d false (Cell.vel c).0 ((Cell.vel c).1 -ℤ fall) rng e,
              )
      ]
