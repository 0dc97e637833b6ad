-- ===== src/Sim/Motion/Keep.antt =====
-- No movement makes or loses matter (crates/fallingsand_sim/src/motion.rs).
use fallingsand.Prelude.{
  ℕ, ◌≡◌, inl, inr, refl, Bool, true, false, ◌&&◌, some, Option-cases, if◌then◌else◌, Bool-cases,
}
use fallingsand.Prelude.Int.{ℤ}
use fallingsand.Coords.{CellPos}
use fallingsand.Cell.{Cell, MaterialId}
use fallingsand.Cell as Cell
use fallingsand.Material.{Q16, powder_phase, liquid_phase}
use fallingsand.Sim.Content.{Content}
use fallingsand.Sim.Window.{Window, get, set, swap}
use fallingsand.Sim.Window.Keep.{
  Keeps, Keeps-refl, Keeps-trans, mark-Keeps, SameLook, set-Keeps, swap-Keeps, set_both-Keeps,
}
use fallingsand.Sim.Motion.Exchange.{
  same_phase, write_velocity, swap_through_liquid, swap_dynamic, transfer_momentum,
}

-- A choice between two windows that both keep matter.
pub Keeps-if : {w a b : Window} (c : Bool) → Keeps w a → Keeps w b → Keeps w (if c then a else b)
Keeps-if true h k = h
Keeps-if false h k = k

pub set_vel-look : (c : Cell) (vx vy : ℤ) → SameLook c (Cell.set_vel c vx vy)
unfolding Cell.set_vel
set_vel-look c vx vy = (refl, refl)

-- The same where the window is half of a result.
pub pair-Keeps {ℓ} :
    {A : Type ℓ} {w : Window} (c : Bool) (a b : Window × A)
    → Keeps w a.0
    → Keeps w b.0
    → Keeps w (if c then a else b).0
pair-Keeps true a b h k = h
pair-Keeps false a b h k = k

pushed-look :
    (b : Bool) (c : Cell) (vx vy ux uy : ℤ)
    → SameLook c (Cell.set_moved (if b then Cell.set_vel c vx vy else Cell.set_vel c ux uy))
unfolding Cell.set_vel Cell.set_moved
pushed-look true c vx vy ux uy = (refl, refl)
pushed-look false c vx vy ux uy = (refl, refl)

module _ (content : Content) where
  pub set_vel-Keeps :
      (w : Window) (p : CellPos) (c : Cell) (vx vy : ℤ)
      → get w p ≡ some c
      → Keeps w (set content w p (Cell.set_vel c vx vy))
  set_vel-Keeps w p c vx vy e =
      set-Keeps content w p (Cell.set_vel c vx vy) e (set_vel-look c vx vy)

  pub write_velocity-Keeps :
      (w : Window) (p : CellPos) (c : Cell) (vx vy : ℤ) (settled : Bool)
      → get w p ≡ some c
      → Keeps w (write_velocity content w p c vx vy settled)
  unfolding write_velocity
  write_velocity-Keeps w p c vx vy settled e =
      search (Keeps-if, set_vel-Keeps, mark-Keeps, Keeps-refl, e)

  relooked-Keeps :
      (w : Window) (a b : CellPos) (x y x' y' : Cell)
      → get w a ≡ some x
      → get w b ≡ some y
      → SameLook x x'
      → SameLook y y'
      → Keeps w (swap content (set content (set content w a x') b y') a b)
  relooked-Keeps w a b x y x' y' e f lx ly =
      Keeps-trans (set_both-Keeps content w a b x y x' y' e f lx ly) (swap-Keeps content _ a b)

  pub swap_through_liquid-Keeps :
      (w : Window) (a b : CellPos) (tick : ℕ) → Keeps w (swap_through_liquid content w a b tick).0
  unfolding swap_through_liquid
  swap_through_liquid-Keeps w a b tick = elim (Option-cases (get w a)) [
    | inl e ↦ rw (swap_through_liquid, e) (Keeps-refl w)
    | inr (x, e) ↦ elim (Option-cases (get w b)) [
      | inl f ↦ rw (swap_through_liquid, e, f) (Keeps-refl w)
      | inr (y, f) ↦ rw (swap_through_liquid, e, f) (search (relooked-Keeps, e, f, set_vel-look))
    ]
  ]

  pub swap_dynamic-Keeps :
      (tick : ℕ) (w : Window) (a b : CellPos) → Keeps w (swap_dynamic content tick w a b).0
  unfolding swap_dynamic
  swap_dynamic-Keeps tick w a b = elim (Option-cases (get w a)) [
    | inl e ↦ rw (swap_dynamic, e) (Keeps-refl w)
    | inr (x, e) ↦ elim (Option-cases (get w b)) [
      | inl f ↦ rw (swap_dynamic, e, f) (Keeps-refl w)
      | inr (y, f) ↦
          elim (Bool-cases (
            same_phase (content.phase x.material) powder_phase
            && same_phase (content.phase y.material) liquid_phase)) [
              | inl b1 ↦ rw (swap_dynamic, e, f, b1) (swap_through_liquid-Keeps w a b tick)
              | inr b0 ↦ rw (swap_dynamic, e, f, b0) (swap-Keeps content w a b)
            ]
    ]
  ]

  -- Nothing happens, or the cell in the way gets another velocity.
  pushed-Keeps :
      (w : Window) (p : CellPos) (x : Cell) (b h : Bool) (vx vy ux uy v u : ℤ)
      → get w p ≡ some x
      → Keeps w
          (if◌then◌else◌ {A = Window × ℤ} b
            (w, v)
            (
              set content w p
                  (Cell.set_moved (if h then Cell.set_vel x vx vy else Cell.set_vel x ux uy)),
              u,
            )).0
  pushed-Keeps w p x true h vx vy ux uy v u e = Keeps-refl w
  pushed-Keeps w p x false h vx vy ux uy v u e =
      set-Keeps content w p _ e (pushed-look h x vx vy ux uy)

  pub transfer_momentum-Keeps :
      (w : Window) (m : MaterialId) (p : CellPos) (dir : ℤ × ℤ) (v : ℤ) (r : Q16)
      → Keeps w (transfer_momentum content w m p dir v r).0
  unfolding transfer_momentum
  transfer_momentum-Keeps w m p dir v r = elim (Option-cases (get w p)) [
    | inl e ↦ rw (transfer_momentum, e) (Keeps-refl w)
    | inr (x, e) ↦ rw (transfer_momentum, e) (search (pushed-Keeps, e))
  ]
