-- ===== src/Sim/Motion/Conserve.antt =====
-- No travel of a cell makes or loses matter (crates/fallingsand_sim/src/motion.rs).
use fallingsand.Prelude.{
  inl, inr, Bool, true, false, none, some, Option-cases, if◌then◌else◌, List, [], ◌∷◌,
}
use fallingsand.Prelude.Int.{ℤ}
use fallingsand.Coords.{CellPos}
use fallingsand.Cell.{Cell}
use fallingsand.Sim.Content.{Content}
use fallingsand.Sim.Window.{Window, get}
use fallingsand.Sim.Window.Keep.{Keeps, Keeps-refl, Keeps-trans, struck_body-Keeps}
use fallingsand.Sim.Motion.Exchange.{write_velocity}
use fallingsand.Sim.Motion.Traverse.{Walk}
use fallingsand.Sim.Motion.Speed.{moved_by}
use fallingsand.Sim.Motion.Move.{neighbors, Push, turn, rebound, push_side, push_sides, arrive}
use fallingsand.Sim.Motion.Keep.{pair-Keeps, write_velocity-Keeps, transfer_momentum-Keeps}

turn-Keeps :
    (s : Push) (hit axis : Bool) (struck : Window) (r : Window × ℤ)
    → Keeps s.window struck
    → Keeps s.window r.0
    → Keeps s.window (if hit then record s { window = struck } else turn s axis r).window
turn-Keeps s true axis struck r h k = h
turn-Keeps s false true struck r h k = k
turn-Keeps s false false struck r h k = k

skip-Keeps :
    (s t : Push) (skip : Bool)
    → Keeps s.window t.window
    → Keeps s.window (if skip then s else t).window
skip-Keeps s t true h = Keeps-refl s.window
skip-Keeps s t false h = h

module _ (content : Content) where
  rebound-Keeps :
      (w : Window) (c b : Cell) (p : CellPos) (dir : ℤ × ℤ) (v : ℤ)
      → Keeps w (rebound content w c b p dir v).0
  unfolding rebound
  rebound-Keeps w c b p dir v = search (pair-Keeps, transfer_momentum-Keeps, Keeps-refl)

  push_side-Keeps :
      (c : Cell) (at : CellPos) (s : Push) (d : ℤ × ℤ)
      → Keeps s.window (push_side content c at s d).window
  unfolding push_side
  push_side-Keeps c at s d = elim (Option-cases (get s.window (moved_by at d.0 d.1))) [
    | inl e ↦ rw (push_side, e) (skip-Keeps s s _ (Keeps-refl s.window))
    | inr (b, e) ↦
        rw (push_side, e) (search (skip-Keeps, turn-Keeps, struck_body-Keeps, rebound-Keeps))
  ]

  push_sides-Keeps :
      (c : Cell) (at : CellPos) (ds : List (ℤ × ℤ)) (s : Push)
      → Keeps s.window (push_sides content c at ds s).window
  unfolding push_sides
  push_sides-Keeps c at [] s = Keeps-refl s.window
  push_sides-Keeps c at (d ∷ ds) s =
      Keeps-trans (push_side-Keeps c at s d) (push_sides-Keeps c at ds (push_side content c at s d))

  pub settled-Keeps :
      (w : Window) (p : CellPos) (vx vy : ℤ) (settled : Bool)
      → Keeps w (elim (get w p) [ none ↦ w | some c ↦ write_velocity content w p c vx vy settled ])
  settled-Keeps w p vx vy settled = elim (Option-cases (get w p)) [
    | inl e ↦ rw e (Keeps-refl w)
    | inr (c, e) ↦ rw e (write_velocity-Keeps content w p c vx vy settled e)
  ]

  landed-Keeps :
      (c : Cell) (p : CellPos) (s : Push) (settled : Bool)
      → Keeps s.window (elim (get (push_sides content c p neighbors s).window p) [
        | none ↦ (push_sides content c p neighbors s).window
        | some here ↦
            write_velocity content
              (push_sides content c p neighbors s).window
              p
              here
              (push_sides content c p neighbors s).vx
              (push_sides content c p neighbors s).vy
              settled
      ])
  landed-Keeps c p s settled =
      Keeps-trans (push_sides-Keeps c p neighbors s)
        (settled-Keeps (push_sides content c p neighbors s).window p _ _ settled)

  -- What a cell does where it arrives.
  pub arrive-Keeps : (c : Cell) (t : Walk) → Keeps t.window (arrive content c t)
  unfolding arrive
  arrive-Keeps c t = search (landed-Keeps)
