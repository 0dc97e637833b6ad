-- ===== src/Sim/Liquid/Keep.antt =====
-- No movement of a liquid makes or loses matter (crates/fallingsand_sim/src/liquid.rs).
use fallingsand.Prelude.{
  ℕ, ◌≡◌, inl, inr, refl, sym, ap, ◌∙◌, Bool, true, false, not, ◌||◌, ◌&&◌, ◌==◌, some,
  if◌then◌else◌, Bool-cases, Option-cases, List, [], ◌∷◌,
}
use fallingsand.Prelude.Int.{ℤ, pos, neg, negsuc, ◌*ℤ◌, ◌-ℤ◌, eqb_ℤ, ltb_ℤ}
use fallingsand.Prelude.Words.{signed32}
use fallingsand.Coords.{CellPos}
use fallingsand.Cell.{Cell}
use fallingsand.Cell as Cell
use fallingsand.Math.{Rng, below, draw}
use fallingsand.Sim.Content.{Content}
use fallingsand.Sim.Salts.{seeded, movement_salt}
use fallingsand.Sim.Window.{Window, get, set, swap, stirred, struck_body}
use fallingsand.Sim.Window.Cells.{view, seen, get-seen}
use fallingsand.Sim.Window.Writes.{SameView}
use fallingsand.Sim.Window.Keep.{
  Keeps, Keeps-refl, Keeps-trans, mark-Keeps, swap-Keeps, set-Keeps, Keeps-view, get-swap, SameLook,
  stirred-look,
}
use fallingsand.Sim.Motion.Speed.{moved_by, prefer_side, is_liquid}
use fallingsand.Sim.Motion.Exchange.{same_vel, write_velocity}
use fallingsand.Sim.Motion.Traverse.{Walk}
use fallingsand.Sim.Motion.Keep.{
  Keeps-if, set_vel-look, swap_through_liquid-Keeps, write_velocity-Keeps,
}
use fallingsand.Sim.Motion.Travel as Travel
use fallingsand.Sim.Gas.Keep.{entry-Keeps}
use fallingsand.Sim.Liquid.{
  can_exchange_downhill_into, holds_at, swap_moving, relax_interface, downhill_target,
  downhill_launch, sink, relax, land, entry, move_cell, exposed, supported_interface,
  passive_threshold, interface_direction,
}

module _ (content : Content) where
  swap_moving-Keeps :
      (tick : ℕ) (w : Window) (a b : CellPos) → Keeps w (swap_moving content tick w a b).0
  unfolding swap_moving
  swap_moving-Keeps tick w a b = elim (Option-cases (get w a)) [
    | inl e ↦ rw (swap_moving, e) (Keeps-refl w)
    | inr (x, e) ↦ elim (Option-cases (get w b)) [
      | inl f ↦ rw (swap_moving, e, f) (Keeps-refl w)
      | inr (y, f) ↦
          elim (Bool-cases (is_liquid content y.material && not (y.material == x.material))) [
            | inl b1 ↦ rw (swap_moving, e, f, b1) (swap_through_liquid-Keeps content w a b tick)
            | inr b0 ↦ rw (swap_moving, e, f, b0) (swap-Keeps content w a b)
          ]
    ]
  ]

  launched-Keeps :
      (w : Window) (p q : CellPos) (x y : Cell) (vx : ℤ)
      → get w p ≡ some x
      → get w q ≡ some y
      → Keeps w (set content (swap content w p q) q (Cell.set_vel x vx (pos 0)))
  launched-Keeps w p q x y vx e f = Keeps-trans (swap-Keeps content w p q) (
      set-Keeps content (swap content w p q) q (Cell.set_vel x vx (pos 0))
        (get-swap content w p q x y e f) (launched-look x vx))
    where
      launched-look : (x : Cell) (vx : ℤ) → SameLook (stirred x) (Cell.set_vel x vx (pos 0))
      launched-look x vx =
          let h = stirred-look content x in
          let k = set_vel-look x vx (pos 0) in (k.0 ∙ sym h.0, k.1 ∙ sym h.1)

  sink-Keeps :
      (w : Window) (p : CellPos) (x : Cell) (q : CellPos) (tick : ℕ) {y : Cell}
      → get w p ≡ some x
      → get w q ≡ some y
      → Keeps w (sink content w p x q tick)
  unfolding sink
  sink-Keeps w p x q tick {y} e f =
      Keeps-if
        (holds_at content w q (λ c. is_liquid content c.material && not (c.material == x.material)))
        (swap_through_liquid-Keeps content w p q tick)
        (Keeps-if (q.x == p.x) (swap-Keeps content w p q)
          (launched-Keeps w p q x y ((signed32 q.x -ℤ signed32 p.x) *ℤ pos downhill_launch) e f))

  -- Where a test holds, a cell is loaded.
  holds_at-loaded :
      (w : Window) (p : CellPos) (test : Cell → Bool)
      → holds_at content w p test ≡ true
      → (y : Cell) × (get w p ≡ some y)
  unfolding holds_at
  holds_at-loaded w p test h = elim (Option-cases (get w p)) [
    | inl e ↦ let bad = rw (holds_at, e) at h in cc
    | inr f ↦ f
  ]

  downhill_target-loaded :
      (w : Window) (c : Cell) (ts : List CellPos) (t : CellPos)
      → downhill_target content w c ts ≡ some t
      → (y : Cell) × (get w t ≡ some y)
  unfolding downhill_target can_exchange_downhill_into
  downhill_target-loaded w c [] t h = cc
  downhill_target-loaded w c (u ∷ us) t h =
      elim (Bool-cases (can_exchange_downhill_into content w c u)) [
        | inl e ↦
            let same : some u ≡ some t = rw (downhill_target, e) at h in
            let eq : u ≡ t = cc in rw (sym eq) (holds_at-loaded w u _ e)
        | inr e ↦ downhill_target-loaded w c us t (rw (downhill_target, e) at h)
      ]

  relax_interface-Keeps :
      (w : Window) (p : CellPos) (c : Cell) (rng : Rng)
      → Keeps w (relax_interface content w p c rng)
  unfolding relax_interface
  relax_interface-Keeps w p c rng =
      let target = moved_by p (interface_direction c p) (pos 0) in
      Keeps-if (not (exposed content w p c) || not (supported_interface content w c target))
        (Keeps-refl w)
        (entry-Keeps (entry content w target)
          (Keeps-if (below (draw rng).1 (passive_threshold content w c target))
            (swap-Keeps content w p target) (mark-Keeps w p))
          (mark-Keeps w p) (Keeps-refl w))

  relax-Keeps :
      (w : Window) (p : CellPos) (c : Cell) (tick : ℕ) (rng : Rng)
      → get w p ≡ some c
      → Keeps w (relax content w p c tick rng)
  unfolding relax
  relax-Keeps w p c tick rng e =
      let (rng', side) = prefer_side (pos 0) rng in
      let targets =
        moved_by p (pos 0) (negsuc 0)
        ∷ moved_by p side (negsuc 0)
        ∷ moved_by p (neg side) (negsuc 0)
        ∷ [] in
      elim (Option-cases (downhill_target content w c targets)) [
        | inl f ↦ rw (relax, f) (relax_interface-Keeps w p c rng')
        | inr (target, f) ↦
            let (y, g) = downhill_target-loaded w c targets target f in
            rw (relax, f)
              (entry-Keeps (entry content w target)
                (Keeps-if (below (draw rng').1 (passive_threshold content w c target))
                  (sink-Keeps w p c target tick e g) (mark-Keeps w p))
                (mark-Keeps w p) (Keeps-refl w))
      ]

  -- Where two windows show the same cells, a position shows the same in both.
  view-get : (w v : Window) (p : CellPos) → SameView w v → get v p ≡ get w p
  view-get w v p h =
      get-seen v p
      ∙ ap (λ o. seen o (view v) p) h.1
      ∙ ap (λ t. seen w.origin t p) h.0
      ∙ sym (get-seen w p)

  view-if :
      (w a b : Window) (c : Bool) → SameView w a → SameView w b → SameView w (if c then a else b)
  view-if w a b true h k = h
  view-if w a b false h k = k

  struck_body-view :
      (w u : Window) (c : Cell) (grain p : CellPos)
      → SameView w u
      → SameView w (struck_body content u c grain p).0
  unfolding struck_body
  struck_body-view w u c grain p h = elim (Option-cases (get u p)) [
    | inl e ↦ rw (struck_body, e) h
    | inr (x, e) ↦ elim (Option-cases (Cell.body_id x)) [
      | inl f ↦ rw (struck_body, e, f) h
      | inr (id, f) ↦ rw (struck_body, e, f) h
    ]
  ]

  -- A new velocity in a window with the same cells.
  struck-Keeps :
      (w v : Window) (p : CellPos) (c : Cell) (vx vy : ℤ) (settled : Bool)
      → get w p ≡ some c
      → SameView w v
      → Keeps w (write_velocity content v p c vx vy settled)
  struck-Keeps w v p c vx vy settled e h =
      Keeps-trans (Keeps-view h)
        (write_velocity-Keeps content v p c vx vy settled (view-get w v p h ∙ e))

  land-Keeps : (c : Cell) (t : Walk) → Keeps t.window (land content c t)
  unfolding land
  land-Keeps c t = elim (Option-cases (get t.window t.at)) [
    | inl e ↦ rw (land, e) (Keeps-refl t.window)
    | inr (x, e) ↦
        let w0 = t.window in
        let same : SameView w0 w0 = (refl, refl) in
        let upward = ltb_ℤ (pos 0) t.blocked_y in
        let w_up = (struck_body content w0 c t.at (moved_by t.at (pos 0) (pos 1))).0 in
        let w_rise = if upward then w_up else w0 in
        let rise : SameView w0 w_rise =
          view-if w0 w_up w0 upward (struck_body-view w0 w0 c t.at _ same) same in
        let w_side = (struck_body content w_rise c t.at (moved_by t.at t.blocked_x (pos 0))).0 in
        let sideways = not (eqb_ℤ t.blocked_x (pos 0)) in
        let w_flat = if sideways then w_side else w_rise in
        let flat : SameView w0 w_flat =
          view-if w0 w_side w_rise sideways (struck_body-view w0 w_rise c t.at _ rise) rise in
        let w_down = (struck_body content w0 c t.at (moved_by t.at (pos 0) (negsuc 0))).0 in
        let downward = ltb_ℤ t.blocked_y (pos 0) in
        let all : SameView w0 (if downward then w_down else w_flat) =
          view-if w0 w_down w_flat downward (struck_body-view w0 w0 c t.at _ same) flat in
        rw (land, e) (search (struck-Keeps, e, all))
  ]

  -- The same for a liquid.
  pub move_cell-Keeps :
      (w : Window) (p : CellPos) (c : Cell) (tick : ℕ)
      → get w p ≡ some c
      → (v : Window) × (move_cell content w p c tick ≡ some v) × Keeps w v
  unfolding move_cell
  move_cell-Keeps w p c tick e = elim (Bool-cases (same_vel (Cell.vel c) (pos 0) (pos 0))) [
    | inl b ↦
        rw (move_cell, b)
          (relax content w p c tick (seeded tick movement_salt p), refl, relax-Keeps w p c tick _ e)
    | inr b ↦
        let (t, f, k) =
          Travel.traverse-Keeps (λ w' dir target. entry content w' target)
            (λ w' from to. swap_moving content tick w' from to) (swap_moving-Keeps tick) w p
            (Cell.vel c).0 (Cell.vel c).1 (seeded tick movement_salt p) in
        rw (move_cell, b, f) (land content c t, refl, Keeps-trans k (land-Keeps c t))
  ]
