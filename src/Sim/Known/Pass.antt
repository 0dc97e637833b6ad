-- ===== src/Sim/Known/Pass.antt =====
-- The effects of a cell in a window of known materials (crates/fallingsand_sim/src/rules.rs).
use fallingsand.Prelude.{
  ℕ, ◌≡◌, inl, inr, refl, Bool, true, false, if◌then◌else◌, Option, none, some, Option-cases,
}
use fallingsand.Coords.{CellPos}
use fallingsand.Cell.{Cell, MaterialId}
use fallingsand.Cell as Cell
use fallingsand.Sim.Content.{Content, MatSpec}
use fallingsand.Sim.Salts.{seeded, effect_salt}
use fallingsand.Sim.Window.{Window, get}
use fallingsand.Sim.Chemistry
use fallingsand.Sim.Rules
use fallingsand.Sim.Rules.Effects.{IsWeighty}
use fallingsand.Sim.Known.{AllSeen, get-AllSeen}
use fallingsand.Sim.Known.Drive.{drive-Seen}
use fallingsand.Sim.Known.Chemistry.{apply-AllSeen}
use fallingsand.Sim.Known.Burning.{ProductsKnown}

-- A material that has a specification, of a positive density if it is a powder.
abbrev pub IsKnown : Content → MaterialId → Type 0
IsKnown content m = (spec : MatSpec) × (content.spec m ≡ some spec) × IsWeighty spec

-- What the chemistry makes of known materials is known.
pub record IsClosed (content : Content) : Type 0 where
  pub steam : IsKnown content content.steam
  pub fire : IsKnown content content.fire
  pub products :
      (m : MaterialId) (spec : MatSpec)
      → content.spec m ≡ some spec
      → ProductsKnown content (IsKnown content) spec

module _ (content : Content) (closed : IsClosed content) where
  abbrev All : Window → Type 0
  All = AllSeen (IsKnown content)

  acted :
      (spec : MatSpec) (w : Window) (p : CellPos) (cell : Cell) (o : Chemistry.Outcome)
      → IsWeighty spec
      → IsKnown content cell.material
      → All o.window
      → (b : Bool) (body : Option ℕ)
      → (v : Window) × ((if b then some o.window else (elim body as (λ _. Option Window) [
        | some id ↦ some o.window
        | none ↦ Rules.drive content spec o.window p cell o.rng
      ]))
          ≡ some v)
        × All v
  acted spec w p cell o heavy kc k true body = (o.window, refl, k)
  acted spec w p cell o heavy kc k false (some id) = (o.window, refl, k)
  acted spec w p cell o heavy kc k false none =
      let (v, e, seen) =
        drive-Seen content (IsKnown content) spec o.window p cell o.rng heavy kc
          (record { known = k }) in
      (v, e, seen.known)

  -- The effects of one cell do not panic.
  pub effect_cell-AllSeen :
      (w : Window) (p : CellPos) (tick : ℕ)
      → All w
      → (v : Window) × (Rules.effect_cell content w p tick ≡ some v) × All v
  unfolding Rules.effect_cell Rules.apply_effects
  effect_cell-AllSeen w p tick k = elim (Option-cases (get w p)) [
    | inl e ↦ rw (Rules.effect_cell, e) (w, refl, k)
    | inr (cell, e) ↦
        let (spec, s, heavy) = get-AllSeen (IsKnown content) w p cell e k in
        let o = Chemistry.apply content spec w p (seeded tick effect_salt p) in
        let ko =
          apply-AllSeen content (IsKnown content) spec w p (seeded tick effect_salt p) closed.steam
            closed.fire (closed.products cell.material spec s) k in
        let written : (b : Bool)
            → (v : Window) × ((if b
                  then some o.window
                  else (elim (Cell.body_id cell) as (λ _. Option Window) [
                    | some id ↦ some o.window
                    | none ↦ Rules.drive content spec o.window p cell o.rng
                  ]))
                ≡ some v)
              × All v =
          λ b. acted spec w p cell o heavy (spec, s, heavy) ko b (Cell.body_id cell) in
        rw (Rules.effect_cell, e, s) (written o.acted)
  ]
