-- ===== src/Sim/Known/Chemistry.antt =====
-- Which materials reactions, decay and the whole of the chemistry leave in a window
-- (crates/fallingsand_sim/src/chemistry.rs).
use fallingsand.Prelude.{
  ℕ, inl, inr, Bool, true, false, ◌==◌, if◌then◌else◌, Bool-cases, Option, none, some, Option-cases,
  List, [], ◌∷◌,
}
use fallingsand.Prelude.Int.{ℤ}
use fallingsand.Coords.{CellPos}
use fallingsand.Cell.{MaterialId}
use fallingsand.Material.{Ignition, Burning}
use fallingsand.Math.{Rng, draw, below}
use fallingsand.Sim.Content.{Content, MatSpec}
use fallingsand.Sim.Window.{Window, get, mark}
use fallingsand.Sim.Motion.Speed.{moved_by}
use fallingsand.Sim.Motion.Move.{neighbors}
use fallingsand.Sim.Chemistry.{
  Outcome, outcome, set_product, burn, ignite, react_at, decay_or_wait, react, try_burn, try_ignite,
  apply,
}
use fallingsand.Sim.Known.{AllSeen, mark-AllSeen}
use fallingsand.Sim.Known.Burning.{
  Holds, BurningKnown, ProductsKnown, either, either_outcome, product-AllSeen, burn-AllSeen,
  ignite-AllSeen,
}

module _ (content : Content) (K : MaterialId → Type 0) where
  abbrev All : Window → Type 0
  All = AllSeen K

  -- The outcome of the loop, where a neighbour reacted.
  react_at-AllSeen :
      (spec : MatSpec) (w : Window) (p : CellPos) (ds : List (ℤ × ℤ)) (pending : Bool) (rng : Rng)
      → ProductsKnown content K spec
      → All w
      → Holds (λ (o : Outcome). All o.window) (react_at content spec w p ds pending rng).0
  unfolding react_at
  react_at-AllSeen spec w p [] pending rng ks k = tt
  react_at-AllSeen spec w p ((dx, dy) ∷ ds) pending rng ks k =
      let next = moved_by p dx dy in
      let skip = react_at-AllSeen spec w p ds pending rng ks k in
      let pass = react_at-AllSeen spec w p ds true (draw rng).0 ks k in
      elim (Option-cases (get w next)) [
        | inl e ↦ rw (Holds, e) skip
        | inr (c, e) ↦
            let reaction = spec.reactions c.material in
            let first = set_product content w p reaction.becomes (draw rng).0 in
            elim (Bool-cases (reaction.threshold == 0)) [
              | inl z ↦ rw (Holds, e, z) skip
              | inr z ↦ elim (Bool-cases (below (draw rng).1 reaction.threshold)) [
                | inr miss ↦ rw (Holds, e, z, miss) pass
                | inl hit ↦
                    let (ka, kb) = ks.reactions c.material z in
                    rw (Holds, e, z, hit)
                      (product-AllSeen content K first.0 next reaction.other_becomes first.1 kb
                        (product-AllSeen content K w p reaction.becomes (draw rng).0 ka k))
              ]
            ]
      ]

  decay-AllSeen :
      (spec : MatSpec) (w : Window) (p : CellPos) (pending : Bool) (rng : Rng)
      → ProductsKnown content K spec
      → All w
      → All (decay_or_wait content spec w p pending rng).window
  unfolding decay_or_wait
  decay-AllSeen spec w p pending rng ks k = by_decay spec.decay ks.decay
    where
      by_decay :
          (o : Option (ℕ × MaterialId))
          → Holds (λ (d : ℕ × MaterialId). K d.1) o
          → All
              (elim o as (λ _. Outcome) [
                | none ↦ outcome (if pending then mark w p else w) rng false
                | some (threshold, product) ↦
                    let (rng', h) = draw rng in
                    let (w', rng'') = set_product content w p product rng' in
                    if below h threshold
                    then outcome w' rng'' true
                    else outcome (mark w p) rng' false
              ]).window
      by_decay none h = either content K pending (mark w p) w (mark-AllSeen K w p k) k
      by_decay (some (t, m)) h =
          let made = set_product content w p m (draw rng).0 in
          either_outcome content K (below (draw rng).1 t) (outcome made.0 made.1 true)
            (outcome (mark w p) (draw rng).0 false)
            (product-AllSeen content K w p m (draw rng).0 h k) (mark-AllSeen K w p k)

  react-AllSeen :
      (spec : MatSpec) (w : Window) (p : CellPos) (rng : Rng)
      → ProductsKnown content K spec
      → All w
      → All (react content spec w p rng).window
  unfolding react
  react-AllSeen spec w p rng ks k =
      reacted (react_at content spec w p neighbors false rng)
        (react_at-AllSeen spec w p neighbors false rng ks k)
    where
      reacted :
          (r : Option Outcome × (Rng × Bool))
          → Holds (λ (o : Outcome). All o.window) r.0
          → All
              (elim r.0 as (λ _. Outcome) [
                | some o ↦ o
                | none ↦ decay_or_wait content spec w p r.1.1 r.1.0
              ]).window
      reacted (none, (r, pending)) h = decay-AllSeen spec w p pending r ks k
      reacted (some o, rest) h = h

  -- Whatever a material does for its chemistry, the cells of the window stay of known materials.
  pub apply-AllSeen :
      (spec : MatSpec) (w : Window) (p : CellPos) (rng : Rng)
      → K content.steam
      → K content.fire
      → ProductsKnown content K spec
      → All w
      → All (apply content spec w p rng).window
  unfolding apply try_burn try_ignite
  apply-AllSeen spec w p rng steam fire ks k =
      let a = try_burn content spec w p rng in
      let b = try_ignite content spec a.window p a.rng in
      let ka = burnt spec.burning ks.burning in
      let kb = lit a spec.ignition ks.ignition ka in
      either_outcome content K a.acted a
        (if b.acted
          then b
          else if spec.is_reactive
          then react content spec b.window p b.rng
          else record b { acted = false })
        ka
        (either_outcome content K b.acted b
          (if spec.is_reactive
            then react content spec b.window p b.rng
            else record b { acted = false })
          kb
          (either_outcome content K spec.is_reactive (react content spec b.window p b.rng)
            (record b { acted = false }) (react-AllSeen spec b.window p b.rng ks kb) kb))
    where
      burnt :
          (o : Option Burning)
          → Holds (BurningKnown content K) o
          → All
              (elim o as (λ _. Outcome) [
                | none ↦ outcome w rng false
                | some b ↦ burn content w p b rng
              ]).window
      burnt none h = k
      burnt (some b) h = burn-AllSeen content K w p b rng steam fire h k

      lit :
          (a : Outcome) (o : Option Ignition)
          → Holds (λ (i : Ignition). K i.into) o
          → All a.window
          → All
              (elim o as (λ _. Outcome) [
                | none ↦ outcome a.window a.rng false
                | some i ↦ ignite content a.window p i a.rng
              ]).window
      lit a none h ka = ka
      lit a (some i) h ka = ignite-AllSeen content K a.window p i a.rng h ka
