-- ===== src/Sim/Chemistry.antt =====
-- `crates/fallingsand_sim/src/chemistry.rs`: burning, ignition and reactions. Each function returns the
-- window, the generator, and where the code returns one, whether the cell is done for this tick.
use fallingsand.Prelude.{
  ℕ, zero, suc, ◌+◌, Bool, true, false, ◌&&◌, ◌||◌, ◌==◌, if◌then◌else◌, Option, none, some, List,
  [], ◌∷◌,
}
use fallingsand.Prelude.Int.{ℤ}
use fallingsand.Coords.{CellPos}
use fallingsand.Cell.{Cell, MaterialId}
use fallingsand.Cell as Cell
use fallingsand.Material.{
  empty_phase, gas_phase, hot, contains, Ignition, Burning, flame, fuel, becomes_material, smoulder,
}
use fallingsand.Math.{Rng, draw, below, bits, choose}
use fallingsand.Sim.Content.{Content, MatSpec}
use fallingsand.Sim.Window.{Window, get, mark, transform}
use fallingsand.Sim.Motion.Speed.{moved_by}
use fallingsand.Sim.Motion.Move.{neighbors}
use fallingsand.Sim.Liquid.{holds_at}

-- What a rule leaves.
pub record Outcome : Type 0 where
  pub window : Window
  pub rng : Rng
  pub acted : Bool

abbrev pub outcome : Window → Rng → Bool → Outcome
outcome w rng acted = record { window = w; rng = rng; acted = acted }

-- `(0..count).any(|_| rng.draw().below(threshold))`.
unfoldable pub any_draw : ℕ → ℕ → Rng → Rng × Bool
unfolding draw below
any_draw zero threshold rng = (rng, false)
any_draw (suc count) threshold rng =
    let (rng', h) = draw rng in
    let rest = any_draw count threshold rng' in if below h threshold then (rng', true) else rest

module _ (content : Content) where
  unfoldable pub set_product : Window → CellPos → MaterialId → Rng → Window × Rng
  unfolding transform Cell.new draw bits
  set_product w p material rng =
      let (rng', h) = draw rng in (transform content w p (Cell.new material (bits h 4)), rng')

  unfoldable pub oxygen_exposed_at : Window → CellPos → List (ℤ × ℤ) → Bool
  unfolding holds_at moved_by
  oxygen_exposed_at w p [] = false
  oxygen_exposed_at w p ((dx, dy) ∷ ds) =
      holds_at content w (moved_by p dx dy)
        (λ c. elim (content.phase c.material) [ empty_phase ↦ true | gas_phase ↦ true | _ ↦ false ])
      || oxygen_exposed_at w p ds

  unfoldable pub oxygen_exposed : Window → CellPos → Bool
  unfolding oxygen_exposed_at
  oxygen_exposed w p = oxygen_exposed_at w p neighbors

  unfoldable pub adjacent_water_at : Window → CellPos → List (ℤ × ℤ) → Option CellPos
  unfolding holds_at moved_by
  adjacent_water_at w p [] = none
  adjacent_water_at w p ((dx, dy) ∷ ds) =
      if holds_at content w (moved_by p dx dy) (λ c. c.material == content.water)
      then some (moved_by p dx dy)
      else adjacent_water_at w p ds

  unfoldable pub adjacent_water : Window → CellPos → Option CellPos
  unfolding adjacent_water_at
  adjacent_water w p = adjacent_water_at w p neighbors

  unfoldable pub hot_neighbors : Window → CellPos → List (ℤ × ℤ) → ℕ
  unfolding holds_at contains moved_by
  hot_neighbors w p [] = 0
  hot_neighbors w p ((dx, dy) ∷ ds) =
      (if holds_at content w (moved_by p dx dy) (λ c. contains (content.tags c.material) hot)
        then 1
        else 0)
      + hot_neighbors w p ds

  unfoldable pub burn_out : Window → CellPos → Burning → Rng → Window × Rng
  unfolding set_product draw below
  burn_out w p burning rng = elim burning.residue [
    | none ↦ set_product w p burning.burnout rng
    | some (threshold, material) ↦
        let (rng', h) = draw rng in
        set_product w p (if below h threshold then material else burning.burnout) rng'
  ]

  -- The four neighbours are never empty, so the choice does not panic.
  unfoldable pub emit : Window → CellPos → MaterialId → Rng → Window × Rng
  unfolding set_product holds_at draw choose Cell.is_air moved_by
  emit w p material rng =
      let (rng', h) = draw rng in
      elim (choose h neighbors) [
        | none ↦ (w, rng')
        | some (dx, dy) ↦
            if holds_at content w (moved_by p dx dy) Cell.is_air
            then set_product w (moved_by p dx dy) material rng'
            else (w, rng')
      ]

  -- The cell at the position, made of another material.
  unfoldable pub turn_into : Window → CellPos → MaterialId → Window
  unfolding get transform
  turn_into w p material = elim (get w p) [
    | none ↦ w
    | some c ↦ transform content w p (record c { material = material })
  ]

  -- The last draw of `burn`.
  unfoldable pub burn_down : Window → CellPos → Burning → ℕ → Rng → Outcome
  unfolding burn_out mark draw below
  burn_down w p burning threshold rng =
      let (rng', h) = draw rng in
      let (burnt, rng'') = burn_out w p burning rng' in
      if below h threshold then outcome burnt rng'' true else outcome (mark w p) rng' false

  unfoldable pub burn : Window → CellPos → Burning → Rng → Outcome
  unfolding adjacent_water set_product burn_out emit oxygen_exposed turn_into burn_down draw below
  burn w p burning rng = elim (adjacent_water w p) [
    | some water ↦ elim burning.kind [
      | flame ↦ let (w', rng') = set_product w p content.steam rng in outcome w' rng' true
      | fuel ↦
          let (w', rng') = burn_out w p burning rng in
          let (w'', rng'') = set_product w' water content.steam rng' in outcome w'' rng'' true
    ]
    | none ↦
        let (rng', h) = draw rng in
        let lit : Window × Rng =
          if below h burning.emit then emit w p content.fire rng' else (w, rng') in
        if oxygen_exposed lit.0 p
        then burn_down lit.0 p burning burning.burn lit.1
        else (elim burning.sealed [
          | becomes_material material ↦ outcome (turn_into lit.0 p material) lit.1 true
          | smoulder threshold ↦ burn_down lit.0 p burning threshold lit.1
        ])
  ]

  unfoldable pub ignite : Window → CellPos → Ignition → Rng → Outcome
  unfolding hot_neighbors oxygen_exposed any_draw turn_into mark
  ignite w p ignition rng =
      let hot_count = hot_neighbors w p neighbors in
      let threshold = if oxygen_exposed w p then ignition.open_air else ignition.sealed in
      let (rng', lit) = any_draw hot_count threshold rng in
      if (ignition.open_air == 0 && ignition.sealed == 0) || hot_count == 0 || threshold == 0
      then outcome w rng false
      else if lit
      then outcome (turn_into (mark w p) p ignition.into) rng' true
      else outcome (mark w p) rng' false

  -- The loop over the neighbours: the outcome where one reacts, and else the generator and whether a
  -- reaction is pending.
  unfoldable pub react_at :
      MatSpec → Window → CellPos → List (ℤ × ℤ) → Bool → Rng → Option Outcome × (Rng × Bool)
  unfolding get set_product draw below moved_by
  react_at spec w p [] pending rng = (none, (rng, pending))
  react_at spec w p ((dx, dy) ∷ ds) pending rng =
      let next = moved_by p dx dy in
      let skip = react_at spec w p ds pending rng in
      let (rng', h) = draw rng in
      let pass = react_at spec w p ds true rng' in
      elim (get w next) [
        | none ↦ skip
        | some c ↦
            let reaction = spec.reactions c.material in
            let (w1, r1) = set_product w p reaction.becomes rng' in
            let (w2, r2) = set_product w1 next reaction.other_becomes r1 in
            if reaction.threshold == 0
            then skip
            else if below h reaction.threshold
            then (some (outcome w2 r2 true), (r2, true))
            else pass
      ]

  -- What `react` does once no neighbour reacted.
  unfoldable pub decay_or_wait : MatSpec → Window → CellPos → Bool → Rng → Outcome
  unfolding set_product mark draw below
  decay_or_wait spec w p pending rng = elim spec.decay [
    | none ↦ outcome (if pending then mark w p else w) rng false
    | some (threshold, product) ↦
        let (rng', h) = draw rng in
        let (w', rng'') = set_product w p product rng' in
        if below h threshold then outcome w' rng'' true else outcome (mark w p) rng' false
  ]

  unfoldable pub react : MatSpec → Window → CellPos → Rng → Outcome
  unfolding react_at decay_or_wait
  react spec w p rng =
      let (reacted, rest) = react_at spec w p neighbors false rng in
      elim reacted [ some o ↦ o | none ↦ decay_or_wait spec w p rest.1 rest.0 ]

  -- The stages of `apply`, each tried where the ones before it did not act.
  unfoldable pub try_burn : MatSpec → Window → CellPos → Rng → Outcome
  unfolding burn
  try_burn spec w p rng = elim spec.burning [ none ↦ outcome w rng false | some b ↦ burn w p b rng ]

  unfoldable pub try_ignite : MatSpec → Window → CellPos → Rng → Outcome
  unfolding ignite
  try_ignite spec w p rng = elim spec.ignition [
    | none ↦ outcome w rng false
    | some i ↦ ignite w p i rng
  ]

  unfoldable pub apply : MatSpec → Window → CellPos → Rng → Outcome
  unfolding try_burn try_ignite react
  apply spec w p rng =
      let a = try_burn spec w p rng in
      let b = try_ignite spec a.window p a.rng in
      if a.acted
      then a
      else if b.acted
      then b
      else if spec.is_reactive
      then react spec b.window p b.rng
      else record b { acted = false }
