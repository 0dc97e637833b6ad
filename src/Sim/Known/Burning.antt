-- ===== src/Sim/Known/Burning.antt =====
-- Which materials burning and ignition leave in a window
-- (crates/fallingsand_sim/src/chemistry.rs).
use fallingsand.Prelude.{
  ℕ, ◌≡◌, inl, inr, Bool, true, false, ◌==◌, if◌then◌else◌, Option, none, some, Option-cases,
}
use fallingsand.Coords.{CellPos}
use fallingsand.Cell.{Cell, MaterialId}
use fallingsand.Cell as Cell
use fallingsand.Material.{
  Ignition, Burning, SealedBurn, BurningKind, becomes_material, smoulder, flame, fuel,
}
use fallingsand.Math.{Rng, draw, below, bits, choose}
use fallingsand.Sim.Content.{Content, MatSpec}
use fallingsand.Sim.Window.{Window, get, mark}
use fallingsand.Sim.Liquid.{holds_at}
use fallingsand.Sim.Motion.Speed.{moved_by}
use fallingsand.Sim.Motion.Move.{neighbors}
use fallingsand.Sim.Chemistry.{
  Outcome, outcome, set_product, oxygen_exposed, adjacent_water, burn_out, emit, turn_into,
  burn_down, burn, ignite,
}
use fallingsand.Sim.Known.{AllSeen, transform-AllSeen, mark-AllSeen}

-- A property of what is there.
abbrev pub Holds {ℓ} : {A : Type ℓ} → (A → Type 0) → Option A → Type 0
Holds P none = Unit
Holds P (some a) = P a

module _ (content : Content) (K : MaterialId → Type 0) where
  abbrev pub SealedKnown : SealedBurn → Type 0
  SealedKnown (becomes_material m) = K m
  SealedKnown (smoulder threshold) = Unit

  abbrev pub BurningKnown : Burning → Type 0
  BurningKnown b =
      K b.burnout × Holds (λ (r : ℕ × MaterialId). K r.1) b.residue × SealedKnown b.sealed

  -- All that the chemistry makes of a material is known.
  pub record ProductsKnown (spec : MatSpec) : Type 0 where
    pub burning : Holds BurningKnown spec.burning
    pub ignition : Holds (λ (i : Ignition). K i.into) spec.ignition
    pub decay : Holds (λ (d : ℕ × MaterialId). K d.1) spec.decay
    pub reactions :
        (m : MaterialId)
        → ((spec.reactions m).threshold == 0) ≡ false
        → K (spec.reactions m).becomes × K (spec.reactions m).other_becomes

  abbrev All : Window → Type 0
  All = AllSeen K

  pub either : (b : Bool) (u v : Window) → All u → All v → All (if b then u else v)
  either true u v h k = h
  either false u v h k = k

  pub either_outcome :
      (b : Bool) (o o' : Outcome) → All o.window → All o'.window → All (if b then o else o').window
  either_outcome true o o' h k = h
  either_outcome false o o' h k = k

  either_first : (b : Bool) (s t : Window × Rng) → All s.0 → All t.0 → All (if b then s else t).0
  either_first true s t h k = h
  either_first false s t h k = k

  pub product-AllSeen :
      (w : Window) (p : CellPos) (m : MaterialId) (rng : Rng)
      → K m
      → All w
      → All (set_product content w p m rng).0
  unfolding set_product Cell.new
  product-AllSeen w p m rng km k =
      transform-AllSeen K content w p (Cell.new m (bits (draw rng).1 4)) km k

  burn_out-AllSeen :
      (w : Window) (p : CellPos) (b : Burning) (rng : Rng)
      → BurningKnown b
      → All w
      → All (burn_out content w p b rng).0
  unfolding burn_out
  burn_out-AllSeen w p b rng (kb, kr, ks) k = by_residue b.residue kr
    where
      chosen : (t : Bool) (m : MaterialId) → K m → K (if t then m else b.burnout)
      chosen true m km = km
      chosen false m km = kb

      by_residue :
          (o : Option (ℕ × MaterialId))
          → Holds (λ (r : ℕ × MaterialId). K r.1) o
          → All
              (elim o as (λ _. Window × Rng) [
                | none ↦ set_product content w p b.burnout rng
                | some (threshold, material) ↦
                    let (rng', h) = draw rng in
                    set_product content w p (if below h threshold then material else b.burnout) rng'
              ]).0
      by_residue none h = product-AllSeen w p b.burnout rng kb k
      by_residue (some (t, m)) h =
          product-AllSeen w p (if below (draw rng).1 t then m else b.burnout) (draw rng).0
            (chosen (below (draw rng).1 t) m h) k

  emit-AllSeen :
      (w : Window) (p : CellPos) (m : MaterialId) (rng : Rng)
      → K m
      → All w
      → All (emit content w p m rng).0
  unfolding emit
  emit-AllSeen w p m rng km k = elim (Option-cases (choose (draw rng).1 neighbors)) [
    | inl e ↦ rw (emit, e) k
    | inr ((dx, dy), e) ↦
        rw (emit, e)
          (either_first (holds_at content w (moved_by p dx dy) Cell.is_air)
            (set_product content w (moved_by p dx dy) m (draw rng).0) (w, (draw rng).0)
            (product-AllSeen w (moved_by p dx dy) m (draw rng).0 km k) k)
  ]

  turn_into-AllSeen :
      (w : Window) (p : CellPos) (m : MaterialId) → K m → All w → All (turn_into content w p m)
  unfolding turn_into
  turn_into-AllSeen w p m km k = elim (Option-cases (get w p)) [
    | inl e ↦ rw (turn_into, e) k
    | inr (c, e) ↦
        rw (turn_into, e) (transform-AllSeen K content w p (record c { material = m }) km k)
  ]

  burn_down-AllSeen :
      (w : Window) (p : CellPos) (b : Burning) (t : ℕ) (rng : Rng)
      → BurningKnown b
      → All w
      → All (burn_down content w p b t rng).window
  unfolding burn_down
  burn_down-AllSeen w p b t rng kb k =
      let burnt = burn_out content w p b (draw rng).0 in
      either_outcome (below (draw rng).1 t) (outcome burnt.0 burnt.1 true)
        (outcome (mark w p) (draw rng).0 false) (burn_out-AllSeen w p b (draw rng).0 kb k)
        (mark-AllSeen K w p k)

  pub burn-AllSeen :
      (w : Window) (p : CellPos) (b : Burning) (rng : Rng)
      → K content.steam
      → K content.fire
      → BurningKnown b
      → All w
      → All (burn content w p b rng).window
  unfolding burn
  burn-AllSeen w p b rng steam fire kb k = elim (Option-cases (adjacent_water content w p)) [
    | inr (water, e) ↦ rw (burn, e) (quenched b.kind water)
    | inl e ↦
        let dry = (draw rng).0 in
        let lit : Window × Rng =
          if below (draw rng).1 b.emit then emit content w p content.fire dry else (w, dry) in
        let lit_known : All lit.0 =
          either_first (below (draw rng).1 b.emit) (emit content w p content.fire dry) (w, dry)
            (emit-AllSeen w p content.fire dry fire k) k in
        rw (burn, e)
          (either_outcome (oxygen_exposed content lit.0 p)
            (burn_down content lit.0 p b b.burn lit.1)
            (elim b.sealed [
              | becomes_material material ↦ outcome (turn_into content lit.0 p material) lit.1 true
              | smoulder threshold ↦ burn_down content lit.0 p b threshold lit.1
            ])
            (burn_down-AllSeen lit.0 p b b.burn lit.1 kb lit_known)
            (closed_in b.sealed kb.2 lit lit_known))
  ]
    where
      quenched :
          (kind : BurningKind) (water : CellPos)
          → All
              (elim kind as (λ _. Outcome) [
                | flame ↦
                    let (w', rng') = set_product content w p content.steam rng in
                    outcome w' rng' true
                | fuel ↦
                    let (w', rng') = burn_out content w p b rng in
                    let (w'', rng'') = set_product content w' water content.steam rng' in
                    outcome w'' rng'' true
              ]).window
      quenched flame water = product-AllSeen w p content.steam rng steam k
      quenched fuel water =
          let burnt = burn_out content w p b rng in
          product-AllSeen burnt.0 water content.steam burnt.1 steam
            (burn_out-AllSeen w p b rng kb k)

      closed_in :
          (sealed : SealedBurn)
          → SealedKnown sealed
          → (lit : Window × Rng) → All lit.0
          → All
              (elim sealed as (λ _. Outcome) [
                | becomes_material material ↦
                    outcome (turn_into content lit.0 p material) lit.1 true
                | smoulder threshold ↦ burn_down content lit.0 p b threshold lit.1
              ]).window
      closed_in (becomes_material m) km lit h = turn_into-AllSeen lit.0 p m km h
      closed_in (smoulder t) km lit h = burn_down-AllSeen lit.0 p b t lit.1 kb h

  pub ignite-AllSeen :
      (w : Window) (p : CellPos) (i : Ignition) (rng : Rng)
      → K i.into
      → All w
      → All (ignite content w p i rng).window
  unfolding ignite
  ignite-AllSeen w p i rng ki k =
      let marked = mark-AllSeen K w p k in
      let inner : (b : Bool) (r : Rng)
          → All
              (if b
                then outcome (turn_into content (mark w p) p i.into) r true
                else outcome (mark w p) r false).window =
        λ b r.
          either_outcome b (outcome (turn_into content (mark w p) p i.into) r true)
            (outcome (mark w p) r false) (turn_into-AllSeen (mark w p) p i.into ki marked) marked in
      let outer : (c b : Bool) (r : Rng)
          → All
              (if c
                then outcome w rng false
                else if b
                then outcome (turn_into content (mark w p) p i.into) r true
                else outcome (mark w p) r false).window =
        λ c b r. either_outcome c (outcome w rng false) _ k (inner b r) in
      search outer
