-- ===== src/Body/Island/Region.antt =====
-- What the search is about: the cells that bonds connect with the seed.
use fallingsand.Prelude.{
  ◌≤◌, ◌≡◌, ◌⊎◌, subst, inl, inr, arith, Bool, true, false, Bool-cases, Option, none, some, List,
  [], ◌∷◌, length, All,
}
use fallingsand.Prelude.Int.{ℤ}
use fallingsand.Prelude.Words.{sub_i32, le_i32}
use fallingsand.Coords.{CellPos}
use fallingsand.Cell.{MaterialId}
use fallingsand.Sim.Content.{Content}
use fallingsand.Sim.Motion.Speed.{moved_by}
use fallingsand.Sim.Motion.Move.{neighbors}
use fallingsand.Sim.World.{CellWorld}
use fallingsand.Body.Island.Defs.{
  same_cell, has, rigid_terrain, bonds, supported, max_body_extent, max_island_cells,
}

-- `q` is a neighbour of `p` in one of these directions.
abbrev pub Beside : List (ℤ × ℤ) → CellPos → CellPos → Type 0
Beside [] p q = ⊥
Beside ((dx, dy) ∷ ds) p q = (q ≡ moved_by p dx dy) ⊎ Beside ds p q

-- Each cell once.
abbrev pub AllOnce : List CellPos → Type 0
AllOnce [] = Unit
AllOnce (p ∷ ps) = (has ps p ≡ false) × AllOnce ps

module _ (content : Content) (is_hard : MaterialId → Bool) (world : CellWorld) where
  abbrev pub terrain_at : CellPos → Option MaterialId
  terrain_at p = elim (rigid_terrain content is_hard world p) [
    | none ↦ none
    | some c ↦ some c.material
  ]

  abbrev pub bonded_to : MaterialId → CellPos → Bool
  bonded_to m q = elim (rigid_terrain content is_hard world q) [
    | none ↦ false
    | some d ↦ bonds content is_hard world m d.material
  ]

module _ (content : Content) (is_hard : MaterialId → Bool) (world : CellWorld)
    (seed : CellPos) where
  -- Steps to a neighbour that bonds, from the seed.
  pub data Reach : CellPos → Type 0 where
    here : Reach seed
    step :
        {p q : CellPos} (m : MaterialId)
        → Reach p
        → terrain_at content is_hard world p ≡ some m
        → Beside neighbors p q
        → bonded_to content is_hard world m q ≡ true
        → Reach q

  -- For each direction, the neighbour there does not bond or is in the list.
  abbrev pub ClosedFor : List CellPos → CellPos → MaterialId → List (ℤ × ℤ) → Type 0
  ClosedFor vs p m [] = Unit
  ClosedFor vs p m ((dx, dy) ∷ ds) =
      ((bonded_to content is_hard world m (moved_by p dx dy) ≡ false)
        ⊎ (has vs (moved_by p dx dy) ≡ true))
      × ClosedFor vs p m ds

  -- The cell is terrain that nothing supports, and all that bonds with it is in the list.
  abbrev pub IsDone : List CellPos → CellPos → Type 0
  IsDone vs p =
      (m : MaterialId) × (terrain_at content is_hard world p ≡ some m)
      × (supported content is_hard world p m ≡ false)
      × ClosedFor vs p m neighbors

  -- A reached cell that is supported.
  abbrev pub SomeSupported : Type 0
  SomeSupported =
      (p : CellPos) × (m : MaterialId) × Reach p
      × (terrain_at content is_hard world p ≡ some m)
      × (supported content is_hard world p m ≡ true)

  -- Two reached cells that are too far apart, or too many of them.
  abbrev pub IsLarge : Type 0
  IsLarge =
      ((p : CellPos) × (q : CellPos) × Reach p
        × Reach q
        × ((le_i32 max_body_extent (sub_i32 q.x p.x) ≡ true)
            ⊎ (le_i32 max_body_extent (sub_i32 q.y p.y) ≡ true)))
      ⊎ ((ps : List CellPos) × All Reach ps × AllOnce ps × (max_island_cells ≤ length ps))

pub same_cell_eq : (p q : CellPos) → same_cell p q ≡ true → p ≡ q
same_cell_eq p q h = ground arith

pub same_cell_refl : (p : CellPos) → same_cell p p ≡ true
same_cell_refl p = ground arith

pub has-cons :
    (v : CellPos) (vs : List CellPos) (p : CellPos) → has vs p ≡ true → has (v ∷ vs) p ≡ true
unfolding has
has-cons v vs p h = ground (arith, h)

pub has_self : (v : CellPos) (vs : List CellPos) → has (v ∷ vs) v ≡ true
unfolding has
has_self v vs = ground (arith, same_cell_refl v)

pub has_cases :
    (v : CellPos) (vs : List CellPos) (p : CellPos)
    → has (v ∷ vs) p ≡ true
    → (v ≡ p) ⊎ (has vs p ≡ true)
unfolding has
has_cases v vs p h = elim (Bool-cases (same_cell v p)) [
  | inl e ↦ inl (same_cell_eq v p e)
  | inr e ↦ inr (ground (arith, h, e))
]

pub All-has :
    (P : CellPos → Type 0) (vs : List CellPos) (p : CellPos) → All P vs → has vs p ≡ true → P p
unfolding has
All-has P [] p h e = absurd (cc e)
All-has P (v ∷ vs) p h e = elim (has_cases v vs p e) [
  | inl s ↦ subst P s h.0
  | inr s ↦ All-has P vs p h.1 s
]
