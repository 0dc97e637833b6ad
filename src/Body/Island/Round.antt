-- ===== src/Body/Island/Round.antt =====
-- One round of the search: the neighbours of a cell.
use fallingsand.Prelude.{
  ℕ, ◌+◌, ◌≤◌, ◌≡◌, ◌⊎◌, refl, sym, ◌∙◌, inl, inr, Bool, true, Bool-cases, some, List, [], ◌∷◌,
  ◌++◌, length, All,
}
use fallingsand.Prelude.Int.{ℤ}
use fallingsand.Prelude.Words.{sub_i32, le_i32}
use fallingsand.Coords.{CellPos}
use fallingsand.Cell.{MaterialId}
use fallingsand.Sim.Content.{Content}
use fallingsand.Sim.Motion.Speed.{moved_by}
use fallingsand.Sim.Motion.Move.{neighbors}
use fallingsand.Sim.World.{CellWorld}
use fallingsand.Body.Island.Defs.{
  has, Walk, Stage, going, halted, lower, higher, max_body_extent, max_island_cells,
}
use fallingsand.Body.Island.Region.{AllOnce, terrain_at, Reach, ClosedFor, IsDone, IsLarge}

-- The cell waits in the queue.
abbrev pub Waits : List (CellPos × MaterialId) → CellPos → Type 0
Waits [] q = ⊥
Waits ((p, m) ∷ ps) q = (p ≡ q) ⊎ Waits ps q

pub Waits-before :
    (ps rs : List (CellPos × MaterialId)) (q : CellPos) → Waits ps q → Waits (ps ++ rs) q
Waits-before [] rs q h = absurd h
Waits-before ((p, m) ∷ ps) rs q (inl h) = inl h
Waits-before ((p, m) ∷ ps) rs q (inr h) = inr (Waits-before ps rs q h)

pub Waits-last :
    (ps : List (CellPos × MaterialId)) (q : CellPos) (m : MaterialId) → Waits (ps ++ (q, m) ∷ []) q
Waits-last [] q m = inl refl
Waits-last ((p, k) ∷ ps) q m = inr (Waits-last ps q m)

one_of_lower : (a b : ℕ) → (lower a b ≡ a) ⊎ (lower a b ≡ b)
one_of_lower a b = elim (Bool-cases (le_i32 a b)) [
  | inl e ↦ inl (rw e refl)
  | inr e ↦ inr (rw e refl)
]

one_of_higher : (a b : ℕ) → (higher a b ≡ a) ⊎ (higher a b ≡ b)
one_of_higher a b = elim (Bool-cases (le_i32 a b)) [
  | inl e ↦ inr (rw e refl)
  | inr e ↦ inl (rw e refl)
]

-- The list of visited cells has only grown.
abbrev pub Grows : List CellPos → List CellPos → Type 0
Grows vs ws = (q : CellPos) → has vs q ≡ true → has ws q ≡ true

module _ (content : Content) (is_hard : MaterialId → Bool) (world : CellWorld)
    (seed : CellPos) where
  abbrev pub R : CellPos → Type 0
  R = Reach content is_hard world seed

  -- Some reached cell has this coordinate.
  abbrev pub AtX : ℕ → Type 0
  AtX v = (p : CellPos) × R p × (p.x ≡ v)

  abbrev pub AtY : ℕ → Type 0
  AtY v = (p : CellPos) × R p × (p.y ≡ v)

  abbrev pub IsEntry : CellPos × MaterialId → Type 0
  IsEntry e = R e.0 × (terrain_at content is_hard world e.0 ≡ some e.1)

  -- What holds of the walk throughout.
  abbrev pub Sound : Walk → Type 0
  Sound w =
      All R w.visited
      × AllOnce w.visited
      × All IsEntry w.queue
      × (AtX w.min_x × AtX w.max_x × AtY w.min_y × AtY w.max_y)
      × (length w.visited ≤ max_island_cells)

  -- Every visited cell but those of `P` waits or is done.
  abbrev pub Covered : (CellPos → Type 0) → Walk → Type 0
  Covered P w =
      (q : CellPos)
      → has w.visited q ≡ true
      → P q ⊎ Waits w.queue q ⊎ IsDone content is_hard world seed w.visited q

  -- From one state of the walk to a later one, `p` in hand.
  abbrev pub Kept : CellPos → Walk → Walk → Type 0
  Kept p w w' =
      Sound w'
      × Covered (λ q. p ≡ q) w'
      × Grows w.visited w'.visited
      × (length w'.visited + length w.queue ≡ length w.visited + length w'.queue)

  pub ClosedFor-Grows :
      (vs ws : List CellPos) (p : CellPos) (m : MaterialId) (ds : List (ℤ × ℤ))
      → Grows vs ws
      → ClosedFor content is_hard world seed vs p m ds
      → ClosedFor content is_hard world seed ws p m ds
  ClosedFor-Grows vs ws p m [] g h = tt
  ClosedFor-Grows vs ws p m ((dx, dy) ∷ ds) g (inl h, hs) =
      (inl h, ClosedFor-Grows vs ws p m ds g hs)
  ClosedFor-Grows vs ws p m ((dx, dy) ∷ ds) g (inr h, hs) =
      (inr (g (moved_by p dx dy) h), ClosedFor-Grows vs ws p m ds g hs)

  pub IsDone-Grows :
      (vs ws : List CellPos) (q : CellPos)
      → Grows vs ws
      → IsDone content is_hard world seed vs q
      → IsDone content is_hard world seed ws q
  IsDone-Grows vs ws q g (m, t, s, c) = (m, t, s, ClosedFor-Grows vs ws q m neighbors g c)

  pub widened_x : (low : ℕ) (next : CellPos) → R next → AtX low → AtX (lower low next.x)
  widened_x low next r (p, h, e) = elim (one_of_lower low next.x) [
    | inl s ↦ (p, h, e ∙ sym s)
    | inr s ↦ (next, r, sym s)
  ]

  pub raised_x : (high : ℕ) (next : CellPos) → R next → AtX high → AtX (higher high next.x)
  raised_x high next r (p, h, e) = elim (one_of_higher high next.x) [
    | inl s ↦ (p, h, e ∙ sym s)
    | inr s ↦ (next, r, sym s)
  ]

  pub widened_y : (low : ℕ) (next : CellPos) → R next → AtY low → AtY (lower low next.y)
  widened_y low next r (p, h, e) = elim (one_of_lower low next.y) [
    | inl s ↦ (p, h, e ∙ sym s)
    | inr s ↦ (next, r, sym s)
  ]

  pub raised_y : (high : ℕ) (next : CellPos) → R next → AtY high → AtY (higher high next.y)
  raised_y high next r (p, h, e) = elim (one_of_higher high next.y) [
    | inl s ↦ (p, h, e ∙ sym s)
    | inr s ↦ (next, r, sym s)
  ]

  -- After a neighbour: the search is over since the region is large, or it is kept, with what `Q` says.
  abbrev pub After : CellPos → Walk → (Walk → Type 0) → Stage → Type 0
  After p w Q (halted vs) = IsLarge content is_hard world seed
  After p w Q (going w') = Kept p w w' × Q w'

  pub large_x :
      (a b : ℕ)
      → AtX a
      → AtX b
      → le_i32 max_body_extent (sub_i32 b a) ≡ true
      → IsLarge content is_hard world seed
  large_x a b (p, r, e) (q, s, f) h = inl (p, q, r, s, inl (rw (e, f) h))

  pub large_y :
      (a b : ℕ)
      → AtY a
      → AtY b
      → le_i32 max_body_extent (sub_i32 b a) ≡ true
      → IsLarge content is_hard world seed
  large_y a b (p, r, e) (q, s, f) h = inl (p, q, r, s, inr (rw (e, f) h))
