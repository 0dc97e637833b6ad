-- ===== src/Body/Island/Decides.antt =====
-- The search ends, and its result says what the region of the seed is.
use fallingsand.Prelude.{
  ℕ, zero, suc, ◌+◌, ◌≤◌, ◌<◌, ◌≡◌, ◌⊎◌, ◌↔◌, refl, sym, ap, ◌∙◌, subst, inl, inr, arith, Bool,
  true, false, Bool-cases, Option, none, some, Option-cases, List, [], ◌∷◌, length, All,
}
use fallingsand.Prelude.Int.{ℤ}
use fallingsand.Coords.{CellPos}
use fallingsand.Cell.{MaterialId}
use fallingsand.Sim.Content.{Content}
use fallingsand.Sim.Motion.Move.{neighbors}
use fallingsand.Sim.World.{CellWorld}
use fallingsand.Body.Island.Defs.{
  has, Walk, Search, unfinished, supported_at, detached, rigid_terrain, supported, max_island_cells,
  look_around, walk, sort_cells, detect_detached_island, extend,
}
use fallingsand.Body.Island.Region.{
  Beside, terrain_at, bonded_to, Reach, here, step, ClosedFor, IsDone, IsLarge, SomeSupported,
  has_self, has_cases, All-has,
}
use fallingsand.Body.Island.Sorted.{
  has-sort_cells, length-sort_cells, IsSorted, sort_cells-IsSorted,
}
use fallingsand.Body.Island.Round.{Waits, Sound, Covered, Kept, After, IsEntry}
use fallingsand.Body.Island.Found.{look_around-Kept, Stage-cases}

Search-cases :
    (s : Search)
    → (s ≡ unfinished)
      ⊎ ((vs : List CellPos) × (s ≡ supported_at vs))
      ⊎ ((vs : List CellPos) × (s ≡ detached vs))
Search-cases unfinished = inl refl
Search-cases (supported_at vs) = inr (inl (vs, refl))
Search-cases (detached vs) = inr (inr (vs, refl))

none_in : (q : CellPos) → has [] q ≡ true → ⊥
unfolding has
none_in q h = cc h

List-cases : {A : Type 0} (xs : List A) → (xs ≡ []) ⊎ ((x : A) × (ys : List A) × (xs ≡ x ∷ ys))
List-cases [] = inl refl
List-cases (x ∷ xs) = inr (x, xs, refl)

module _ (content : Content) (is_hard : MaterialId → Bool) (world : CellWorld)
    (seed : CellPos) where
  -- What the loop finds.
  abbrev Decided : Search → Type 0
  Decided unfinished = ⊥
  Decided (supported_at vs) =
      SomeSupported content is_hard world seed ⊎ IsLarge content is_hard world seed
  Decided (detached vs) =
      All (Reach content is_hard world seed) vs
      × ((q : CellPos) → has vs q ≡ true → IsDone content is_hard world seed vs q)
      × (has vs seed ≡ true)
      × (length vs ≤ max_island_cells)

  popped-Covered :
      (p : CellPos) (m : MaterialId) (queue : List (CellPos × MaterialId)) (w : Walk)
      → w.queue ≡ (p, m) ∷ queue
      → Covered content is_hard world seed (λ q. ⊥) w
      → Covered content is_hard world seed (λ q. p ≡ q) (record w { queue = queue })
  popped-Covered p m queue w e cov q h = elim (cov q h) [
    | inl x ↦ absurd x
    | inr (inr d) ↦ inr (inr d)
    | inr (inl k) ↦ elim (subst (λ (t : List (CellPos × MaterialId)). Waits t q) e k) [
      | inl s ↦ inl s
      | inr s ↦ inr (inl s)
    ]
  ]

  done-Covered :
      (p : CellPos) (m : MaterialId) (w : Walk)
      → Covered content is_hard world seed (λ q. p ≡ q) w
      → IsDone content is_hard world seed w.visited p
      → Covered content is_hard world seed (λ q. ⊥) w
  done-Covered p m w cov done q h = elim (cov q h) [
    | inl e ↦ inr (inr (subst (IsDone content is_hard world seed w.visited) e done))
    | inr k ↦ inr k
  ]

  -- Enough fuel: 2048 rounds, and one for each cell that waits beyond those visited.
  walk-Decided :
      (fuel : ℕ) (w : Walk)
      → Sound content is_hard world seed w
      → Covered content is_hard world seed (λ q. ⊥) w
      → has w.visited seed ≡ true
      → length w.queue + max_island_cells < fuel + length w.visited
      → Decided (walk content is_hard world fuel w)
  unfolding walk
  walk-Decided zero w sound cov start enough = absurd (omega (arith, enough, sound.4))
  walk-Decided (suc fuel) w sound cov start enough = elim (List-cases w.queue) [
    | inl e ↦
        rw (walk, e)
          (
            sound.0,
            (λ q h. elim (cov q h) [
              | inl x ↦ absurd x
              | inr (inr d) ↦ d
              | inr (inl k) ↦ absurd (subst (λ (t : List (CellPos × MaterialId)). Waits t q) e k)
            ]),
            start,
            sound.4,
          )
    | inr ((p, m), queue, e) ↦
        let popped : Walk = record w { queue = queue } in
        let entries : All (IsEntry content is_hard world seed) ((p, m) ∷ queue) =
          subst (All (IsEntry content is_hard world seed)) e sound.2 in
        let whole : Sound content is_hard world seed popped =
          (sound.0, sound.1, entries.1, sound.3, sound.4) in
        let closes = λ (v : Walk). ClosedFor content is_hard world seed v.visited p m neighbors in
        let around =
          look_around-Kept content is_hard world seed p m neighbors popped whole
            (popped-Covered p m queue w e cov) entries.0.0 entries.0.1 (λ q h. h) in
        elim (Bool-cases (supported content is_hard world p m)) [
          | inl s ↦ rw (walk, e, s) (inl (p, m, entries.0.0, entries.0.1, s))
          | inr s ↦ elim (Stage-cases (look_around content is_hard world p m neighbors popped)) [
            | inl (vs, f) ↦
                rw (walk, e, s, f)
                  (inr (subst (After content is_hard world seed p popped closes) f around))
            | inr (w', f) ↦
                let (kept, closed) : Kept content is_hard world seed p popped w' × closes w' =
                  subst (After content is_hard world seed p popped closes) f around in
                let done : IsDone content is_hard world seed w'.visited p =
                  (m, entries.0.1, s, closed) in
                rw (walk, e, s, f)
                  (walk-Decided fuel w' kept.0 (done-Covered p m w' kept.1 done) (kept.2 seed start)
                    (omega (arith, enough, kept.3, ap length e)))
          ]
        ]
  ]

  some_cancel : (a b : MaterialId) → some a ≡ some b → a ≡ b
  some_cancel a b h = ap (λ o. elim o [ none ↦ a | some x ↦ x ]) h

  closed-Beside :
      (vs : List CellPos) (p q : CellPos) (m : MaterialId) (ds : List (ℤ × ℤ))
      → ClosedFor content is_hard world seed vs p m ds
      → Beside ds p q
      → bonded_to content is_hard world m q ≡ true
      → has vs q ≡ true
  closed-Beside vs p q m [] c b h = absurd b
  closed-Beside vs p q m ((dx, dy) ∷ ds) (inl c, cs) (inl b) h =
      absurd (cc (ap (bonded_to content is_hard world m) b, c, h))
  closed-Beside vs p q m ((dx, dy) ∷ ds) (inr c, cs) (inl b) h = ap (has vs) b ∙ c
  closed-Beside vs p q m ((dx, dy) ∷ ds) (c, cs) (inr b) h = closed-Beside vs p q m ds cs b h

  -- A list that has the seed and is closed has all that is reached.
  reached_in :
      (vs : List CellPos) (q : CellPos)
      → ((p : CellPos) → has vs p ≡ true → IsDone content is_hard world seed vs p)
      → has vs seed ≡ true
      → Reach content is_hard world seed q
      → has vs q ≡ true
  reached_in vs q done start here = start
  reached_in vs q done start (step {p = p} m r t beside bonded) =
      let (m', t', unsupported, closed) = done p (reached_in vs p done start r) in
      closed-Beside vs p q m' neighbors closed beside
        (ap (λ k. bonded_to content is_hard world k q) (some_cancel m' m (sym t' ∙ t)) ∙ bonded)

  -- Terrain that nothing supports.
  abbrev pub IsLoose : CellPos → Type 0
  IsLoose q =
      (m : MaterialId) × (terrain_at content is_hard world q ≡ some m)
      × (supported content is_hard world q m ≡ false)

  -- The cells of the seed's region, all of them loose, in order.
  abbrev pub IsIsland : List CellPos → Type 0
  IsIsland island =
      ((q : CellPos) → (has island q ≡ true) ↔ Reach content is_hard world seed q)
      × ((q : CellPos) → has island q ≡ true → IsLoose q)
      × IsSorted island
      × (length island ≤ max_island_cells)

  -- What a result says of the region.
  abbrev pub Explains : Option (List CellPos) → Type 0
  Explains none =
      (terrain_at content is_hard world seed ≡ none)
      ⊎ SomeSupported content is_hard world seed
      ⊎ IsLarge content is_hard world seed
  Explains (some island) = IsIsland island

  sort_cells-IsIsland : (vs : List CellPos) → Decided (detached vs) → IsIsland (sort_cells vs)
  sort_cells-IsIsland vs (reached, done, start, few) = (
    (λ q. (
      (λ h.
          All-has (Reach content is_hard world seed) vs q reached (sym (has-sort_cells vs q) ∙ h)),
      (λ r. has-sort_cells vs q ∙ reached_in vs q done start r),
    )),
    (λ q h. let (m, t, s, c) = done q (sym (has-sort_cells vs q) ∙ h) in (m, t, s)),
    sort_cells-IsSorted vs,
    omega (arith, length-sort_cells vs, few),
  )

  -- The search ends, whatever the world. It returns an island only if that is all of the region of the
  -- seed, which bonds connect, at most 2048 cells and none of them supported, and it returns none only if
  -- the seed is no terrain, some cell of the region is supported, or the region is too wide, too high or
  -- too large.
  pub detect_detached_island-Explains :
      (scanned : List CellPos)
      → (island : Option (List CellPos)) × (seen : List CellPos) × (detect_detached_island content
            is_hard world seed scanned
          ≡ some (island, seen))
        × Explains island
  unfolding detect_detached_island
  detect_detached_island-Explains scanned =
      elim (Option-cases (rigid_terrain content is_hard world seed)) [
        | inl e ↦
            (none, scanned, rw (detect_detached_island, e) refl, inl (rw (terrain_at, e) refl))
        | inr (cell, e) ↦
            let there : terrain_at content is_hard world seed ≡ some cell.material =
              rw (terrain_at, e) refl in
            let start : Walk = record {
              visited = seed ∷ [];
              queue = (seed, cell.material) ∷ [];
              min_x = seed.x;
              max_x = seed.x;
              min_y = seed.y;
              max_y = seed.y;
            } in
            let sound : Sound content is_hard world seed start = (
              (here, tt),
              (refl, tt),
              ((here, there), tt),
              ((seed, here, refl), (seed, here, refl), (seed, here, refl), (seed, here, refl)),
              omega arith,
            ) in
            let cov : Covered content is_hard world seed (λ q. ⊥) start = λ q h. inr (
              inl
                (elim (has_cases seed [] q h) [ inl s ↦ inl s | inr s ↦ absurd (none_in q s) ])) in
            let found = walk-Decided 2_049 start sound cov (has_self seed []) (omega arith) in
            elim (Search-cases (walk content is_hard world 2_049 start)) [
              | inl f ↦ absurd (subst Decided f found)
              | inr (inl (vs, f)) ↦ (
                none,
                extend scanned vs,
                rw (detect_detached_island, e, f) refl,
                inr (subst Decided f found),
              )
              | inr (inr (vs, f)) ↦ (
                some (sort_cells vs),
                extend scanned vs,
                rw (detect_detached_island, e, f) refl,
                sort_cells-IsIsland vs (subst Decided f found),
              )
            ]
      ]
