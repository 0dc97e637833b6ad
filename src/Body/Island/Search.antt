-- ===== src/Body/Island/Search.antt =====
-- The rounds of the search keep what holds of the walk.
use fallingsand.Prelude.{
  ◌<◌, ◌≡◌, subst, inl, inr, arith, leb, leb→le, leb→lt, Bool, true, false, Bool-cases, some, [],
  ◌∷◌, ◌++◌, length, length-append, All-append,
}
use fallingsand.Prelude.Words.{sub_i32, le_i32}
use fallingsand.Coords.{CellPos}
use fallingsand.Cell.{MaterialId}
use fallingsand.Sim.Content.{Content}
use fallingsand.Sim.World.{CellWorld}
use fallingsand.Body.Island.Defs.{
  has, Walk, lower, higher, max_body_extent, max_island_cells, push_cell,
}
use fallingsand.Body.Island.Region.{terrain_at, Reach, has-cons, has_self, has_cases}
use fallingsand.Body.Island.Round.{
  Waits, Waits-before, Waits-last, Sound, Covered, Kept, After, IsDone-Grows, widened_x, widened_y,
  raised_x, raised_y, large_x, large_y, IsEntry,
}

module _ (content : Content) (is_hard : MaterialId → Bool) (world : CellWorld)
    (seed : CellPos) where
  pushed : Walk → CellPos → MaterialId → Walk
  pushed w next m = record {
    visited = next ∷ w.visited;
    queue = w.queue ++ (next, m) ∷ [];
    min_x = lower w.min_x next.x;
    max_x = higher w.max_x next.x;
    min_y = lower w.min_y next.y;
    max_y = higher w.max_y next.y;
  }

  pushed-Covered :
      (p : CellPos) (w : Walk) (next : CellPos) (m : MaterialId)
      → Covered content is_hard world seed (λ q. p ≡ q) w
      → Covered content is_hard world seed (λ q. p ≡ q) (pushed w next m)
  unfolding pushed
  pushed-Covered p w next m cov q h = elim (has_cases next w.visited q h) [
    | inl e ↦ inr (inl (subst (Waits (w.queue ++ (next, m) ∷ [])) e (Waits-last w.queue next m)))
    | inr e ↦ elim (cov q e) [
      | inl s ↦ inl s
      | inr (inl s) ↦ inr (inl (Waits-before w.queue ((next, m) ∷ []) q s))
      | inr (inr s) ↦ inr (
          inr (
            IsDone-Grows content is_hard world seed w.visited (next ∷ w.visited) q
              (λ v k. has-cons next w.visited v k) s))
    ]
  ]

  pushed-Kept :
      (p : CellPos) (w : Walk) (next : CellPos) (m : MaterialId)
      → Sound content is_hard world seed w
      → Covered content is_hard world seed (λ q. p ≡ q) w
      → has w.visited next ≡ false
      → Reach content is_hard world seed next
      → terrain_at content is_hard world next ≡ some m
      → length w.visited < max_island_cells
      → Kept content is_hard world seed p w (pushed w next m)
  unfolding pushed
  pushed-Kept p w next m (reached, once, entries, (ax, bx, ay, by), few) cov new r t room = (
    (
      (r, reached),
      (new, once),
      All-append (IsEntry content is_hard world seed) w.queue ((next, m) ∷ []) entries ((r, t), tt),
      (
        widened_x content is_hard world seed w.min_x next r ax,
        raised_x content is_hard world seed w.max_x next r bx,
        widened_y content is_hard world seed w.min_y next r ay,
        raised_y content is_hard world seed w.max_y next r by,
      ),
      omega (arith, room),
    ),
    pushed-Covered p w next m cov,
    λ v k. has-cons next w.visited v k,
    omega (arith, length-append w.queue ((next, m) ∷ [])),
  )

  pub push_cell-Kept :
      (p : CellPos) (w : Walk) (next : CellPos) (m : MaterialId)
      → Sound content is_hard world seed w
      → Covered content is_hard world seed (λ q. p ≡ q) w
      → has w.visited next ≡ false
      → Reach content is_hard world seed next
      → terrain_at content is_hard world next ≡ some m
      → After content is_hard world seed p w
          (λ w'. has w'.visited next ≡ true)
          (push_cell content is_hard world w next m)
  unfolding push_cell pushed
  push_cell-Kept p w next m sound cov new r t =
      let (ax, bx, ay, by) = sound.3 in
      let x = le_i32 max_body_extent (sub_i32 (higher w.max_x next.x) (lower w.min_x next.x)) in
      let y = le_i32 max_body_extent (sub_i32 (higher w.max_y next.y) (lower w.min_y next.y)) in
      elim (Bool-cases x) [
        | inl e ↦
            rw (push_cell, e)
              (large_x content is_hard world seed (lower w.min_x next.x) (higher w.max_x next.x)
                (widened_x content is_hard world seed w.min_x next r ax)
                (raised_x content is_hard world seed w.max_x next r bx) e)
        | inr e ↦ elim (Bool-cases y) [
          | inl f ↦
              rw (push_cell, e, f)
                (large_y content is_hard world seed (lower w.min_y next.y) (higher w.max_y next.y)
                  (widened_y content is_hard world seed w.min_y next r ay)
                  (raised_y content is_hard world seed w.max_y next r by) f)
          | inr f ↦ elim (Bool-cases (leb max_island_cells (length w.visited))) [
            | inl g ↦
                rw (push_cell, e, f, g)
                  (inr (w.visited, sound.0, sound.1, leb→le max_island_cells (length w.visited) g))
            | inr g ↦
                rw (push_cell, e, f, g)
                  (
                    pushed-Kept p w next m sound cov new r t
                        (leb→lt max_island_cells (length w.visited) g),
                    has_self next w.visited,
                  )
          ]
        ]
      ]
