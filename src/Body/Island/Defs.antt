-- ===== src/Body/Island/Defs.antt =====
-- `detect_detached_island`: a breadth-first search from a seed. Sets are lists without repetition. What the
-- comparison of a material's hardness with `SUPPORT_MIN_HARDNESS` gives is a parameter, since it is in
-- floating point.
use fallingsand.Prelude.{
  ℕ, zero, suc, leb, not, ◌&&◌, ◌||◌, ◌==◌, if◌then◌else◌, Bool, true, false, Option, none, some,
  is_some, List, [], ◌∷◌, ◌++◌, length,
}
use fallingsand.Prelude.Int.{ℤ, pos, ltb_ℤ}
use fallingsand.Prelude.Words.{sub_i32, le_i32, lt_i32}
use fallingsand.Coords.{CellPos}
use fallingsand.Cell.{Cell, MaterialId}
use fallingsand.Cell as Cell
use fallingsand.Material.{Phase}
use fallingsand.Sim.Content.{Content}
use fallingsand.Sim.Window.{bondable}
use fallingsand.Sim.Motion.Speed.{moved_by}
use fallingsand.Sim.Motion.Move.{neighbors}
use fallingsand.Sim.World.{CellWorld, get_cell}

abbrev pub max_body_extent : ℕ
max_body_extent = 48

abbrev pub max_island_cells : ℕ
max_island_cells = 2_048

abbrev pub same_cell : CellPos → CellPos → Bool
same_cell p q = p.x == q.x && p.y == q.y

-- `visited.contains(&p)`.
unfoldable pub has : List CellPos → CellPos → Bool
has [] p = false
has (q ∷ qs) p = same_cell q p || has qs p

-- The variables of the walk.
pub record Walk : Type 0 where
  pub visited : List CellPos
  pub queue : List (CellPos × MaterialId)
  pub min_x : ℕ
  pub max_x : ℕ
  pub min_y : ℕ
  pub max_y : ℕ

-- After a part of the walk: it goes on, or it has returned `None`, with these cells visited.
pub data Stage : Type 0 where
  going : Walk → Stage
  halted : List CellPos → Stage

-- The `while` loop: out of fuel, returned `None`, or returned `Some(())`.
pub data Search : Type 0 where
  unfinished : Search
  supported_at : List CellPos → Search
  detached : List CellPos → Search

abbrev pub lower : ℕ → ℕ → ℕ
lower a b = if le_i32 a b then a else b

abbrev pub higher : ℕ → ℕ → ℕ
higher a b = if le_i32 a b then b else a

-- The order by `(pos.y, pos.x)`.
abbrev pub before : CellPos → CellPos → Bool
before p q = if lt_i32 p.y q.y then true else if lt_i32 q.y p.y then false else le_i32 p.x q.x

unfoldable pub insert_cell : CellPos → List CellPos → List CellPos
insert_cell p [] = p ∷ []
insert_cell p (q ∷ qs) = let rest = insert_cell p qs in if before p q then p ∷ q ∷ qs else q ∷ rest

unfoldable pub sort_cells : List CellPos → List CellPos
unfolding insert_cell
sort_cells [] = []
sort_cells (p ∷ ps) = insert_cell p (sort_cells ps)

-- `scanned.extend(visited)`.
abbrev pub extend : List CellPos → List CellPos → List CellPos
extend scanned visited = visited ++ scanned

module _ (content : Content) (is_hard : MaterialId → Bool) (world : CellWorld) where
  unfoldable pub rigid_terrain : CellPos → Option Cell
  unfolding get_cell Cell.body_id
  rigid_terrain p = elim (get_cell world p) [
    | none ↦ none
    | some cell ↦
        if not (is_some (Cell.body_id cell)) && is_solid cell && bondable content cell.material
        then some cell
        else none
  ]
    where
      is_solid : Cell → Bool
      is_solid cell = elim (content.phase cell.material) [ Phase.solid ↦ true | _ ↦ false ]

  -- `content::bonds`.
  abbrev pub bonds : MaterialId → MaterialId → Bool
  bonds a b = not (content.bond_group a == 255) && content.bond_group a == content.bond_group b

  -- Whether what is not terrain at this neighbour supports a cell.
  unfoldable pub holds_up : ℤ → Cell → Bool
  unfolding Cell.body_id
  holds_up dy cell =
      if is_some (Cell.body_id cell) then false else (elim (content.phase cell.material) [
        | Phase.solid ↦ is_hard cell.material
        | Phase.powder_phase ↦ ltb_ℤ dy (pos 0)
        | _ ↦ false
      ])

  -- The loop over the neighbours.
  unfoldable pub supported_by : CellPos → MaterialId → List (ℤ × ℤ) → Bool
  unfolding rigid_terrain holds_up moved_by get_cell
  supported_by p material [] = false
  supported_by p material ((dx, dy) ∷ ds) =
      let near = moved_by p dx dy in
      let later = supported_by p material ds in
      let bonded : Bool = elim (rigid_terrain near) [
        | none ↦ false
        | some cell ↦ bonds material cell.material
      ] in
      if bonded then later else (elim (get_cell world near) [
        | none ↦ later
        | some cell ↦ if holds_up dy cell then true else later
      ])

  unfoldable pub supported : CellPos → MaterialId → Bool
  unfolding supported_by
  supported p material = supported_by p material neighbors

  -- The rest of the round for a neighbour that bonds.
  unfoldable pub push_cell : Walk → CellPos → MaterialId → Stage
  push_cell w next material =
      let min_x = lower w.min_x next.x in
      let max_x = higher w.max_x next.x in
      let min_y = lower w.min_y next.y in
      let max_y = higher w.max_y next.y in
      if le_i32 max_body_extent (sub_i32 max_x min_x)
        || le_i32 max_body_extent (sub_i32 max_y min_y)
        || leb max_island_cells (length w.visited)
      then halted w.visited
      else going (record {
        visited = next ∷ w.visited;
        queue = w.queue ++ (next, material) ∷ [];
        min_x = min_x;
        max_x = max_x;
        min_y = min_y;
        max_y = max_y;
      })

  -- The body of the loop over the neighbours.
  unfoldable pub look : Walk → MaterialId → CellPos → Stage
  unfolding has rigid_terrain push_cell
  look w material next = if has w.visited next then going w else (elim (rigid_terrain next) [
    | none ↦ going w
    | some cell ↦ if bonds material cell.material then push_cell w next cell.material else going w
  ])

  unfoldable pub look_around : CellPos → MaterialId → List (ℤ × ℤ) → Walk → Stage
  unfolding look moved_by
  look_around p material [] w = going w
  look_around p material ((dx, dy) ∷ ds) w = elim (look w material (moved_by p dx dy)) [
    | halted visited ↦ halted visited
    | going w' ↦ look_around p material ds w'
  ]

  unfoldable pub walk : ℕ → Walk → Search
  unfolding supported look_around
  walk zero w = unfinished
  walk (suc fuel) w = elim w.queue [
    | [] ↦ detached w.visited
    | (p, material) ∷ queue ↦
        let popped : Walk = record w { queue = queue } in
        if supported p material
        then supported_at w.visited
        else (elim (look_around p material neighbors popped) [
          | halted visited ↦ supported_at visited
          | going w' ↦ walk fuel w'
        ])
  ]

  -- The island and the scanned cells; `none` is a lack of fuel.
  unfoldable pub detect_detached_island :
      CellPos → List CellPos → Option (Option (List CellPos) × List CellPos)
  unfolding rigid_terrain walk sort_cells
  detect_detached_island seed scanned = elim (rigid_terrain seed) [
    | none ↦ some (none, scanned)
    | some cell ↦
        let start : Walk = record {
          visited = seed ∷ [];
          queue = (seed, cell.material) ∷ [];
          min_x = seed.x;
          max_x = seed.x;
          min_y = seed.y;
          max_y = seed.y;
        } in
        elim (walk 2_049 start) [
          | unfinished ↦ none
          | supported_at visited ↦ some (none, extend scanned visited)
          | detached visited ↦ some (some (sort_cells visited), extend scanned visited)
        ]
  ]
