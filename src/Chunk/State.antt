-- ===== src/Chunk/State.antt =====
-- `struct Chunk` and its methods (crates/fallingsand_core/src/chunk.rs). The boxed array is a list of
-- 4096 cells; an index out of range panics: `none`. The counters are `u32`, whose overflow in a debug
-- build panics too, after four billion writes between two rolls: they are plain numbers here.
use fallingsand.Prelude.{
  ℕ, zero, suc, ◌+◌, ◌-◌, ◌*◌, ◌%◌, ◌^◌, Bool, true, false, not, ◌&&◌, ◌||◌, ◌==◌, if◌then◌else◌,
  Option, none, some, List, [], ◌∷◌, get_elem?, replicate,
}
use fallingsand.Prelude as Prelude
use fallingsand.Coords.{CellOffset}
use fallingsand.Coords.Offsets.Cell.{index}
use fallingsand.Cell.State.{Cell, air, clear_moved}
use fallingsand.Chunk.Rect.Defs.{DirtyRect, is_empty, mark, mark_neighbourhood, union}
use fallingsand.Chunk.Rect.Defs as Rect
use fallingsand.Chunk.Fog.Mask.{FogMask, union_in_place}
use fallingsand.Chunk.Fog.Mask as Fog

pub record ChangeCounts : Type 0 where
  pub writes : ℕ
  pub visible : ℕ

abbrev pub no_changes : ChangeCounts
no_changes = record { writes = 0; visible = 0 }

unfoldable pub merge : ChangeCounts → ChangeCounts → ChangeCounts
merge a b = record { writes = a.writes + b.writes; visible = a.visible + b.visible }

pub record Chunk : Type 0 where
  pub cells : List Cell
  pub change : DirtyRect
  pub prev_change : DirtyRect
  pub counts : ChangeCounts
  pub prev_counts : ChangeCounts
  pub sim : DirtyRect
  pub prev_sim : DirtyRect
  pub fog : FogMask
  pub sight : FogMask
  pub sight_dirty : DirtyRect
  pub sight_rev : ℕ

unfoldable pub new : Chunk
unfolding air Fog.empty
new = record {
  cells = replicate 4096 air;
  change = Rect.empty;
  prev_change = Rect.empty;
  counts = no_changes;
  prev_counts = no_changes;
  sim = Rect.empty;
  prev_sim = Rect.empty;
  fog = Fog.empty;
  sight = Fog.empty;
  sight_dirty = Rect.full;
  sight_rev = 0;
}

unfoldable pub get : Chunk → CellOffset → Option Cell
unfolding index
get c o = get_elem? c.cells (index o)

-- `old.material != cell.material || old.shade != cell.shade`, as a number.
unfoldable pub shows : Cell → Cell → ℕ
shows old cell =
    if not (old.material == cell.material) || not (old.shade == cell.shade) then 1 else 0

unfoldable pub set : Chunk → CellOffset → Cell → Option Chunk
unfolding index mark mark_neighbourhood shows
set c o cell = elim (get_elem? c.cells (index o)) [
  | none ↦ none
  | some old ↦ some (record c {
    cells = Prelude.set c.cells (index o) cell;
    counts = record { writes = c.counts.writes + 1; visible = c.counts.visible + shows old cell };
    change = mark c.change o;
    sim = mark_neighbourhood c.sim o;
    sight_dirty = mark c.sight_dirty o;
  })
]

-- `get_mut` with a write through the reference: the cell alone changes, no rectangle does.
unfoldable pub write_mut : Chunk → CellOffset → (Cell → Cell) → Option Chunk
unfolding index
write_mut c o f = elim (get_elem? c.cells (index o)) [
  | none ↦ none
  | some old ↦ some (record c { cells = Prelude.set c.cells (index o) (f old) })
]

-- One pass of the inner loop: `count` cells of the row from `x` on.
unfoldable pub clear_row : List Cell → ℕ → ℕ → ℕ → Option (List Cell)
clear_row cells row x zero = some cells
clear_row cells row x (suc count) = elim (get_elem? cells (row + x)) [
  | none ↦ none
  | some cell ↦ clear_row (Prelude.set cells (row + x) (clear_moved cell)) row (x + 1) count
]

-- The outer loop: `count` rows from `y` on, each from `x` on and `wide` cells long.
unfoldable pub clear_rows : List Cell → ℕ → ℕ → ℕ → ℕ → Option (List Cell)
unfolding clear_row
clear_rows cells x wide y zero = some cells
clear_rows cells x wide y (suc count) = elim (clear_row cells (y * 64) x wide) [
  | none ↦ none
  | some cells' ↦ clear_rows cells' x wide (y + 1) count
]

unfoldable pub change_rect : Chunk → DirtyRect
unfolding union
change_rect c = union c.change c.prev_change

unfoldable pub change_counts : Chunk → ChangeCounts
unfolding merge
change_counts c = merge c.counts c.prev_counts

unfoldable pub sim_rect : Chunk → DirtyRect
unfolding union
sim_rect c = union c.sim c.prev_sim

unfoldable pub clear_rect : List Cell → DirtyRect → Option (List Cell)
unfolding is_empty clear_rows
clear_rect cells r =
    if is_empty r
    then some cells
    else clear_rows cells r.min_x (r.max_x - r.min_x + 1) r.min_y (r.max_y - r.min_y + 1)

unfoldable pub roll_over : Chunk → Chunk
roll_over c = record c {
  prev_change = c.change;
  change = Rect.empty;
  prev_counts = c.counts;
  counts = no_changes;
  prev_sim = c.sim;
  sim = Rect.empty;
}

unfoldable pub begin_tick : Chunk → Bool → Option Chunk
unfolding sim_rect clear_rect roll_over
begin_tick c roll = elim (clear_rect c.cells (sim_rect c)) [
  | none ↦ none
  | some cells ↦
      let cleared : Chunk = record c { cells = cells } in
      some (if roll then roll_over cleared else cleared)
]

unfoldable pub restore_fog : Chunk → FogMask → Chunk
restore_fog c fog = record c { fog = fog }

unfoldable pub reveal : Chunk → FogMask → Chunk
unfolding union_in_place
reveal c revealed = record c { fog = union_in_place c.fog revealed }

-- The rectangle that was dirty, and the chunk with none.
unfoldable pub take_sight_dirty : Chunk → DirtyRect × Chunk
take_sight_dirty c = (c.sight_dirty, record c { sight_dirty = Rect.empty })

abbrev pub same_bytes : List ℕ → List ℕ → Bool
same_bytes [] [] = true
same_bytes [] (y ∷ ys) = false
same_bytes (x ∷ xs) [] = false
same_bytes (x ∷ xs) (y ∷ ys) = x == y && same_bytes xs ys

unfoldable pub store_sight : Chunk → FogMask → Chunk
store_sight c sight =
    if same_bytes c.sight.bytes sight.bytes
    then c
    else record c { sight = sight; sight_rev = (c.sight_rev + 1) % 2 ^ 32 }
