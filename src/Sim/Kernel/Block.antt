-- ===== src/Sim/Kernel/Block.antt =====
-- One window of a pass (crates/fallingsand_sim/src/kernel.rs): which of its chunks the block owns, and
-- in which order the rule meets their cells.
use fallingsand.Prelude.{
  ℕ, zero, suc, ◌+◌, ◌-◌, ◌*◌, ◌/◌, ◌%◌, Bool, ◌&&◌, ◌||◌, ltb, if◌then◌else◌, Option, none, some,
  is_some, List, [], ◌∷◌, ◌++◌,
}
use fallingsand.Prelude.Words.{add_i32}
use fallingsand.Coords.{CellPos, ChunkPos}
use fallingsand.Coords.Chunks
use fallingsand.Chunk.State.{sim_rect}
use fallingsand.Chunk.Rect.Defs.{DirtyRect, is_empty}
use fallingsand.Chunk.Rect.Defs as Rect
use fallingsand.Math.{bit, draw, range, Rng}
use fallingsand.Sim.Salts.{seeded, row_direction_salt, random_tick_sample_salt}
use fallingsand.Sim.Window.{Window, chunk_at}

unfoldable pub row_reverse : ℕ → ℕ → Bool
unfolding bit seeded row_direction_salt
row_reverse tick y = bit (seeded tick row_direction_salt (record { x = 0; y = y }))

-- The chunk of a slot and the eight around it are loaded. The slots of a block are 1 and 2 each way,
-- so no difference of one leaves the window.
unfoldable pub surrounded : Window → ℕ → ℕ → Bool
unfolding chunk_at
surrounded w sx sy =
    let loaded = λ (x y : ℕ). is_some (chunk_at w x y) in
    loaded (sx - 1) (sy - 1)
    && loaded sx (sy - 1)
    && loaded (sx + 1) (sy - 1)
    && loaded (sx - 1) sy
    && loaded sx sy
    && loaded (sx + 1) sy
    && loaded (sx - 1) (sy + 1)
    && loaded sx (sy + 1)
    && loaded (sx + 1) (sy + 1)

-- An entry of `owned_chunks`.
unfoldable pub owned : (ChunkPos → Bool) → Window → ℕ → ℕ → Bool
unfolding surrounded Chunks.translated
owned simulate w ox oy =
    simulate (Chunks.translated w.origin (ox + 1) (oy + 1)) && surrounded w (ox + 1) (oy + 1)

-- An entry of `rects`.
unfoldable pub block_rect : (ChunkPos → Bool) → Window → ℕ → ℕ → DirtyRect
unfolding owned chunk_at sim_rect
block_rect simulate w ox oy =
    if owned simulate w ox oy
    then (elim (chunk_at w (ox + 1) (oy + 1)) [ none ↦ Rect.empty | some c ↦ sim_rect c ])
    else Rect.empty

-- The cells of a row of one chunk: `count` of them from the column on, or back from it.
unfoldable pub row_cells : CellPos → ℕ → ℕ → Bool → ℕ → ℕ → ℕ → List CellPos
row_cells base ox gy reverse first last zero = []
row_cells base ox gy reverse first last (suc count) =
    let lx = if reverse then last else first in
    record { x = add_i32 base.x (ox * 64 + lx); y = add_i32 base.y gy }
    ∷ row_cells base ox gy reverse (first + 1) (last - 1) count

-- The cells of row `gy` of the block in the chunk column `ox`.
unfoldable pub chunk_row : (ℕ → ℕ → DirtyRect) → CellPos → ℕ → Bool → ℕ → List CellPos
unfolding row_cells is_empty
chunk_row rects base gy reverse ox =
    let r = rects ox (gy / 64) in
    if is_empty r || ltb (gy % 64) r.min_y || ltb r.max_y (gy % 64)
    then []
    else row_cells base ox gy reverse r.min_x r.max_x (r.max_x - r.min_x + 1)

unfoldable pub block_row : (ℕ → ℕ → DirtyRect) → CellPos → ℕ → ℕ → List CellPos
unfolding chunk_row row_reverse
block_row rects base tick gy =
    let reverse = row_reverse tick (add_i32 base.y gy) in
    chunk_row rects base gy reverse (if reverse then 1 else 0)
    ++ chunk_row rects base gy reverse (if reverse then 0 else 1)

-- The rows from `gy` on.
unfoldable pub block_rows : (ℕ → ℕ → DirtyRect) → CellPos → ℕ → ℕ → ℕ → List CellPos
unfolding block_row
block_rows rects base tick gy zero = []
block_rows rects base tick gy (suc count) =
    block_row rects base tick gy ++ block_rows rects base tick (gy + 1) count

-- A rule applied to cells in turn; `none` is a rule that panicked or ran out of fuel.
unfoldable pub each_cell :
    (Window → CellPos → Option Window) → List CellPos → Window → Option Window
each_cell rule [] w = some w
each_cell rule (p ∷ ps) w = elim (rule w p) [ none ↦ none | some w' ↦ each_cell rule ps w' ]

-- The rectangles are read before the rule runs.
unfoldable pub simulate_block :
    (Window → CellPos → Option Window) → ℕ → (ChunkPos → Bool) → Window → Option Window
unfolding block_rect block_rows each_cell Chunks.base_cell Chunks.translated
simulate_block rule tick simulate w =
    each_cell rule
      (block_rows (block_rect simulate w) (Chunks.base_cell (Chunks.translated w.origin 1 1)) tick 0
        128)
      w

-- The samples of one chunk.
unfoldable pub samples : CellPos → ℕ → Rng → List CellPos
unfolding draw range
samples base zero rng = []
samples base (suc count) rng =
    let (rng', hx) = draw rng in
    let (rng'', hy) = draw rng' in
    record { x = add_i32 base.x (range hx 0 63); y = add_i32 base.y (range hy 0 63) }
    ∷ samples base count rng''

unfoldable pub random_cells : (ChunkPos → Bool) → Window → ℕ → ℕ → ℕ → List CellPos
unfolding owned samples seeded random_tick_sample_salt Chunks.base_cell Chunks.translated
random_cells simulate w tick ox oy =
    let c = Chunks.translated w.origin (ox + 1) (oy + 1) in
    if owned simulate w ox oy
    then samples (Chunks.base_cell c) 4
        (seeded tick random_tick_sample_salt (record { x = c.x; y = c.y }))
    else []

-- The rule of the random tick is the parameter.
unfoldable pub random_tick_block :
    (Window → CellPos → Option Window) → ℕ → (ChunkPos → Bool) → Window → Option Window
unfolding random_cells each_cell
random_tick_block rule tick simulate w =
    each_cell rule
      (random_cells simulate w tick 0 0
        ++ random_cells simulate w tick 1 0
        ++ random_cells simulate w tick 0 1
        ++ random_cells simulate w tick 1 1)
      w
