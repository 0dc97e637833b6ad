-- ===== src/Sim/World.antt =====
-- `CellWorld` (crates/fallingsand_sim/src/world.rs). The hash map of chunks is an association list in the
-- order in which the map would be walked, with one entry for a position.
pub mod Lookup
use fallingsand.Prelude.{
  ℕ, ◌+◌, ◌*◌, ◌%◌, ◌^◌, Bool, true, false, not, ◌&&◌, ◌||◌, ◌==◌, if◌then◌else◌, Option, none,
  some, List, [], ◌∷◌, ◌++◌,
}
use fallingsand.Coords.{CellPos, ChunkPos}
use fallingsand.Coords.Cells
use fallingsand.Cell.{Cell, MaterialId, air_id}
use fallingsand.Cell as Cell
use fallingsand.Chunk.State.{Chunk, ChangeCounts, no_changes, merge, change_counts, sim_rect}
use fallingsand.Chunk.State as Chunk
use fallingsand.Chunk.Rect.Defs as Rect
use fallingsand.Math.{bits}
use fallingsand.Sim.Content.{Content}
use fallingsand.Sim.Salts.{seeded, cell_shade_salt}
use fallingsand.Sim.Window.{same_chunk, around, on_border, exchange, obstructs, bondable}

abbrev pub Chunks : Type 0
Chunks = List (ChunkPos × Chunk)

pub record CellWorld : Type 0 where
  pub chunks : Chunks
  pub tick : ℕ
  pub unseated : List CellPos

unfoldable pub new : CellWorld
new = record { chunks = []; tick = 0; unseated = [] }

unfoldable pub set_tick : CellWorld → ℕ → CellWorld
set_tick w tick = record w { tick = tick }

-- `self.tick += 1` on a `u64`.
unfoldable pub advance_tick : CellWorld → CellWorld
advance_tick w = record w { tick = (w.tick + 1) % 2 ^ 64 }

unfoldable pub lookup : Chunks → ChunkPos → Option Chunk
lookup [] c = none
lookup ((k, v) ∷ rest) c = if same_chunk k c then some v else lookup rest c

unfoldable pub update : Chunks → ChunkPos → Chunk → Chunks
update [] c chunk = []
update ((k, v) ∷ rest) c chunk =
    if same_chunk k c then (k, chunk) ∷ rest else (k, v) ∷ update rest c chunk

unfoldable pub delete : Chunks → ChunkPos → Chunks
delete [] c = []
delete ((k, v) ∷ rest) c = if same_chunk k c then rest else (k, v) ∷ delete rest c

unfoldable pub insert_chunk : CellWorld → ChunkPos → Chunk → CellWorld
unfolding lookup update
insert_chunk w c chunk = elim (lookup w.chunks c) [
  | none ↦ record w { chunks = (c, chunk) ∷ w.chunks }
  | some old ↦ record w { chunks = update w.chunks c chunk }
]

unfoldable pub remove_chunk : CellWorld → ChunkPos → Option Chunk × CellWorld
unfolding lookup delete
remove_chunk w c = (lookup w.chunks c, record w { chunks = delete w.chunks c })

unfoldable pub get_cell : CellWorld → CellPos → Option Cell
unfolding lookup Cells.chunk Cells.offset Chunk.get
get_cell w p = elim (lookup w.chunks (Cells.chunk p)) [
  | none ↦ none
  | some chunk ↦ Chunk.get chunk (Cells.offset p)
]

-- One round of the loops of `mark_sim_border`.
unfoldable pub mark_across : CellPos → Chunks → ℕ × ℕ → Chunks
unfolding lookup update Cells.chunk Cells.offset Cells.translated Rect.mark
mark_across p cs (dx, dy) =
    let n = Cells.translated p dx dy in
    if same_chunk (Cells.chunk n) (Cells.chunk p) then cs else (elim (lookup cs (Cells.chunk n)) [
      | none ↦ cs
      | some chunk ↦
          update cs (Cells.chunk n) (record chunk { sim = Rect.mark chunk.sim (Cells.offset n) })
    ])

unfoldable pub mark_all_across : CellPos → List (ℕ × ℕ) → Chunks → Chunks
unfolding mark_across
mark_all_across p [] cs = cs
mark_all_across p (d ∷ ds) cs = mark_all_across p ds (mark_across p cs d)

unfoldable pub mark_sim_border : CellWorld → CellPos → CellWorld
unfolding mark_all_across Cells.offset
mark_sim_border w p =
    if on_border (Cells.offset p)
    then record w { chunks = mark_all_across p around w.chunks }
    else w

unfoldable pub drain_unseated : CellWorld → List CellPos × CellWorld
drain_unseated w = (w.unseated, record w { unseated = [] })

-- Chunks with something to simulate, and the cells in their rectangles.
unfoldable pub awake_counts : Chunks → ℕ × ℕ
unfolding sim_rect Rect.is_empty Rect.width Rect.height
awake_counts [] = (0, 0)
awake_counts ((k, chunk) ∷ rest) =
    let (chunks, cells) = awake_counts rest in
    let r = sim_rect chunk in
    if Rect.is_empty r then (chunks, cells) else (chunks + 1, cells + Rect.width r * Rect.height r)

unfoldable pub all_change_counts : Chunks → ChangeCounts
unfolding merge change_counts
all_change_counts [] = no_changes
all_change_counts ((k, chunk) ∷ rest) = merge (change_counts chunk) (all_change_counts rest)

module _ (content : Content) where
  unfoldable pub set : CellWorld → CellPos → Cell → CellWorld
  unfolding lookup update exchange obstructs mark_sim_border Cell.clear_moved Cells.chunk
      Cells.offset
  set w p cell =
      let still = Cell.clear_moved cell in
      elim (lookup w.chunks (Cells.chunk p)) [
        | none ↦ w
        | some chunk ↦ elim (exchange chunk (Cells.offset p) still) [
          | none ↦ w
          | some (old, chunk') ↦
              let written = record w { chunks = update w.chunks (Cells.chunk p) chunk' } in
              let loose =
                if obstructs content old.material && not (obstructs content still.material)
                then record written { unseated = w.unseated ++ (p ∷ []) }
                else written in
              mark_sim_border loose p
        ]
      ]

  -- The world afterwards, and whether the material was placed.
  unfoldable pub place : CellWorld → CellPos → MaterialId → ℕ → CellWorld × Bool
  unfolding get_cell set Cell.is_air Cell.new Cell.air
  place w p material shade = elim (get_cell w p) [
    | none ↦ (w, false)
    | some old ↦
        let w' =
          if bondable content old.material || bondable content material
          then record w { unseated = w.unseated ++ (p ∷ []) }
          else w in
        let cell = if material == air_id then Cell.air else Cell.new material shade in
        if not (material == air_id) && not (Cell.is_air old)
        then (w, false)
        else (set w' p cell, true)
  ]

  -- The shade is a hash of the tick and the position, cut to a `u8`.
  unfoldable pub set_material : CellWorld → CellPos → MaterialId → CellWorld × Bool
  unfolding place seeded cell_shade_salt bits
  set_material w p material = place w p material (bits (seeded w.tick cell_shade_salt p) 4 % 256)
