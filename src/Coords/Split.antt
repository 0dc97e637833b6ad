-- ===== src/Coords/Split.antt =====
-- A position is its container and its offset there, and an offset is its array index.
mod Tests
use fallingsand.Prelude.{ℕ, ◌+◌, ◌*◌, ◌/◌, ◌%◌, ◌<◌, ◌≡◌, arith, bit_or}
use fallingsand.Prelude.Bits.{bit_or_disjoint}
use fallingsand.Prelude.Words.{shl_i32}
use fallingsand.Coords.Types.{
  CellPos, ChunkPos, RegionPos, CellOffset, ChunkOffset, IsCellPos, IsChunkPos, IsRegionPos,
  InChunk, InRegion, IsWorldChunk, IsChunkRegion,
}
use fallingsand.Coords.Cells
use fallingsand.Coords.Chunks
use fallingsand.Coords.Regions
use fallingsand.Coords.Offsets.Cell
use fallingsand.Coords.Offsets.Chunk

-- Every cell is its chunk's base cell moved by its offset, which lies in the chunk.
pub base_cell-chunk :
    (p : CellPos)
    → IsCellPos p
    → InChunk (Cells.offset p)
      × (Cells.translated (Chunks.base_cell (Cells.chunk p)) (Cells.offset p).x (Cells.offset p).y
          ≡ p)
unfolding Cells.offset Cells.translated Cells.chunk Chunks.base_cell
base_cell-chunk p h = ground arith

-- A cell made from a chunk that holds cells of the world and an offset in it splits into that chunk
-- and that offset.
pub chunk-base_cell :
    (c : ChunkPos) (o : CellOffset)
    → IsChunkPos c
    → IsWorldChunk c
    → InChunk o
    → let p = Cells.translated (Chunks.base_cell c) o.x o.y in
      (Cells.chunk p ≡ c) × (Cells.offset p ≡ o)
unfolding Cells.offset Cells.translated Cells.chunk Chunks.base_cell
chunk-base_cell c o hc hw h = ground arith

-- The field under a shifted `i32` pattern: `|` is the sum.
pub shl_or : (r o : ℕ) → o < 8 → bit_or (shl_i32 r 3) o ≡ shl_i32 r 3 + o
shl_or r o h =
    let e : shl_i32 r 3 ≡ r % 536_870_912 * 8 = omega arith in
    rw e (bit_or_disjoint 3 (r % 536_870_912) o h)

-- Every chunk is the chunk at its offset in its region.
pub chunk-region :
    (c : ChunkPos)
    → IsChunkPos c
    → InRegion (Chunks.offset c) × (Regions.chunk (Chunks.region c) (Chunks.offset c) ≡ c)
unfolding Chunks.offset Chunks.region Regions.chunk
chunk-region c h = ground (
  arith,
  shl_or (Chunks.region c).x (Chunks.offset c).x,
  shl_or (Chunks.region c).y (Chunks.offset c).y,
)

-- The chunk at an offset of a region, one that holds chunks, lies in that region at that offset.
pub region-chunk :
    (r : RegionPos) (o : ChunkOffset)
    → IsRegionPos r
    → IsChunkRegion r
    → InRegion o
    → (Chunks.region (Regions.chunk r o) ≡ r) × (Chunks.offset (Regions.chunk r o) ≡ o)
unfolding Chunks.offset Chunks.region Regions.chunk
region-chunk r o hr hw h = ground (arith, shl_or r.x o.x, shl_or r.y o.y)

-- The cell offsets of a chunk and the indices below 4096 correspond one to one.
pub cell_index_bijection :
    (o : CellOffset) (i : ℕ)
    → InChunk o
    → i < 4096
    → (Cell.index o < 4096)
      × (Cell.from_index (Cell.index o) ≡ o)
      × InChunk (Cell.from_index i)
      × (Cell.index (Cell.from_index i) ≡ i)
unfolding Cell.index Cell.from_index
cell_index_bijection o i h k =
    let there = bit_or_disjoint 6 o.y o.x h.0 in
    let back = bit_or_disjoint 6 (i / 64 % 256) (i % 64) (omega arith) in
    (ground arith, ground arith, ground arith, ground arith)

-- The chunk offsets of a region and the indices below 64 correspond one to one.
pub chunk_index_bijection :
    (o : ChunkOffset) (i : ℕ)
    → InRegion o
    → i < 64
    → (Chunk.index o < 64)
      × (Chunk.from_index (Chunk.index o) ≡ o)
      × InRegion (Chunk.from_index i)
      × (Chunk.index (Chunk.from_index i) ≡ i)
unfolding Chunk.index Chunk.from_index
chunk_index_bijection o i h k =
    let there = bit_or_disjoint 3 o.y o.x h.0 in
    let back = bit_or_disjoint 3 (i / 8 % 256) (i % 8) (omega arith) in
    (ground arith, ground arith, ground arith, ground arith)
