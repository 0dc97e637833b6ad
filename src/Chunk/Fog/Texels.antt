-- ===== src/Chunk/Fog/Texels.antt =====
-- `FogPos` (crates/fallingsand_core/src/fog.rs): the position of a texel of four by four cells.
mod Tests
use fallingsand.Prelude.{
  ℕ, zero, suc, ◌+◌, ◌*◌, ◌/◌, ◌%◌, ◌^◌, ◌<◌, ◌≤◌, ◌≡◌, refl, ap, arith, List, [], ◌∷◌, length, All,
}
use fallingsand.Prelude.Words.{i32_mod, add_i32, shr_i32, shl_i32}
use fallingsand.Coords.{CellPos, ChunkPos, IsCellPos, IsChunkPos, IsWorldChunk}
use fallingsand.Coords.Cells as Cells

pub record FogPos : Type 0 where
  pub x : ℕ
  pub y : ℕ

abbrev pub IsFogPos : FogPos → Type 0
IsFogPos t = (t.x < i32_mod) × (t.y < i32_mod)

unfoldable pub new : ℕ → ℕ → FogPos
new x y = record { x = x; y = y }

unfoldable pub of : CellPos → FogPos
of p = record { x = shr_i32 p.x 2; y = shr_i32 p.y 2 }

-- Sums of `i32` wrap around, as in a release build.
unfoldable pub translated : FogPos → ℕ → ℕ → FogPos
translated t dx dy = record { x = add_i32 t.x dx; y = add_i32 t.y dy }

unfoldable pub chunk : FogPos → ChunkPos
chunk t = record { x = shr_i32 t.x 4; y = shr_i32 t.y 4 }

unfoldable pub base_cell : FogPos → CellPos
base_cell t = record { x = shl_i32 t.x 2; y = shl_i32 t.y 2 }

-- The iterator over the texels of a chunk from `index` on, whose first texel is `base`.
unfoldable pub texels_from : FogPos → ℕ → ℕ → List (ℕ × FogPos)
unfolding translated
texels_from base index zero = []
texels_from base index (suc n) =
    (index, translated base (index % 16) (index / 16)) ∷ texels_from base (index + 1) n

unfoldable pub in_chunk : ChunkPos → List (ℕ × FogPos)
unfolding texels_from
in_chunk c = texels_from (record { x = shl_i32 c.x 4; y = shl_i32 c.y 4 }) 0 256

-- The texel of a cell lies in the cell's chunk, and the cell is at most three cells past the texel's
-- first in each direction.
pub of-chunk :
    (p : CellPos)
    → IsCellPos p
    → (chunk (of p) ≡ Cells.chunk p)
      × (add_i32 (base_cell (of p)).x (p.x % 4) ≡ p.x)
      × (add_i32 (base_cell (of p)).y (p.y % 4) ≡ p.y)
unfolding chunk of base_cell Cells.chunk
of-chunk p h = ground arith

-- A texel of a chunk that holds cells, with its index.
abbrev pub Inside : ChunkPos → ℕ × FogPos → Type 0
Inside c (index, t) = (chunk t ≡ c) × (t.x % 16 + 16 * (t.y % 16) ≡ index) × (of (base_cell t) ≡ t)

Inside-at :
    (c : ChunkPos) (index : ℕ)
    → IsChunkPos c
    → IsWorldChunk c
    → index < 256
    → Inside c (
      index,
      translated (record { x = shl_i32 c.x 4; y = shl_i32 c.y 4 }) (index % 16) (index / 16),
    )
unfolding chunk translated of base_cell
Inside-at c index hc hw h = (ground arith, ground arith, ground arith)

texels_from-Inside :
    (c : ChunkPos) (index n : ℕ)
    → IsChunkPos c
    → IsWorldChunk c
    → index + n ≤ 256
    → All (Inside c) (texels_from (record { x = shl_i32 c.x 4; y = shl_i32 c.y 4 }) index n)
unfolding texels_from
texels_from-Inside c index zero hc hw h = tt
texels_from-Inside c index (suc n) hc hw h =
    (Inside-at c index hc hw (omega arith), texels_from-Inside c (index + 1) n hc hw (omega arith))

length-texels_from : (base : FogPos) (index n : ℕ) → length (texels_from base index n) ≡ n
unfolding texels_from
length-texels_from base index zero = refl
length-texels_from base index (suc n) = ap suc (length-texels_from base (index + 1) n)

-- For a chunk that holds cells of the world, `in_chunk` lists 256 texels of that chunk, each with the
-- index of its row and column there; a texel is that of its first cell.
pub in_chunk-Inside :
    (c : ChunkPos)
    → IsChunkPos c
    → IsWorldChunk c
    → (length (in_chunk c) ≡ 256) × All (Inside c) (in_chunk c)
unfolding in_chunk
in_chunk-Inside c hc hw = (
  length-texels_from (record { x = shl_i32 c.x 4; y = shl_i32 c.y 4 }) 0 256,
  texels_from-Inside c 0 256 hc hw (omega arith),
)
