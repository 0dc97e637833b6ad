-- ===== src/Coords/Cells.antt =====
-- `impl CellPos` (crates/fallingsand_core/src/coords.rs).
use fallingsand.Prelude.{ℕ, ◌%◌, ◌^◌}
use fallingsand.Prelude.Words.{add_i32, shr_i32}
use fallingsand.Coords.Types.{CellPos, ChunkPos, RegionPos, CellOffset, chunk_bits}
use fallingsand.Coords.Chunks

unfoldable pub new : ℕ → ℕ → CellPos
new x y = record { x = x; y = y }

unfoldable pub translated : CellPos → ℕ → ℕ → CellPos
translated p dx dy = record { x = add_i32 p.x dx; y = add_i32 p.y dy }

unfoldable pub chunk : CellPos → ChunkPos
chunk p = record { x = shr_i32 p.x chunk_bits; y = shr_i32 p.y chunk_bits }

-- `x & ((1 << CHUNK_BITS) - 1)`.
unfoldable pub offset : CellPos → CellOffset
offset p = record { x = p.x % 2 ^ chunk_bits; y = p.y % 2 ^ chunk_bits }

unfoldable pub region : CellPos → RegionPos
unfolding chunk Chunks.region
region p = Chunks.region (chunk p)
