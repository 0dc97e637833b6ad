-- ===== src/Coords/Chunks.antt =====
-- `impl ChunkPos` (crates/fallingsand_core/src/coords.rs).
use fallingsand.Prelude.{ℕ, ◌%◌, ◌^◌}
use fallingsand.Prelude.Words.{add_i32, shr_i32, shl_i32}
use fallingsand.Coords.Types.{CellPos, ChunkPos, RegionPos, ChunkOffset, chunk_bits, region_bits}

unfoldable pub new : ℕ → ℕ → ChunkPos
new x y = record { x = x; y = y }

unfoldable pub translated : ChunkPos → ℕ → ℕ → ChunkPos
translated p dx dy = record { x = add_i32 p.x dx; y = add_i32 p.y dy }

unfoldable pub region : ChunkPos → RegionPos
region p = record { x = shr_i32 p.x region_bits; y = shr_i32 p.y region_bits }

unfoldable pub offset : ChunkPos → ChunkOffset
offset p = record { x = p.x % 2 ^ region_bits; y = p.y % 2 ^ region_bits }

unfoldable pub base_cell : ChunkPos → CellPos
base_cell p = record { x = shl_i32 p.x chunk_bits; y = shl_i32 p.y chunk_bits }
