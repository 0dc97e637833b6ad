-- ===== src/Coords/Offsets/Chunk.antt =====
-- `impl ChunkOffset` (crates/fallingsand_core/src/coords.rs).
use fallingsand.Prelude.{ℕ, ◌*◌, ◌/◌, ◌%◌, ◌^◌, bit_or}
use fallingsand.Coords.Types.{ChunkOffset, region_bits}

-- `(y << REGION_BITS) | x`.
unfoldable pub index : ChunkOffset → ℕ
index o = bit_or (o.y * 2 ^ region_bits) o.x

-- Both fields are cut to `u8`.
unfoldable pub from_index : ℕ → ChunkOffset
from_index i = record { x = i % 2 ^ region_bits; y = i / 2 ^ region_bits % 256 }
