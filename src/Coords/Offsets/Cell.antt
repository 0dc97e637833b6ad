-- ===== src/Coords/Offsets/Cell.antt =====
-- `impl CellOffset` (crates/fallingsand_core/src/coords.rs).
use fallingsand.Prelude.{ℕ, ◌*◌, ◌/◌, ◌%◌, ◌^◌, bit_or}
use fallingsand.Coords.Types.{CellOffset, chunk_bits}

-- `(y << CHUNK_BITS) | x`.
unfoldable pub index : CellOffset → ℕ
index o = bit_or (o.y * 2 ^ chunk_bits) o.x

-- Both fields are cut to `u8`.
unfoldable pub from_index : ℕ → CellOffset
from_index i = record { x = i % 2 ^ chunk_bits; y = i / 2 ^ chunk_bits % 256 }
