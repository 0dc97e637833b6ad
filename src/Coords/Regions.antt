-- ===== src/Coords/Regions.antt =====
-- `impl RegionPos` (crates/fallingsand_core/src/coords.rs).
use fallingsand.Prelude.{ℕ, zero, suc, ◌+◌, ◌*◌, ◌≡◌, refl, List, [], ◌∷◌, bit_or, bit_and}
use fallingsand.Prelude.Words.{shl_i32}
use fallingsand.Coords.Types.{ChunkPos, RegionPos, ChunkOffset, region_bits}
use fallingsand.Coords.Offsets.Chunk

unfoldable pub new : ℕ → ℕ → RegionPos
new x y = record { x = x; y = y }

unfoldable pub base_chunk : RegionPos → ChunkPos
base_chunk r = record { x = shl_i32 r.x region_bits; y = shl_i32 r.y region_bits }

unfoldable pub chunk : RegionPos → ChunkOffset → ChunkPos
chunk r o = record {
  x = bit_or (shl_i32 r.x region_bits) o.x;
  y = bit_or (shl_i32 r.y region_bits) o.y;
}

-- The iterator over `index..index + n`.
unfoldable pub positions_from : RegionPos → ℕ → ℕ → List (ChunkOffset × ChunkPos)
unfolding chunk Chunk.from_index
positions_from r index zero = []
positions_from r index (suc n) =
    let offset = Chunk.from_index index in (offset, chunk r offset) ∷ positions_from r (index + 1) n

unfoldable pub chunk_positions : RegionPos → List (ChunkOffset × ChunkPos)
unfolding positions_from
chunk_positions r = positions_from r 0 64

-- One round of `interleave`: `(x | (x << k)) & mask` on a `u64`, where `s` is `2 ^ k`. The values stay
-- below 2 ^ 64, since each mask leaves room for the next shift.
abbrev spread : ℕ → ℕ → ℕ → ℕ
spread s mask v = bit_and (bit_or v (v * s)) mask

unfoldable pub interleave : ℕ → ℕ
interleave v = spread 2 0x5555_5555_5555_5555 (
    spread 4 0x3333_3333_3333_3333 (
      spread 16 0x0F0F_0F0F_0F0F_0F0F
        (spread 256 0x00FF_00FF_00FF_00FF (spread 65_536 0x0000_FFFF_0000_FFFF v))))

unfoldable pub zorder_key : RegionPos → ℕ
unfolding interleave
zorder_key r = bit_or (interleave r.x) (interleave r.y * 2)

interleave_example : interleave 0xffff_ffff ≡ 0x5555_5555_5555_5555
unfolding interleave
interleave_example = refl
