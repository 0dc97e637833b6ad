-- ===== src/Coords/Types.antt =====
-- The coordinate types (crates/fallingsand_core/src/coords.rs). An `i32` field is its bit pattern.
use fallingsand.Prelude.{ℕ, ◌+◌, ◌%◌, ◌<◌}
use fallingsand.Prelude.Words.{i32_mod}

abbrev pub chunk_size : ℕ
chunk_size = 64

abbrev pub region_size_chunks : ℕ
region_size_chunks = 8

abbrev pub chunk_bits : ℕ
chunk_bits = 6

abbrev pub region_bits : ℕ
region_bits = 3

pub record CellPos : Type 0 where
  pub x : ℕ
  pub y : ℕ

pub record CellRect : Type 0 where
  pub min : CellPos
  pub max : CellPos

pub record ChunkPos : Type 0 where
  pub x : ℕ
  pub y : ℕ

pub record RegionPos : Type 0 where
  pub x : ℕ
  pub y : ℕ

-- A cell in its chunk; the fields are `u8`.
pub record CellOffset : Type 0 where
  pub x : ℕ
  pub y : ℕ

-- A chunk in its region; the fields are `u8`.
pub record ChunkOffset : Type 0 where
  pub x : ℕ
  pub y : ℕ

-- The fields are patterns of `i32`.
abbrev pub IsCellPos : CellPos → Type 0
IsCellPos p = (p.x < i32_mod) × (p.y < i32_mod)

abbrev pub IsChunkPos : ChunkPos → Type 0
IsChunkPos p = (p.x < i32_mod) × (p.y < i32_mod)

abbrev pub IsRegionPos : RegionPos → Type 0
IsRegionPos p = (p.x < i32_mod) × (p.y < i32_mod)

abbrev pub InChunk : CellOffset → Type 0
InChunk o = (o.x < 64) × (o.y < 64)

abbrev pub InRegion : ChunkOffset → Type 0
InRegion o = (o.x < 8) × (o.y < 8)

-- The chunks that hold a cell: their coordinates are sign-extended from 26 bits. Those of a region that
-- holds a chunk are sign-extended from 29 bits.
abbrev pub IsWorldChunk : ChunkPos → Type 0
IsWorldChunk c =
    ((c.x + 33_554_432) % 4_294_967_296 < 67_108_864)
    × ((c.y + 33_554_432) % 4_294_967_296 < 67_108_864)

abbrev pub IsChunkRegion : RegionPos → Type 0
IsChunkRegion r =
    ((r.x + 268_435_456) % 4_294_967_296 < 536_870_912)
    × ((r.y + 268_435_456) % 4_294_967_296 < 536_870_912)
