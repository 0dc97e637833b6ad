-- ===== src/Store/Region.antt =====
-- `struct Region` (crates/fallingsand_core/src/region.rs): the boxed array of chunks is a list of 64.
use fallingsand.Prelude.{ℕ, List, length, ◌≡◌, replicate, length-replicate, refl}
use fallingsand.Prelude as Prelude
use fallingsand.Coords.{ChunkOffset}
use fallingsand.Coords.Offsets.Chunk.{index}
use fallingsand.Chunk.State.{Chunk}
use fallingsand.Chunk.State as Chunk

pub record Region : Type 0 where
  pub chunks : List Chunk

unfoldable pub new : Region
new = record { chunks = replicate 64 Chunk.new }

-- `*region.chunk_mut(offset) = chunk`.
unfoldable pub set_chunk : Region → ChunkOffset → Chunk → Region
unfolding index
set_chunk r offset chunk = record { chunks = Prelude.set r.chunks (index offset) chunk }
