-- ===== src/Store/Moves.antt =====
-- Regions into and out of the simulated world (crates/fallingsand_server/src/regions.rs).
pub mod Distinct
pub mod Back
mod Tests
use fallingsand.Prelude.{ℕ, Option, none, some, List, [], ◌∷◌}
use fallingsand.Coords.{ChunkOffset, ChunkPos, RegionPos}
use fallingsand.Coords.Regions.{chunk_positions}
use fallingsand.Chunk.State.{Chunk}
use fallingsand.Sim.World.{CellWorld, insert_chunk, remove_chunk}
use fallingsand.Store.Region.{Region, set_chunk}
use fallingsand.Store.Region as Region

abbrev pub Places : Type 0
Places = List (ChunkOffset × ChunkPos)

-- The loop over `pos.chunk_positions().zip(chunks)`.
unfoldable pub insert_all : CellWorld → Places → List Chunk → CellWorld
unfolding insert_chunk
insert_all sim [] chunks = sim
insert_all sim (place ∷ places) [] = sim
insert_all sim ((offset, chunk_pos) ∷ places) (chunk ∷ chunks) =
    insert_all (insert_chunk sim chunk_pos chunk) places chunks

unfoldable pub insert_region : CellWorld → RegionPos → Region → CellWorld
unfolding insert_all chunk_positions
insert_region sim r region = insert_all sim (chunk_positions r) region.chunks

-- `gather_region` with a closure that changes a state; the loop from the region so far.
module _ {S : Type 0} (chunk_of : S → ChunkPos → Option Chunk × S) where
  unfoldable pub gather_all : S → Places → Region → Region × S
  unfolding set_chunk
  gather_all s [] region = (region, s)
  gather_all s ((offset, chunk_pos) ∷ places) region =
      let (found, s') = chunk_of s chunk_pos in
      let region' : Region = elim found [
        | none ↦ region
        | some chunk ↦ set_chunk region offset chunk
      ] in
      gather_all s' places region'

  unfoldable pub gather_region : S → RegionPos → Region × S
  unfolding gather_all chunk_positions Region.new
  gather_region s r = gather_all s (chunk_positions r) Region.new

unfoldable pub extract_region : CellWorld → RegionPos → Region × CellWorld
unfolding gather_region remove_chunk
extract_region sim r = gather_region remove_chunk sim r
