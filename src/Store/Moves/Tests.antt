-- ===== src/Store/Moves/Tests.antt =====
-- Regions in and out of a world, on concrete inputs.
use fallingsand.Prelude.{
  ◌≡◌, refl, Bool, true, not, ◌&&◌, Bool-cases, inl, inr, [], ◌∷◌, length, length-replicate,
}
use fallingsand.Coords.{ChunkPos, RegionPos}
use fallingsand.Coords.Regions as Regions
use fallingsand.Coords.Offsets.Chunk.{from_index}
use fallingsand.Chunk.State as Chunk
use fallingsand.Sim.Window.{same_chunk}
use fallingsand.Sim.World.{CellWorld, insert_chunk, remove_chunk}
use fallingsand.Sim.World as World
use fallingsand.Sim.World.Lookup.{IsMap, at, insert_chunk-IsMap}
use fallingsand.Store.Region as Region
use fallingsand.Store.Moves.{Places, insert_region, extract_region}
use fallingsand.Store.Moves.Distinct.{Misses}
use fallingsand.Store.Moves.Back.{Gone, extract_region-insert_region}

abbrev misses : ChunkPos → Places → Bool
misses q [] = true
misses q ((o, p) ∷ ps) = not (same_chunk p q) && misses q ps

misses-Misses : (q : ChunkPos) (ps : Places) → misses q ps ≡ true → Misses q ps
misses-Misses q [] h = tt
misses-Misses q ((o, p) ∷ ps) h = elim (Bool-cases (same_chunk p q)) [
  | inl e ↦ absurd (cc (rw e at h))
  | inr e ↦ (e, misses-Misses q ps (rw e at h))
]

abbrev home : RegionPos
home = record { x = 4_294_967_295; y = 2 }

-- The chunk before the region, and one in it.
abbrev outside : ChunkPos
outside = record { x = 4_294_967_287; y = 16 }

abbrev inside : ChunkPos
inside = record { x = 4_294_967_290; y = 17 }

-- A world with both chunks.
world : CellWorld
world = insert_chunk (insert_chunk World.new outside Chunk.new) inside Chunk.new

world-IsMap : IsMap world.chunks
unfolding world World.new
world-IsMap =
    insert_chunk-IsMap (insert_chunk World.new outside Chunk.new) inside Chunk.new
      (insert_chunk-IsMap World.new outside Chunk.new tt)

outside-misses : misses outside (Regions.chunk_positions home) ≡ true
unfolding Regions.chunk_positions Regions.chunk from_index
outside-misses = refl

whole : length Region.new.chunks ≡ 64
unfolding Region.new
whole = length-replicate 64 Chunk.new

extract_region-insert_region_example :
    ((extract_region (insert_region world home Region.new) home).0 ≡ Region.new)
    × Gone
        (extract_region (insert_region world home Region.new) home).1
        (Regions.chunk_positions home)
    × (at (extract_region (insert_region world home Region.new) home).1 outside ≡ at world outside)
extract_region-insert_region_example =
    extract_region-insert_region world home Region.new outside world-IsMap whole
      (misses-Misses outside (Regions.chunk_positions home) outside-misses)
