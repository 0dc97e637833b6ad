-- ===== src/Store/Moves/Distinct.antt =====
-- The places of a region: each has its own position and its own index.
use fallingsand.Prelude.{
  ℕ, zero, suc, ◌+◌, ◌/◌, ◌%◌, ◌<◌, ◌≤◌, ◌≡◌, refl, ap, arith, false, [], ◌∷◌, length,
}
use fallingsand.Prelude.Bits.{bit_or_disjoint}
use fallingsand.Coords.{ChunkPos, RegionPos}
use fallingsand.Coords.Split.{shl_or}
use fallingsand.Coords.Regions as Regions
use fallingsand.Coords.Offsets.Chunk.{index, from_index}
use fallingsand.Sim.Window.{same_chunk}
use fallingsand.Store.Moves.{Places}

-- None of the places is at the position.
abbrev pub Misses : ChunkPos → Places → Type 0
Misses q [] = Unit
Misses q ((o, p) ∷ ps) = (same_chunk p q ≡ false) × Misses q ps

-- Different positions, and the indices from `i` on.
abbrev pub Ordered : ℕ → Places → Type 0
Ordered i [] = Unit
Ordered i ((o, p) ∷ ps) = (index o ≡ i) × Misses p ps × Ordered (i + 1) ps

pub index-from_index : (i : ℕ) → i < 64 → index (from_index i) ≡ i
unfolding index from_index
index-from_index i h =
    let back = bit_or_disjoint 3 (i / 8 % 256) (i % 8) (omega arith) in ground arith

apart :
    (r : RegionPos) (i j : ℕ)
    → i < 64
    → j < 64
    → i < j
    → same_chunk (Regions.chunk r (from_index j)) (Regions.chunk r (from_index i)) ≡ false
unfolding Regions.chunk from_index
apart r i j hi hj lt = ground (
  arith,
  shl_or r.x (i % 8) (omega arith),
  shl_or r.x (j % 8) (omega arith),
  shl_or r.y (i / 8 % 256) (omega arith),
  shl_or r.y (j / 8 % 256) (omega arith),
)

Misses-later :
    (r : RegionPos) (i j n : ℕ)
    → i < j
    → j + n ≤ 64
    → Misses (Regions.chunk r (from_index i)) (Regions.positions_from r j n)
unfolding Regions.positions_from
Misses-later r i j zero lt le = tt
Misses-later r i j (suc n) lt le = (
  apart r i j (omega arith) (omega arith) lt,
  Misses-later r i (j + 1) n (omega arith) (omega arith),
)

positions_from-Ordered :
    (r : RegionPos) (i n : ℕ) → i + n ≤ 64 → Ordered i (Regions.positions_from r i n)
unfolding Regions.positions_from
positions_from-Ordered r i zero le = tt
positions_from-Ordered r i (suc n) le = (
  index-from_index i (omega arith),
  Misses-later r i (i + 1) n (omega arith) (omega arith),
  positions_from-Ordered r (i + 1) n (omega arith),
)

length-positions_from : (r : RegionPos) (i n : ℕ) → length (Regions.positions_from r i n) ≡ n
unfolding Regions.positions_from
length-positions_from r i zero = refl
length-positions_from r i (suc n) = ap suc (length-positions_from r (i + 1) n)

pub chunk_positions-Ordered : (r : RegionPos) → Ordered 0 (Regions.chunk_positions r)
unfolding Regions.chunk_positions
chunk_positions-Ordered r = positions_from-Ordered r 0 64 (omega arith)

pub length-chunk_positions : (r : RegionPos) → length (Regions.chunk_positions r) ≡ 64
unfolding Regions.chunk_positions
length-chunk_positions r = length-positions_from r 0 64
