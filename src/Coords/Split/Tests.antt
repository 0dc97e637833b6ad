-- ===== src/Coords/Split/Tests.antt =====
-- Positions at concrete coordinates.
use fallingsand.Prelude.{◌≡◌, refl, arith}
use fallingsand.Coords.Types.{CellPos, ChunkPos, RegionPos, CellOffset, ChunkOffset, InChunk}
use fallingsand.Coords.Cells
use fallingsand.Coords.Chunks
use fallingsand.Coords.Split.{base_cell-chunk}

-- The cell (-1, 65).
abbrev corner : CellPos
corner = record { x = 4_294_967_295; y = 65 }

abbrev corner_chunk : ChunkPos
corner_chunk = record { x = 4_294_967_295; y = 1 }

corner-chunk : Cells.chunk corner ≡ corner_chunk
unfolding Cells.chunk
corner-chunk = refl

base_cell-chunk_example :
    InChunk (Cells.offset corner)
    × (Cells.translated
          (Chunks.base_cell (Cells.chunk corner))
          (Cells.offset corner).x
          (Cells.offset corner).y
        ≡ corner)
base_cell-chunk_example = base_cell-chunk corner (omega arith)

abbrev last_offset : CellOffset
last_offset = record { x = 63; y = 1 }

abbrev west : RegionPos
west = record { x = 4_294_967_295; y = 0 }

abbrev seventh : ChunkOffset
seventh = record { x = 7; y = 2 }
