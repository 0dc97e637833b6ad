-- ===== src/Chunk/Fog/Texels/Tests.antt =====
-- Texels on concrete inputs.
use fallingsand.Coords.{CellPos, ChunkPos}

-- (-2, 70).
abbrev cell : CellPos
cell = record { x = 4_294_967_294; y = 70 }

abbrev place : ChunkPos
place = record { x = 4_294_967_295; y = 1 }
