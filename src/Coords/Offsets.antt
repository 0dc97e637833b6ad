-- ===== src/Coords/Offsets.antt =====
-- Offsets as indices into a chunk's cells and a region's chunks
-- (crates/fallingsand_core/src/coords.rs).
pub mod Cell
pub mod Chunk
