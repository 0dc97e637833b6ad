-- ===== src/Chunk.antt =====
-- A chunk of 64 by 64 cells (crates/fallingsand_core/src/chunk.rs), its dirty rectangles, and the fog
-- masks of crates/fallingsand_core/src/fog.rs.
pub mod Rect
pub mod Fog
pub mod State
pub mod Cover
pub mod Clear
pub mod Tick
