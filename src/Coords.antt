-- ===== src/Coords.antt =====
-- Positions of cells, chunks and regions (crates/fallingsand_core/src/coords.rs): the types, the
-- conversions between them, their offsets as array indices, rectangles, and rays.
mod Types
pub mod Cells
pub mod Chunks
pub mod Regions
pub mod Offsets
pub mod Rects
pub mod Ray
pub mod Split
unfoldable pub use Types.*
