-- ===== src/Chunk/Rect.antt =====
-- `DirtyRect` (crates/fallingsand_core/src/chunk.rs); the fields are `u8`.
pub mod Laws
pub mod Defs
unfoldable pub use Defs.*
