-- ===== src/Body/Rotation.antt =====
-- Rotations of a body's cells (crates/fallingsand_sim/src/body/rotation.rs).
pub mod Defs
pub mod Bounds
pub mod Injective
mod Tests
unfoldable pub use Defs.*
