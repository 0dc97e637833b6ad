-- ===== src/Body/Island.antt =====
-- The search for an island of terrain that nothing supports
-- (crates/fallingsand_sim/src/body/island.rs).
pub mod Defs
pub mod Region
pub mod Round
pub mod Search
pub mod Found
pub mod Sorted
pub mod Decides
mod Tests
unfoldable pub use Defs.*
