-- ===== src/Cell.antt =====
-- The state of a cell (crates/fallingsand_core/src/cell.rs): its material, and four bytes that are a
-- velocity or, under the body flag, the number of the rigid body that it belongs to.
pub mod State
pub mod Flags
pub mod Payload
mod Tests
unfoldable pub use State.*
