-- ===== src/Store.antt =====
-- Regions of chunks (crates/fallingsand_core/src/region.rs), their bytes in the world file
-- (crates/fallingsand_server/src/persistence/region_codec.rs) and their way into and out of the simulated
-- world (crates/fallingsand_server/src/regions.rs).
pub mod Region
pub mod Codec
pub mod Moves
