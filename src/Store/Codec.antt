-- ===== src/Store/Codec.antt =====
-- A region's bytes in the world file (crates/fallingsand_server/src/persistence/region_codec.rs).
pub mod Defs
pub mod Kept
pub mod RoundTrip
pub mod Accepted
mod Tests
unfoldable pub use Defs.*
