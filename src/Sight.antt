-- ===== src/Sight.antt =====
-- What a player's eye sees (crates/fallingsand_server/src/fog.rs): a shadow cast over texels.
pub mod Cast
pub mod Marks
pub mod Lit
mod Tests
unfoldable pub use Cast.*
