-- ===== src/Actions.antt =====
-- The slot actions of a player (crates/fallingsand_server/src/inventory.rs, with `SlotAction` of
-- crates/fallingsand_protocol/src/messages.rs). The recipes, the number of items and their limits
-- are generated at build time and are parameters.
mod Tests
mod Apply
pub mod Crafting
pub mod QuickMove
pub mod Full
pub mod Safety
unfoldable pub use Apply.*
