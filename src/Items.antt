-- ===== src/Items.antt =====
-- Items and stacks (crates/fallingsand_core/src/item.rs) and what a server does with them
-- (crates/fallingsand_server/src/inventory.rs). The item table is generated at build time, so the
-- limits of stacks are a parameter.
mod Types
pub mod Inventories
unfoldable pub use Types.*
