-- ===== src/Items/Inventories.antt =====
-- `impl Inventory` (crates/fallingsand_core/src/item.rs).
mod Tests
mod Slots
pub mod Insert
pub mod Room
pub mod Outside
pub mod Limits
pub mod Taking
mod Remove
mod Click
unfoldable pub use Slots.*
unfoldable pub use Remove.*
unfoldable pub use Click.*
