-- ===== src/Sim/Window.antt =====
-- `SimWindow` (crates/fallingsand_sim/src/window.rs): four by four chunks that one block of the kernel
-- may read and write.
pub mod State
pub mod Cells
pub mod Writes
pub mod Count
pub mod Keep
unfoldable pub use State.*
