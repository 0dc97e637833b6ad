-- ===== src/Net.antt =====
-- Framing and the closing reason of a connection (crates/fallingsand_net/src/framing.rs).
pub mod Frames
pub mod Closing
mod Tests
