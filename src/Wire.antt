-- ===== src/Wire.antt =====
-- `crates/fallingsand_protocol/src/wire.rs`: messages with an optional compression, and the cells of a
-- chunk as one entry, as indices into a palette, or one by one. A byte is a number.
pub mod Result
pub mod Message
pub mod Pack
pub mod Cells
pub mod Bits
pub mod Unpack
pub mod Palette
pub mod RoundTrip
pub mod Accepted
mod Tests
