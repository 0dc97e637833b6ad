-- ===== src/Chunk/Fog.antt =====
-- `FogMask` (crates/fallingsand_core/src/fog.rs): one bit for each of the 256 texels of a chunk, in
-- 32 bytes.
pub mod Mask
pub mod Bits
pub mod Texels
unfoldable pub use Mask.*
