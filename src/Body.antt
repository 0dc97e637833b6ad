-- ===== src/Body.antt =====
-- Rigid bodies (crates/fallingsand_sim/src/body): the rotations of their cells, and the islands of terrain
-- that break loose and become bodies.
pub mod Rotation
pub mod Island
