-- ===== src/Sim/Motion.antt =====
-- `crates/fallingsand_sim/src/motion.rs`: how a moving cell travels, and what it does to the cells that
-- it meets. Velocities have 16 bits, so no `i32` or `i64` between them overflows: those are integers.
pub mod Speed
pub mod Traverse
pub mod Exchange
pub mod Move
pub mod Keep
pub mod Conserve
pub mod Rounds
pub mod Travel
pub mod Reach
