-- ===== src/Sim/Kernel.antt =====
-- `crates/fallingsand_sim/src/kernel.rs`: a tick runs its passes over blocks of two by two chunks, in
-- four phases; the windows of one phase run in parallel.
pub mod Block
pub mod Phase
pub mod Step
pub mod Keep
pub mod Split
pub mod Total
pub mod Order
pub mod Visits
