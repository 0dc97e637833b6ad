-- ===== src/Sim.antt =====
-- The simulation of cells (crates/fallingsand_sim/src).
mod Tests
pub mod Content
pub mod Salts
pub mod Window
pub mod Motion
pub mod Gas
pub mod Liquid
pub mod Powder
pub mod Chemistry
pub mod Rules
pub mod Known
pub mod World
pub mod Kernel
