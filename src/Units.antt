-- ===== src/Units.antt =====
-- Time and lengths: the calendar (crates/fallingsand_core/src/calendar.rs) and fractions of a cell
-- (crates/fallingsand_core/src/subcell.rs).
pub mod Calendar
pub mod Subcell
mod Tests
