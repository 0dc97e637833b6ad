-- ===== src/Coords/Ray.antt =====
-- `ray_cells` (crates/fallingsand_core/src/coords.rs): the cells that a segment passes, one axis at
-- a time. The captured `i64` variables are the fields of a state, and `next` is the closure.
mod Steps
mod Balance
mod Walk
mod Tests
pub use Steps.{Ray}
unfoldable pub use Steps.{start_ray, next, collect, ray_cells}
pub use Walk.*
