-- ===== src/Sim/Motion/Speed.antt =====
-- The arithmetic of velocities (crates/fallingsand_sim/src/motion.rs). A direction is -1, 0 or 1.
use fallingsand.Prelude.{
  ℕ, ◌+◌, ◌-◌, ◌*◌, ◌/◌, ◌%◌, ◌^◌, min, max, Bool, true, false, not, ◌||◌, leb, if◌then◌else◌,
}
use fallingsand.Prelude.Int.{
  ℤ, pos, negsuc, magnitude, signed_as, signum, quot, min_ℤ, ltb_ℤ, ◌+ℤ◌, ◌*ℤ◌,
}
use fallingsand.Prelude.Root.{isqrt}
use fallingsand.Prelude.Words.{le_i32, to_i32, as_i32}
use fallingsand.Coords.{CellPos}
use fallingsand.Coords.Cells
use fallingsand.Cell.{MaterialId}
use fallingsand.Material.{Phase, liquid_phase, Q16}
use fallingsand.Material as Q
use fallingsand.Math.{Rng, draw, bit, bits}
use fallingsand.Sim.Content.{Content}

-- 600 cells per second and second, over a tick of 1/60 s, in units of 1/1024 cell.
abbrev pub gravity_dv : ℕ
gravity_dv = 171

-- 7.5 cells per second.
abbrev pub settle : ℕ
settle = 128

abbrev pub agitated : ℕ
agitated = 342

abbrev pub max_speed_cells : ℕ
max_speed_cells = 31

abbrev pub max_component_raw : ℕ
max_component_raw = 31_744

-- `pos.translated(dx, dy)`.
unfoldable pub moved_by : CellPos → ℤ → ℤ → CellPos
unfolding Cells.translated
moved_by p dx dy = Cells.translated p (to_i32 dx) (to_i32 dy)

unfoldable pub divide_signed : ℤ → ℕ → ℤ
divide_signed numerator denominator =
    signed_as numerator ((magnitude numerator + denominator / 2) / denominator)

unfoldable pub vector_length : ℤ → ℤ → ℕ
vector_length vx vy = isqrt (magnitude vx * magnitude vx + magnitude vy * magnitude vy)

-- The generator after the draw, which is taken where the velocity is 0.
unfoldable pub prefer_side : ℤ → Rng → Rng × ℤ
unfolding draw bit
prefer_side vx rng = elim vx [
  | pos ℕ.zero ↦ let (rng', h) = draw rng in (rng', if bit h then pos 1 else negsuc 0)
  | pos (ℕ.suc n) ↦ (rng, pos 1)
  | negsuc n ↦ (rng, negsuc 0)
]

-- Whole cells, and one more with the chance of the fraction; the sign of no velocity is 0, and so is
-- the number of its cells. The smallest `i32` is its own `abs`.
unfoldable pub step_cells : ℤ → Rng → Rng × ℤ
unfolding draw bits as_i32
step_cells velocity rng =
    let (rng', h) = draw rng in
    let size = as_i32 (pos (magnitude velocity)) in
    let fraction = signed_as size (magnitude size % 1024) in
    let more = if ltb_ℤ (pos (bits h 10)) fraction then 1 else 0 in
    (rng', min_ℤ (quot size 1024 +ℤ pos more) (pos max_speed_cells) *ℤ signum velocity)

-- `contrast.isqrt()` and `(1 - contrast).isqrt()` as fractions of the retention.
unfoldable pub density_scatter : Q16 → ℕ → ℕ → Q16 × Q16
unfolding Q.mul
density_scatter retention mover_mass displaced_mass =
    let delta = max mover_mass displaced_mass - min mover_mass displaced_mass in
    let contrast = delta * 2 ^ 32 / max mover_mass displaced_mass in
    (Q.mul retention (isqrt contrast), Q.mul retention (isqrt (2 ^ 32 - contrast)))

module _ (content : Content) where
  abbrev pub is_liquid : MaterialId → Bool
  is_liquid m = elim (content.phase m) [ liquid_phase ↦ true | _ ↦ false ]

  -- `content::density_milli(material).max(1)`.
  abbrev pub mass : MaterialId → ℕ
  mass m = elim (content.density_milli m) [ pos n ↦ max n 1 | negsuc n ↦ 1 ]

  unfoldable pub liquid_wake_keep : MaterialId → MaterialId → Q16
  unfolding Q.min
  liquid_wake_keep mover displaced =
      if is_liquid mover
      then Q.min (content.liquid_impact displaced) (content.liquid_impact mover)
      else content.liquid_impact displaced

  unfoldable pub density_exchange_speed : MaterialId → MaterialId → CellPos → CellPos → ℕ
  density_exchange_speed mover displaced from to =
      let m = mass mover in
      let d = mass displaced in
      if not (is_liquid mover) || not (is_liquid displaced) || le_i32 from.y to.y || leb m d
      then 0
      else isqrt (2 * gravity_dv * 1024 * (m - d) * d / (m * (m + d)))
