-- ===== src/Body/Rotation/Defs.antt =====
-- Rotations of a body's cells (crates/fallingsand_sim/src/body/rotation.rs): an angle is one of 256 steps,
-- that is quarter turns and a rest of at most 32 steps, which is done by three shears.
use fallingsand.Prelude.{
  ℕ, zero, suc, ◌+◌, ◌*◌, ◌/◌, ◌%◌, Option, none, some, List, [], ◌∷◌, get_elem?,
}
use fallingsand.Prelude.Int.{ℤ, pos, negsuc, ◌+ℤ◌, ◌-ℤ◌, ◌*ℤ◌, neg, quot, clamp, max_ℤ, pos_part}
use fallingsand.Prelude.Words.{as_i32, as_i64}
use fallingsand.Math.{round_div}

-- `SHEARS`: `negsuc n` is -(n + 1).
unfoldable pub shears : List (ℤ × ℤ)
shears =
    (negsuc 27_145, negsuc 46_340)
    ∷ (negsuc 26_207, negsuc 45_189)
    ∷ (negsuc 25_279, negsuc 44_010)
    ∷ (negsuc 24_359, negsuc 42_805)
    ∷ (negsuc 23_448, negsuc 41_575)
    ∷ (negsuc 22_545, negsuc 40_319)
    ∷ (negsuc 21_649, negsuc 39_039)
    ∷ (negsuc 20_761, negsuc 37_735)
    ∷ (negsuc 19_879, negsuc 36_409)
    ∷ (negsuc 19_004, negsuc 35_061)
    ∷ (negsuc 18_135, negsuc 33_691)
    ∷ (negsuc 17_272, negsuc 32_302)
    ∷ (negsuc 16_415, negsuc 30_892)
    ∷ (negsuc 15_563, negsuc 29_465)
    ∷ (negsuc 14_716, negsuc 28_019)
    ∷ (negsuc 13_873, negsuc 26_557)
    ∷ (negsuc 13_035, negsuc 25_079)
    ∷ (negsuc 12_201, negsuc 23_585)
    ∷ (negsuc 11_371, negsuc 22_077)
    ∷ (negsuc 10_544, negsuc 20_556)
    ∷ (negsuc 9720, negsuc 19_023)
    ∷ (negsuc 8900, negsuc 17_478)
    ∷ (negsuc 8082, negsuc 15_923)
    ∷ (negsuc 7267, negsuc 14_358)
    ∷ (negsuc 6454, negsuc 12_784)
    ∷ (negsuc 5643, negsuc 11_203)
    ∷ (negsuc 4833, negsuc 9615)
    ∷ (negsuc 4025, negsuc 8021)
    ∷ (negsuc 3219, negsuc 6423)
    ∷ (negsuc 2413, negsuc 4820)
    ∷ (negsuc 1608, negsuc 3215)
    ∷ (negsuc 803, negsuc 1607)
    ∷ (pos 0, pos 0)
    ∷ (pos 804, pos 1608)
    ∷ (pos 1609, pos 3216)
    ∷ (pos 2414, pos 4821)
    ∷ (pos 3220, pos 6424)
    ∷ (pos 4026, pos 8022)
    ∷ (pos 4834, pos 9616)
    ∷ (pos 5644, pos 11_204)
    ∷ (pos 6455, pos 12_785)
    ∷ (pos 7268, pos 14_359)
    ∷ (pos 8083, pos 15_924)
    ∷ (pos 8901, pos 17_479)
    ∷ (pos 9721, pos 19_024)
    ∷ (pos 10_545, pos 20_557)
    ∷ (pos 11_372, pos 22_078)
    ∷ (pos 12_202, pos 23_586)
    ∷ (pos 13_036, pos 25_080)
    ∷ (pos 13_874, pos 26_558)
    ∷ (pos 14_717, pos 28_020)
    ∷ (pos 15_564, pos 29_466)
    ∷ (pos 16_416, pos 30_893)
    ∷ (pos 17_273, pos 32_303)
    ∷ (pos 18_136, pos 33_692)
    ∷ (pos 19_005, pos 35_062)
    ∷ (pos 19_880, pos 36_410)
    ∷ (pos 20_762, pos 37_736)
    ∷ (pos 21_650, pos 39_040)
    ∷ (pos 22_546, pos 40_320)
    ∷ (pos 23_449, pos 41_576)
    ∷ (pos 24_360, pos 42_806)
    ∷ (pos 25_280, pos 44_011)
    ∷ (pos 26_208, pos 45_190)
    ∷ (pos 27_146, pos 46_341)
    ∷ []

abbrev pub shear_scale : ℕ
shear_scale = 65_536

abbrev pub cell_units : ℕ
cell_units = 1_024

-- `(quarters, residual_steps)`; the steps are below 2^31, so no cast cuts anything.
unfoldable pub decompose : ℕ → ℕ × ℤ
decompose step =
    let quarters = (step * 4 + 128) / 256 in (quarters % 4, pos step -ℤ pos (quarters * 64))

-- `none` is the panic of an index that is negative or past the table.
unfoldable pub residual_shears : ℤ → Option (ℤ × ℤ)
unfolding shears
residual_shears residual_steps = elim (residual_steps +ℤ pos 32) [
  | pos i ↦ get_elem? shears i
  | negsuc n ↦ none
]

unfoldable pub round_shear : ℤ → ℤ → ℤ → ℤ
unfolding round_div as_i64
round_shear coefficient coordinate center =
    as_i64 (
      round_div (coefficient *ℤ (coordinate *ℤ pos cell_units -ℤ center))
        (shear_scale * cell_units))

-- The loop over the quarter turns.
unfoldable pub turned : ℕ → ℤ × ℤ → ℤ × ℤ
turned zero (x, y) = (x, y)
turned (suc quarters) (x, y) = turned quarters (neg y, x)

-- The three shears, on 64-bit values.
unfoldable pub sheared : ℤ × ℤ → ℤ × ℤ → ℤ × ℤ → ℤ × ℤ
unfolding round_shear
sheared (t, s) (x, y) (center_x, center_y) =
    let x1 = x -ℤ round_shear t y center_y in
    let y1 = y +ℤ round_shear s x1 center_x in (x1 -ℤ round_shear t y1 center_y, y1)

unfoldable pub rotate_offset : ℕ → ℤ × ℤ → ℤ → ℤ → Option (ℤ × ℤ)
unfolding decompose residual_shears turned sheared as_i32
rotate_offset step local_com dx dy =
    let (quarters, residual_steps) = decompose step in
    elim (residual_shears residual_steps) [
      | none ↦ none
      | some shear ↦
          let (x, y) = sheared shear (turned quarters (dx, dy)) (turned quarters local_com) in
          some (as_i32 x, as_i32 y)
    ]

abbrev pub Spin : Type 0
Spin = ℤ

abbrev pub tau_numerator : ℕ
tau_numerator = 710

-- `TURN_UNITS * TAU_DENOMINATOR`.
abbrev pub radians_per_turn : ℕ
radians_per_turn = 1_048_576 * 113

unfoldable pub speed_at : Spin → ℤ → ℤ
unfolding round_div as_i64
speed_at spin lever = as_i64 (round_div (pos tau_numerator *ℤ spin *ℤ lever) radians_per_turn)

unfoldable pub for_speed_at : ℤ → ℤ → Spin
unfolding round_div as_i64
for_speed_at speed lever =
    as_i64
      (round_div (speed *ℤ pos radians_per_turn) (tau_numerator * pos_part (max_ℤ lever (pos 1))))

-- Rust's `/` by a product whose sign is that of `moment`.
unfoldable pub from_angular_impulse : ℤ → ℤ → Spin
unfolding as_i64
from_angular_impulse impulse moment =
    let turned_impulse = impulse *ℤ pos radians_per_turn in
    elim moment [
      | pos zero ↦ pos 0
      | pos (suc m) ↦ as_i64 (quot turned_impulse (suc m * tau_numerator))
      | negsuc m ↦ as_i64 (quot (neg turned_impulse) (suc m * tau_numerator))
    ]

unfoldable pub clamped : Spin → Spin → Spin
clamped spin limit = clamp spin (neg limit) limit

unfoldable pub add : Spin → Spin → Spin
add spin other = spin +ℤ other
