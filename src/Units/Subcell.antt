-- ===== src/Units/Subcell.antt =====
-- `Subcell` (crates/fallingsand_core/src/subcell.rs): 1024 units make a cell. A value is the integer of
-- its `i64`; sums, products and `abs` wrap as its do in a release build, and the conversions of
-- floating point are left out.
use fallingsand.Prelude.{
  ℕ, ◌+◌, ◌-◌, ◌*◌, ◌/◌, ◌<◌, ◌≤◌, ◌≡◌, ap, ◌∙◌, arith, ltb→lt, ltb→ge, leb→le, leb→lt,
  if◌then◌else◌, Bool-cases, inl, inr,
}
use fallingsand.Prelude.Int.{
  ℤ, pos, negsuc, ◌+ℤ◌, ◌-ℤ◌, ◌*ℤ◌, magnitude, pos_part, neg_part, min_ℤ, max_ℤ, ltb_ℤ, leb_ℤ,
  int_laws,
}
use fallingsand.Prelude.Words.{as_i32, as_i64, as_i32_fits, as_i64_fits}
use fallingsand.Math.{round_div, tick_rate, subcell_units_per_cell}

abbrev pub Subcell : Type 0
Subcell = ℤ

-- `cell as i64) << SUBCELL_BITS`.
unfoldable pub from_cell : ℤ → Subcell
from_cell cell = cell *ℤ pos subcell_units_per_cell

-- `>>` on a signed value rounds down.
abbrev pub shifted : ℤ → ℤ
shifted (pos n) = pos (n / subcell_units_per_cell)
shifted (negsuc n) = negsuc (n / subcell_units_per_cell)

unfoldable pub floor_cell : Subcell → ℤ
unfolding as_i32
floor_cell v = as_i32 (shifted v)

unfoldable pub round_cells : Subcell → ℤ
unfolding as_i32 round_div
round_cells v = as_i32 (round_div v subcell_units_per_cell)

unfoldable pub from_cells_per_second_squared : ℤ → Subcell
unfolding as_i64 round_div
from_cells_per_second_squared a =
    as_i64 (round_div (a *ℤ pos subcell_units_per_cell) (tick_rate * tick_rate))

unfoldable pub abs : Subcell → Subcell
unfolding as_i64
abs v = as_i64 (pos (magnitude v))

unfoldable pub times : Subcell → ℤ → Subcell
unfolding as_i64
times v n = as_i64 (v *ℤ n)

unfoldable pub per_substep : Subcell → ℕ → Subcell
unfolding as_i64 round_div
per_substep v substeps = as_i64 (round_div v substeps)

unfoldable pub approach : Subcell → Subcell → Subcell → Subcell
unfolding as_i64
approach v target delta =
    if ltb_ℤ v target
    then min_ℤ (as_i64 (v +ℤ delta)) target
    else max_ℤ (as_i64 (v -ℤ delta)) target

abbrev pub distance : ℤ → ℤ → ℕ
distance a b = magnitude (a -ℤ b)

distance_parts :
    (a b : ℤ)
    → let m = pos_part a + neg_part b in
      let n = pos_part b + neg_part a in distance a b ≡ (m - n) + (n - m)
unfolding ◌-ℤ◌
distance_parts a b = ground arith

sum-le : (v : ℤ) (delta : ℕ) → magnitude (v +ℤ pos delta) ≤ magnitude v + delta
unfolding ◌+ℤ◌
sum-le v delta = ground arith

difference-le : (v : ℤ) (delta : ℕ) → magnitude (v -ℤ pos delta) ≤ magnitude v + delta
unfolding ◌-ℤ◌
difference-le v delta = ground arith

-- Where value and step together stay within the `i64`, approaching a target by a step that is not negative
-- leaves the distance less that step, or none: it never passes the target.
pub approach-distance :
    (v target : Subcell) (delta : ℕ)
    → magnitude v + delta < 9_223_372_036_854_775_808
    → distance (approach v target (pos delta)) target ≡ distance v target - delta
unfolding approach
approach-distance v target delta fits =
    let here = distance_parts v target in
    let up = v +ℤ pos delta in
    let down = v -ℤ pos delta in
    let up_fits = as_i64_fits up (omega (arith, sum-le v delta, fits)) in
    let down_fits = as_i64_fits down (omega (arith, difference-le v delta, fits)) in
    elim (Bool-cases (ltb_ℤ v target)) [
      | inl h ↦
          let below = ltb→lt (pos_part v + neg_part target) (pos_part target + neg_part v) h in
          elim (Bool-cases (leb_ℤ up target)) [
            | inl k ↦
                let under =
                  leb→le (pos_part up + neg_part target) (pos_part target + neg_part up) k in
                rw (approach, h, up_fits, k)
                  (omega (int_laws, here, distance_parts up target, below, under))
            | inr k ↦
                let over =
                  leb→lt (pos_part up + neg_part target) (pos_part target + neg_part up) k in
                rw (approach, h, up_fits, k)
                  (omega (int_laws, here, distance_parts target target, below, over))
          ]
      | inr h ↦
          let above = ltb→ge (pos_part v + neg_part target) (pos_part target + neg_part v) h in
          elim (Bool-cases (leb_ℤ down target)) [
            | inl k ↦
                let under =
                  leb→le (pos_part down + neg_part target) (pos_part target + neg_part down) k in
                rw (approach, h, down_fits, k)
                  (omega (int_laws, here, distance_parts target target, above, under))
            | inr k ↦
                let over =
                  leb→lt (pos_part down + neg_part target) (pos_part target + neg_part down) k in
                rw (approach, h, down_fits, k)
                  (omega (int_laws, here, distance_parts down target, above, over))
          ]
    ]

shifted_inside :
    (cell : ℤ) (inside : ℕ)
    → inside < subcell_units_per_cell
    → shifted (cell *ℤ pos 1_024 +ℤ pos inside) ≡ cell
unfolding ◌*ℤ◌ ◌+ℤ◌
shifted_inside (pos n) inside h = ground arith
shifted_inside (negsuc n) inside h = ground arith

-- Every unit from the left edge of an `i32` cell to before that of the next is in that cell.
pub floor_cell-from_cell :
    (cell : ℤ) (inside : ℕ)
    → magnitude cell < 2_147_483_648
    → inside < subcell_units_per_cell
    → floor_cell (from_cell cell +ℤ pos inside) ≡ cell
unfolding floor_cell from_cell
floor_cell-from_cell cell inside h lt =
    ap as_i32 (shifted_inside cell inside lt) ∙ as_i32_fits cell h
