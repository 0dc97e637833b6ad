-- ===== src/Body/Rotation/Bounds.antt =====
-- The sizes of what a rotation computes.
use fallingsand.Prelude.{
  ℕ, zero, suc, ◌+◌, ◌*◌, ◌/◌, ◌%◌, ◌<◌, ◌≤◌, ◌≡◌, refl, arith, leb, ◌&&◌, length, true, some, List,
  [], ◌∷◌, get_elem?, Bool,
}
use fallingsand.Prelude.Int.{
  ℤ, pos, negsuc, ◌+ℤ◌, ◌-ℤ◌, ◌*ℤ◌, neg, neg_ℕ, pos_part, neg_part, magnitude, int_laws,
  eq_of_parts,
}
use fallingsand.Prelude.Words.{as_i32_fits, as_i64_fits}
use fallingsand.Math.{round_div}
use fallingsand.Math.Range.{div_lt_of_mul}
use fallingsand.Body.Rotation.Defs.{
  round_shear, turned, sheared, decompose, residual_shears, shears, rotate_offset,
}

magnitude_parts : (a : ℤ) → magnitude a ≡ pos_part a + neg_part a
magnitude_parts (pos n) = omega arith
magnitude_parts (negsuc n) = omega arith

pub magnitude-+ℤ : (a b : ℤ) → magnitude (a +ℤ b) ≤ magnitude a + magnitude b
unfolding ◌+ℤ◌
magnitude-+ℤ a b = ground arith

pub magnitude--ℤ : (a b : ℤ) → magnitude (a -ℤ b) ≤ magnitude a + magnitude b
unfolding ◌-ℤ◌
magnitude--ℤ a b = ground arith

pub magnitude-*ℤ : (a b : ℤ) → magnitude (a *ℤ b) ≡ magnitude a * magnitude b
unfolding ◌*ℤ◌
magnitude-*ℤ (pos a) (pos b) = ground arith
magnitude-*ℤ (pos a) (negsuc b) = ground arith
magnitude-*ℤ (negsuc a) (pos b) = ground arith
magnitude-*ℤ (negsuc a) (negsuc b) = ground arith

magnitude-neg : (a : ℤ) → magnitude (neg a) ≡ magnitude a
magnitude-neg (pos zero) = refl
magnitude-neg (pos (suc n)) = refl
magnitude-neg (negsuc n) = refl

magnitude-neg_ℕ : (n : ℕ) → magnitude (neg_ℕ n) ≡ n
magnitude-neg_ℕ zero = refl
magnitude-neg_ℕ (suc n) = refl

nearest_le : (n d m : ℕ) → 0 < d → n ≤ d * m → (n + d / 2) / d ≤ m
nearest_le n d m hd h =
    let e = div_lt_of_mul (n + d / 2) d (m + 1) (grind arith) in omega (arith, e)

pub round_div_le : (n : ℤ) (d m : ℕ) → 0 < d → magnitude n ≤ d * m → magnitude (round_div n d) ≤ m
unfolding round_div
round_div_le (pos n) d m hd h = nearest_le n d m hd h
round_div_le (negsuc n) d m hd h =
    rw (magnitude-neg_ℕ ((suc n + d / 2) / d)) (nearest_le (suc n) d m hd h)

mul_le : (c e m : ℕ) → c ≤ 65_536 → e ≤ 1_024 * m → c * e ≤ 67_108_864 * m
mul_le c e m hc he = grind arith

-- A shear moves a cell by no more than its distance from the centre.
pub round_shear_le :
    (c y center : ℤ) (m : ℕ)
    → magnitude c ≤ 65_536
    → magnitude y * 1_024 + magnitude center ≤ 1_024 * m
    → m < 9_223_372_036_854_775_808
    → magnitude (round_shear c y center) ≤ m
unfolding round_shear
round_shear_le c y center m hc h hm =
    let arm = y *ℤ pos 1_024 -ℤ center in
    let arm_le : magnitude arm ≤ 1_024 * m =
      omega (arith, magnitude--ℤ (y *ℤ pos 1_024) center, magnitude-*ℤ y (pos 1_024), h) in
    let product_le : magnitude (c *ℤ arm) ≤ 67_108_864 * m =
      rw (magnitude-*ℤ c arm) (mul_le (magnitude c) (magnitude arm) m hc arm_le) in
    let rounded = round_div_le (c *ℤ arm) 67_108_864 m (omega arith) product_le in
    rw (as_i64_fits (round_div (c *ℤ arm) 67_108_864) (omega (arith, rounded, hm))) rounded

abbrev pub Within : ℕ → ℤ × ℤ → Type 0
Within m (x, y) = (magnitude x ≤ m) × (magnitude y ≤ m)

turned-Within : (m n : ℕ) (p : ℤ × ℤ) → Within m p → Within m (turned n p)
unfolding turned
turned-Within m zero (x, y) h = h
turned-Within m (suc n) (x, y) (h, k) =
    turned-Within m n (neg y, x) (omega (arith, magnitude-neg y), h)

-- Sixteen million cells, and the same in units of a cell.
abbrev pub reach : ℕ
reach = 16_777_216

abbrev pub reach_units : ℕ
reach_units = 17_179_869_184

sheared-Within :
    (shear p center : ℤ × ℤ)
    → Within 65_536 shear
    → Within reach p
    → Within reach_units center
    → Within (10 * reach) (sheared shear p center)
unfolding sheared
sheared-Within (t, s) (x, y) (cx, cy) (ht, hs) (hx, hy) (hcx, hcy) =
    let dx = round_shear t y cy in
    let x1 = x -ℤ dx in
    let dx_le = round_shear_le t y cy (2 * reach) ht (omega (arith, hy, hcy)) (omega arith) in
    let x1_le : magnitude x1 ≤ 3 * reach = omega (arith, magnitude--ℤ x dx, dx_le, hx) in
    let dy = round_shear s x1 cx in
    let y1 = y +ℤ dy in
    let dy_le = round_shear_le s x1 cx (4 * reach) hs (omega (arith, x1_le, hcx)) (omega arith) in
    let y1_le : magnitude y1 ≤ 5 * reach = omega (arith, magnitude-+ℤ y dy, dy_le, hy) in
    let d = round_shear t y1 cy in
    let d_le = round_shear_le t y1 cy (6 * reach) ht (omega (arith, y1_le, hcy)) (omega arith) in
    (omega (arith, magnitude--ℤ x1 d, d_le, x1_le), omega (arith, y1_le))

within : ℤ × ℤ → Bool
within (x, y) = leb (magnitude x) 65_536 && leb (magnitude y) 65_536

all_within : List (ℤ × ℤ) → Bool
all_within [] = true
all_within (p ∷ ps) = within p && all_within ps

looked :
    (ps : List (ℤ × ℤ)) (i : ℕ)
    → all_within ps ≡ true
    → i < length ps
    → (p : ℤ × ℤ) × (get_elem? ps i ≡ some p) × Within 65_536 p
unfolding all_within within
looked [] i h lt = absurd (omega arith)
looked ((x, y) ∷ ps) zero h lt = ((x, y), refl, (ground arith, ground arith))
looked ((x, y) ∷ ps) (suc i) h lt = looked ps i (ground arith) (omega arith)

table_within : (all_within shears ≡ true) × (length shears ≡ 65)
unfolding all_within within shears
table_within = (refl, refl)

-- The rest of an angle is at most 32 steps either way.
residual_index : (step : ℕ) → (decompose step).1 +ℤ pos 32 ≡ pos ((step + 32) % 64)
unfolding decompose
residual_index step =
    eq_of_parts ((decompose step).1 +ℤ pos 32) (pos ((step + 32) % 64)) (omega int_laws)

pub shear_found :
    (step : ℕ)
    → (shear : ℤ × ℤ) × (residual_shears (decompose step).1 ≡ some shear) × Within 65_536 shear
unfolding residual_shears
shear_found step =
    let (p, e, h) =
      looked shears ((step + 32) % 64) table_within.0 (omega (arith, table_within.1)) in
    (p, rw (residual_shears, residual_index step) e, h)

-- With the shears of the angle, a cell and a centre within sixteen million cells: no cast cuts the result.
pub rotate_offset_exact :
    (step : ℕ) (center : ℤ × ℤ) (dx dy : ℤ) (shear : ℤ × ℤ)
    → residual_shears (decompose step).1 ≡ some shear
    → Within 65_536 shear
    → Within reach_units center
    → Within reach (dx, dy)
    → rotate_offset step center dx dy
      ≡ some (sheared shear (turned (decompose step).0 (dx, dy)) (turned (decompose step).0 center))
unfolding rotate_offset
rotate_offset_exact step center dx dy shear e hs hc h =
    let n = (decompose step).0 in
    let out = sheared shear (turned n (dx, dy)) (turned n center) in
    let fits =
      sheared-Within shear (turned n (dx, dy)) (turned n center) hs
        (turned-Within reach n (dx, dy) h) (turned-Within reach_units n center hc) in
    rw
      (
        rotate_offset,
        e,
        as_i32_fits out.0 (omega (arith, fits)),
        as_i32_fits out.1 (omega (arith, fits)),
      )
      refl

-- For every angle, and a cell and a centre within sixteen million cells, the table has shears for the angle,
-- and `rotate_offset` returns the cell turned by quarters and sheared by them, a value its casts to `i32`
-- leave as it is, within ten times as far.
pub rotate_offset_total :
    (step : ℕ) (center : ℤ × ℤ) (dx dy : ℤ)
    → Within reach_units center
    → Within reach (dx, dy)
    → (shear : ℤ × ℤ) × (residual_shears (decompose step).1 ≡ some shear)
      × (rotate_offset step center dx dy
          ≡ some (
              sheared shear
                (turned (decompose step).0 (dx, dy))
                (turned (decompose step).0 center)))
      × Within
          (10 * reach)
          (sheared shear (turned (decompose step).0 (dx, dy)) (turned (decompose step).0 center))
rotate_offset_total step center dx dy hc h =
    let (shear, e, hs) = shear_found step in
    let n = (decompose step).0 in
    (
      shear,
      e,
      rotate_offset_exact step center dx dy shear e hs hc h,
      sheared-Within shear (turned n (dx, dy)) (turned n center) hs
          (turned-Within reach n (dx, dy) h) (turned-Within reach_units n center hc),
    )
