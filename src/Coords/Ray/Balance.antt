-- ===== src/Coords/Ray/Balance.antt =====
-- The balance that the error term of a ray keeps, and what its test says of the steps left.
use fallingsand.Prelude.{
  ℕ, zero, suc, ◌+◌, ◌*◌, ◌≤◌, ◌<◌, ◌≡◌, ◌↔◌, ◌⊎◌, arith, true, false, ltb→lt, ltb→ge,
}
use fallingsand.Prelude.Int.{ℤ, pos, negsuc, pos_part, neg_part, ◌+ℤ◌, eqb_ℤ, +ℤ_parts, -ℤ_parts}
use fallingsand.Coords.Ray.Steps.{Ray, goes_x, finished, advance_x, advance_y}

-- From `v`, `n` steps of the sign `s` lead to `goal`.
abbrev pub Leads : ℤ → ℤ → ℤ → ℕ → Type 0
Leads v s goal n =
    (s ≡ pos 1) × (pos_part v + n + neg_part goal ≡ pos_part goal + neg_part v)
    ⊎ (s ≡ negsuc 0) × (pos_part v + neg_part goal ≡ pos_part goal + n + neg_part v)

-- The two ends are `width` and `height` apart, `a` and `b` steps are left along the axes.
pub record Inv (width height a b : ℕ) (r : Ray) : Type 0 where
  pub dx_eq : (pos_part r.dx ≡ width) × (neg_part r.dx ≡ 0)
  pub dy_eq : (pos_part r.dy ≡ 0) × (neg_part r.dy ≡ height)
  pub a_le : a ≤ width
  pub b_le : b ≤ height
  pub along_x : Leads r.x r.sx r.ex a
  pub along_y : Leads r.y r.sy r.ey b
  pub balance : pos_part r.error + height + b * width ≡ neg_part r.error + width + a * height
  pub error_hi : pos_part r.error ≤ 2 * (width + height) + neg_part r.error
  pub error_lo : neg_part r.error ≤ 2 * (width + height) + pos_part r.error

Leads-step : (v s goal : ℤ) (n : ℕ) → Leads v s goal (suc n) → Leads (v +ℤ s) s goal n
Leads-step v s goal n h = ground (arith, +ℤ_parts v s)

pub Leads-zero : (v s goal : ℤ) (n : ℕ) → Leads v s goal n → (eqb_ℤ v goal ≡ true) ↔ (n ≡ 0)
Leads-zero v s goal n h = ground arith

-- The closure stops exactly when no step is left.
pub finished_iff : {w h a b : ℕ} (r : Ray) → Inv w h a b r → (finished r ≡ true) ↔ (a + b ≡ 0)
unfolding finished
finished_iff r i =
    ground (arith, Leads-zero r.x r.sx r.ex _ i.along_x, Leads-zero r.y r.sy r.ey _ i.along_y)

-- The test, read as an inequality between numbers.
goes_x_parts :
    {w h a b : ℕ} (r : Ray)
    → Inv w h a b r
    → (goes_x r ≡ true → w + 4 * neg_part r.error < 4 * pos_part r.error + h)
      × (goes_x r ≡ false → 4 * pos_part r.error + h ≤ w + 4 * neg_part r.error)
unfolding goes_x
goes_x_parts r i =
    let twice = r.error +ℤ r.error in
    let e1 = +ℤ_parts r.error r.error in
    let e2 = -ℤ_parts r.dx twice in
    let e3 = -ℤ_parts twice r.dy in
    (
      λ t. omega (arith, ltb→lt _ _ t, i.dx_eq, i.dy_eq),
      λ t. omega (arith, ltb→ge _ _ t, i.dx_eq, i.dy_eq),
    )

-- A step along the x axis is taken only where one is left, and so for the y axis.
pub x_left : {w h a b : ℕ} (r : Ray) → Inv w h a b r → 0 < a + b → goes_x r ≡ true → 0 < a
x_left {a = zero} {b = zero} r i left t = omega arith
x_left {a = zero} {b = suc b} r i left t = omega (arith, (goes_x_parts r i).0 t, i.balance, i.b_le)
x_left {a = suc a} r i left t = omega arith

pub y_left : {w h a b : ℕ} (r : Ray) → Inv w h a b r → 0 < a + b → goes_x r ≡ false → 0 < b
y_left {b = suc b} r i left t = omega arith
y_left {a = zero} {b = zero} r i left t = omega arith
y_left {a = suc a} {b = zero} r i left t = omega (arith, (goes_x_parts r i).1 t, i.balance, i.a_le)

pub Inv-advance_x :
    {w h a b : ℕ} (r : Ray) → Inv w h (suc a) b r → goes_x r ≡ true → Inv w h a b (advance_x r)
unfolding advance_x
Inv-advance_x {w} {h} {a} {b} r i t =
    let e = +ℤ_parts r.error r.dy in
    let g = (goes_x_parts r i).0 t in
    record {
      dx_eq = i.dx_eq;
      dy_eq = i.dy_eq;
      a_le = omega (arith, i.a_le);
      b_le = i.b_le;
      along_x = Leads-step r.x r.sx r.ex a i.along_x;
      along_y = i.along_y;
      balance = omega (arith, i.balance, i.dy_eq);
      error_hi = omega (arith, i.error_hi, i.dy_eq);
      error_lo = omega (arith, i.dy_eq);
    }

pub Inv-advance_y :
    {w h a b : ℕ} (r : Ray) → Inv w h a (suc b) r → goes_x r ≡ false → Inv w h a b (advance_y r)
unfolding advance_y
Inv-advance_y {w} {h} {a} {b} r i t =
    let e = +ℤ_parts r.error r.dx in
    let g = (goes_x_parts r i).1 t in
    record {
      dx_eq = i.dx_eq;
      dy_eq = i.dy_eq;
      a_le = i.a_le;
      b_le = omega (arith, i.b_le);
      along_x = i.along_x;
      along_y = Leads-step r.y r.sy r.ey b i.along_y;
      balance = omega (arith, i.balance, i.dx_eq);
      error_hi = omega (arith, i.dx_eq);
      error_lo = omega (arith, i.error_lo, i.dx_eq);
    }
