-- ===== src/Body/Rotation/Injective.antt =====
-- A rotation keeps the cells of a body apart.
use fallingsand.Prelude.{ℕ, zero, suc, ◌≡◌, ◌≢◌, sym, ap, ◌∙◌, some, none, arith}
use fallingsand.Prelude.Int.{ℤ, ◌+ℤ◌, ◌-ℤ◌, neg, pos_part, neg_part, int_laws, eq_of_parts}
use fallingsand.Body.Rotation.Defs.{round_shear, turned, sheared, rotate_offset, decompose}
use fallingsand.Body.Rotation.Bounds.{Within, reach, reach_units, shear_found, rotate_offset_exact}

-ℤ_cancel : (a b c : ℤ) → a -ℤ c ≡ b -ℤ c → a ≡ b
-ℤ_cancel a b c h = eq_of_parts a b (omega (int_laws, ap pos_part h, ap neg_part h))

+ℤ_cancel : (a b c : ℤ) → a +ℤ c ≡ b +ℤ c → a ≡ b
+ℤ_cancel a b c h = eq_of_parts a b (omega (int_laws, ap pos_part h, ap neg_part h))

neg_cancel : (a b : ℤ) → neg a ≡ neg b → a ≡ b
neg_cancel a b h = ground arith

-- Two sums, and two differences, with the same shear.
shear_apart : (f : ℤ → ℤ) (a b u v : ℤ) → u ≡ v → a -ℤ f u ≡ b -ℤ f v → a ≡ b
shear_apart f a b u v e h = -ℤ_cancel a b (f u) (h ∙ ap (λ w. b -ℤ f w) (sym e))

lift_apart : (f : ℤ → ℤ) (a b u v : ℤ) → u ≡ v → a +ℤ f u ≡ b +ℤ f v → a ≡ b
lift_apart f a b u v e h = +ℤ_cancel a b (f u) (h ∙ ap (λ w. b +ℤ f w) (sym e))

-- Each shear is undone by the same shear the other way.
pub sheared_apart :
    (shear p q center : ℤ × ℤ) → sheared shear p center ≡ sheared shear q center → p ≡ q
unfolding sheared
sheared_apart (t, s) (x, y) (x', y') (cx, cy) h =
    let f = λ (w : ℤ). round_shear t w cy in
    let g = λ (w : ℤ). round_shear s w cx in
    let x1 = x -ℤ f y in
    let x1' = x' -ℤ f y' in
    let last = shear_apart f x1 x1' (y +ℤ g x1) (y' +ℤ g x1') (λ i. (h i).1) (λ i. (h i).0) in
    let middle = lift_apart g y y' x1 x1' last (λ i. (h i).1) in
    let first = shear_apart f x x' y y' middle last in λ i. (first i, middle i)

pub turned_apart : (n : ℕ) (p q : ℤ × ℤ) → turned n p ≡ turned n q → p ≡ q
unfolding turned
turned_apart zero (x, y) (x', y') h = h
turned_apart (suc n) (x, y) (x', y') h =
    let e = turned_apart n (neg y, x) (neg y', x') h in
    let v = neg_cancel y y' (λ i. (e i).0) in λ i. ((e i).1, v i)

some_apart : (p q : ℤ × ℤ) → some p ≡ some q → p ≡ q
some_apart p q h = ap (λ o. elim o [ none ↦ p | some r ↦ r ]) h

-- Two cells of a body are never rotated onto one place: `rotate_offset` has different results for
-- different cells within sixteen million of the origin, whatever the angle and the centre of mass,
-- where that centre is as near.
pub rotate_offset_apart :
    (step : ℕ) (center p q : ℤ × ℤ)
    → Within reach_units center
    → Within reach p
    → Within reach q
    → p ≢ q
    → rotate_offset step center p.0 p.1 ≢ rotate_offset step center q.0 q.1
rotate_offset_apart step center p q hc h h' apart e =
    let (shear, found, hs) = shear_found step in
    let n = (decompose step).0 in
    let same =
      some_apart (sheared shear (turned n p) (turned n center))
        (sheared shear (turned n q) (turned n center))
        (sym (rotate_offset_exact step center p.0 p.1 shear found hs hc h)
          ∙ e
          ∙ rotate_offset_exact step center q.0 q.1 shear found hs hc h') in
    apart
      (turned_apart n p q (sheared_apart shear (turned n p) (turned n q) (turned n center) same))
