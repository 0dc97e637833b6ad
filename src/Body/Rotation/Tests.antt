-- ===== src/Body/Rotation/Tests.antt =====
-- Rotations on concrete inputs.
use fallingsand.Prelude.{◌*◌, ◌≡◌, ◌≢◌, refl, ap, arith, some}
use fallingsand.Prelude.Int.{ℤ, pos, negsuc, ◌+ℤ◌, ◌-ℤ◌, ◌*ℤ◌, magnitude}
use fallingsand.Body.Rotation.Defs.{rotate_offset, residual_shears, decompose, sheared, turned}
use fallingsand.Body.Rotation.Bounds.{rotate_offset_total, Within, reach}
use fallingsand.Body.Rotation.Injective.{rotate_offset_apart}

-- An eighth turn about a centre, with the middle of the table, and a turn by five eighths.
eighth : rotate_offset 31 (pos 512, pos 512) (pos 10) (pos 0) ≡ some (pos 7, pos 7)
unfolding rotate_offset ◌+ℤ◌ ◌-ℤ◌ ◌*ℤ◌
eighth = refl

five_eighths : rotate_offset 160 (pos 512, pos 512) (pos 10) (pos 0) ≡ some (negsuc 6, negsuc 6)
unfolding rotate_offset ◌+ℤ◌ ◌-ℤ◌ ◌*ℤ◌
five_eighths = refl

rotate_offset_total_example :
    (shear : ℤ × ℤ) × (residual_shears (decompose 31).1 ≡ some shear)
    × (rotate_offset 31 (pos 512, pos 512) (pos 10) (pos 0)
        ≡ some (
            sheared shear
              (turned (decompose 31).0 (pos 10, pos 0))
              (turned (decompose 31).0 (pos 512, pos 512))))
    × Within (10 * reach) (
        sheared shear
          (turned (decompose 31).0 (pos 10, pos 0))
          (turned (decompose 31).0 (pos 512, pos 512)))
rotate_offset_total_example =
    rotate_offset_total 31 (pos 512, pos 512) (pos 10) (pos 0) (omega arith, omega arith)
      (omega arith, omega arith)

abbrev here : ℤ × ℤ
here = (pos 10, pos 0)

abbrev above : ℤ × ℤ
above = (pos 10, pos 1)

neighbours : here ≢ above
neighbours h = let e : 0 ≡ 1 = ap (λ (p : ℤ × ℤ). magnitude p.1) h in omega (arith, e)

rotate_offset_apart_example :
    rotate_offset 31 (pos 512, pos 512) here.0 here.1
    ≢ rotate_offset 31 (pos 512, pos 512) above.0 above.1
rotate_offset_apart_example =
    rotate_offset_apart 31 (pos 512, pos 512) here above (omega arith, omega arith)
      (omega arith, omega arith) (omega arith, omega arith) neighbours
