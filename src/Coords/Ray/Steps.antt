-- ===== src/Coords/Ray/Steps.antt =====
-- The closure of `ray_cells` and the iterator that it drives (crates/fallingsand_core/src/coords.rs).
use fallingsand.Prelude.{ℕ, zero, suc, Bool, ◌&&◌, if◌then◌else◌, Option, none, some, List, [], ◌∷◌}
use fallingsand.Prelude.Int.{ℤ, pos, negsuc, neg_ℕ, magnitude, ◌+ℤ◌, ◌-ℤ◌, ltb_ℤ, eqb_ℤ}
use fallingsand.Prelude.Words.{signed32, to_i32, lt_i32}
use fallingsand.Coords.Types.{CellPos}

-- What the closure captures. `dx` is a distance, `dy` the negated distance.
pub record Ray : Type 0 where
  pub ex : ℤ
  pub ey : ℤ
  pub dx : ℤ
  pub dy : ℤ
  pub sx : ℤ
  pub sy : ℤ
  pub x : ℤ
  pub y : ℤ
  pub error : ℤ

unfoldable pub start_ray : CellPos → CellPos → Ray
start_ray start end =
    let a = magnitude (signed32 end.x -ℤ signed32 start.x) in
    let b = magnitude (signed32 end.y -ℤ signed32 start.y) in
    record {
      ex = signed32 end.x;
      ey = signed32 end.y;
      dx = pos a;
      dy = neg_ℕ b;
      sx = if lt_i32 start.x end.x then pos 1 else negsuc 0;
      sy = if lt_i32 start.y end.y then pos 1 else negsuc 0;
      x = signed32 start.x;
      y = signed32 start.y;
      error = pos a +ℤ neg_ℕ b;
    }

-- The test `twice - dy > dx - twice`.
unfoldable pub goes_x : Ray → Bool
goes_x r = let twice = r.error +ℤ r.error in ltb_ℤ (r.dx -ℤ twice) (twice -ℤ r.dy)

-- The test `x == ex && y == ey`.
unfoldable pub finished : Ray → Bool
finished r = eqb_ℤ r.x r.ex && eqb_ℤ r.y r.ey

unfoldable pub advance_x : Ray → Ray
advance_x r = record r { error = r.error +ℤ r.dy; x = r.x +ℤ r.sx }

unfoldable pub advance_y : Ray → Ray
advance_y r = record r { error = r.error +ℤ r.dx; y = r.y +ℤ r.sy }

abbrev pub cell : Ray → CellPos
cell r = record { x = to_i32 r.x; y = to_i32 r.y }

-- One call of the closure: the cell that it yields, and the variables that it leaves.
unfoldable pub next : Ray → Option (CellPos × Ray)
next r =
    if finished r
    then none
    else (let r' = (if goes_x r then advance_x r else advance_y r) in some (cell r', r'))

-- The iterator run to its end. `none` means that the fuel ran out.
unfoldable pub collect : ℕ → Ray → Option (List CellPos)
collect zero r = none
collect (suc fuel) r = elim (next r) [
  | none ↦ some []
  | some (c, r') ↦ elim (collect fuel r') [ none ↦ none | some cs ↦ some (c ∷ cs) ]
]

unfoldable pub ray_cells : ℕ → CellPos → CellPos → Option (List CellPos)
ray_cells fuel start end = collect fuel (start_ray start end)
