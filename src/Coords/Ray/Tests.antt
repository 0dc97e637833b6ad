-- ===== src/Coords/Ray/Tests.antt =====
-- Rays between concrete cells.
use fallingsand.Prelude.{ℕ, suc, ◌+◌, ◌*◌, ◌<◌, ◌≡◌, refl, arith, List, [], ◌∷◌, length, some}
use fallingsand.Prelude.Int.{magnitude, pos, neg_ℕ}
use fallingsand.Coords.Types.{CellPos}
use fallingsand.Coords.Ray.Steps.{
  start_ray, ray_cells, collect, next, finished, goes_x, advance_x, advance_y,
}
use fallingsand.Coords.Ray.Walk.{distance, Walk, ray_cells-Walk}

abbrev start : CellPos
start = record { x = 0; y = 0 }

-- The cell (-1, 2).
abbrev end : CellPos
end = record { x = 4_294_967_295; y = 2 }

ray_runs :
    ray_cells 4 start end
    ≡ some (record { x = 0; y = 1 } ∷ record { x = 4_294_967_295; y = 1 } ∷ end ∷ [])
unfolding ray_cells collect next finished goes_x advance_x advance_y start_ray
    fallingsand.Prelude.Int.◌+ℤ◌ fallingsand.Prelude.Int.◌-ℤ◌
ray_runs = refl

ray_cells-Walk_example :
    let n = distance start.x end.x + distance start.y end.y in
    (cs : List CellPos) × (ray_cells (suc n) start end ≡ some cs)
    × (length cs ≡ n)
    × Walk start cs end
ray_cells-Walk_example = ray_cells-Walk start end (omega arith) (omega arith)
