-- ===== src/Cell/Tests.antt =====
-- A moving cell of material 7.
use fallingsand.Prelude.{◌≡◌, arith, some}
use fallingsand.Prelude.Int.{pos, negsuc}
use fallingsand.Cell.State.{
  Cell, velocity, body, IsCell, vel, set_vel, motion, body_id, set_body, clear_body, is_moved,
  is_stressed,
}
use fallingsand.Cell.Payload.{vel-set_vel, motion-set_body}

abbrev sand : Cell
sand = record { material = 7; payload = (1, 2, 3, 4); shade = 9; flags = 5 }

sand-IsCell : IsCell sand
sand-IsCell = omega arith

-- A fall too fast for 16 bits is clamped.
vel-set_vel_example :
    let c' = set_vel sand (negsuc 2) (pos 40_000) in
    (vel c' ≡ (negsuc 2, pos 32_767)) × (c'.flags ≡ 5) × (c'.material ≡ 7) × (c'.shade ≡ 9)
vel-set_vel_example = vel-set_vel sand (negsuc 2) (pos 40_000)

motion-set_body_example :
    (motion (set_body sand 70_000) ≡ body 70_000)
    × (body_id (set_body sand 70_000) ≡ some 70_000)
    × (is_moved (set_body sand 70_000) ≡ is_moved sand)
    × (is_stressed (set_body sand 70_000) ≡ is_stressed sand)
    × (motion (clear_body (set_body sand 70_000)) ≡ velocity (pos 0) (pos 0))
motion-set_body_example = motion-set_body sand 70_000 sand-IsCell (omega arith)
