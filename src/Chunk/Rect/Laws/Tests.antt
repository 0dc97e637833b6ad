-- ===== src/Chunk/Rect/Laws/Tests.antt =====
-- Rectangles in a corner of a chunk.
use fallingsand.Prelude.{◌≡◌, refl, false}
use fallingsand.Chunk.Rect.Defs.{DirtyRect, is_empty}

abbrev corner : DirtyRect
corner = record { min_x = 0; min_y = 0; max_x = 3; max_y = 1 }

corner_some : is_empty corner ≡ false
unfolding is_empty
corner_some = refl
