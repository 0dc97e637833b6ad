-- ===== src/Chunk/Rect/Defs.antt =====
-- `struct DirtyRect` and its methods (crates/fallingsand_core/src/chunk.rs).
use fallingsand.Prelude.{ℕ, ◌+◌, ◌-◌, ◌≤◌, Bool, ◌||◌, ltb, if◌then◌else◌, min, max}
use fallingsand.Coords.{CellOffset}

pub record DirtyRect : Type 0 where
  pub min_x : ℕ
  pub min_y : ℕ
  pub max_x : ℕ
  pub max_y : ℕ

abbrev pub empty : DirtyRect
empty = record { min_x = 255; min_y = 255; max_x = 0; max_y = 0 }

abbrev pub full : DirtyRect
full = record { min_x = 0; min_y = 0; max_x = 63; max_y = 63 }

unfoldable pub is_empty : DirtyRect → Bool
is_empty r = ltb r.max_x r.min_x || ltb r.max_y r.min_y

unfoldable pub mark : DirtyRect → CellOffset → DirtyRect
mark r o = record {
  min_x = min r.min_x o.x;
  min_y = min r.min_y o.y;
  max_x = max r.max_x o.x;
  max_y = max r.max_y o.y;
}

-- `saturating_sub(1)` is the truncated subtraction; `last` is 63.
unfoldable pub mark_neighbourhood : DirtyRect → CellOffset → DirtyRect
mark_neighbourhood r o = record {
  min_x = min r.min_x (o.x - 1);
  min_y = min r.min_y (o.y - 1);
  max_x = max r.max_x (min (o.x + 1) 63);
  max_y = max r.max_y (min (o.y + 1) 63);
}

unfoldable pub union : DirtyRect → DirtyRect → DirtyRect
unfolding is_empty
union r s =
    if is_empty r
    then s
    else (if is_empty s then r else record {
      min_x = min r.min_x s.min_x;
      min_y = min r.min_y s.min_y;
      max_x = max r.max_x s.max_x;
      max_y = max r.max_y s.max_y;
    })

unfoldable pub width : DirtyRect → ℕ
unfolding is_empty
width r = if is_empty r then 0 else r.max_x - r.min_x + 1

unfoldable pub height : DirtyRect → ℕ
unfolding is_empty
height r = if is_empty r then 0 else r.max_y - r.min_y + 1

-- The offset lies in the rectangle.
abbrev pub Covers : DirtyRect → CellOffset → Type 0
Covers r o = (r.min_x ≤ o.x) × (o.x ≤ r.max_x) × (r.min_y ≤ o.y) × (o.y ≤ r.max_y)

-- The rectangle lies in the chunk, or is empty.
abbrev pub InBounds : DirtyRect → Type 0
InBounds r = (r.max_x ≤ 63) × (r.max_y ≤ 63)
