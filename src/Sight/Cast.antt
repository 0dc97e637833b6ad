-- ===== src/Sight/Cast.antt =====
-- `View`, `Slope`, `cast` and `scan`. Offsets from the eye are integers; a denominator is positive, so it
-- is a number. An index out of range panics: `none`.
use fallingsand.Prelude.{
  ℕ, zero, suc, ◌+◌, ◌*◌, ◌/◌, ltb, ◌==◌, not, ◌&&◌, ◌||◌, if◌then◌else◌, Bool, true, false, Option,
  none, some, List, get_elem?, set, replicate,
}
use fallingsand.Prelude.Int.{
  ℤ, pos, negsuc, ◌+ℤ◌, ◌-ℤ◌, ◌*ℤ◌, leb_ℤ, min_ℤ, max_ℤ, magnitude, neg, pos_part,
}
use fallingsand.Chunk.Fog.Texels.{FogPos}

-- `REVEAL_RADIUS_CELLS >> FOG_TEXEL_BITS`.
abbrev pub radius : ℕ
radius = 40

abbrev pub side : ℕ
side = 81

-- `(min_x, min_y, max_x, max_y)`.
abbrev pub Span : Type 0
Span = ℤ × ℤ × ℤ × ℤ

pub record View : Type 0 where
  pub eye : FogPos
  pub sight : List Bool
  pub visible : List Bool
  pub seen : Option Span

unfoldable pub aim : View → FogPos → View
aim v eye = record {
  eye = eye;
  sight = replicate 6_561 true;
  visible = replicate 6_561 false;
  seen = none;
}

unfoldable pub offset : ℤ → ℤ → Option ℕ
offset dx dy = elim (pos radius +ℤ dx) [
  | negsuc n ↦ none
  | pos x ↦ elim (pos radius +ℤ dy) [
    | negsuc n ↦ none
    | pos y ↦ if ltb x side && ltb y side then some (y * side + x) else none
  ]
]

unfoldable pub blocked : View → ℤ → ℤ → Option Bool
unfolding offset
blocked v dx dy = elim (offset dx dy) [ none ↦ some true | some slot ↦ get_elem? v.sight slot ]

abbrev pub widen : Option Span → ℤ → ℤ → Span
widen none dx dy = (dx, dy, dx, dy)
widen (some (min_x, min_y, max_x, max_y)) dx dy =
    (min_ℤ min_x dx, min_ℤ min_y dy, max_ℤ max_x dx, max_ℤ max_y dy)

unfoldable pub mark : View → ℤ → ℤ → Option View
unfolding offset
mark v dx dy =
    if ltb (radius * radius) (magnitude dx * magnitude dx + magnitude dy * magnitude dy)
    then some v
    else (elim (offset dx dy) [
      | none ↦ some v
      | some slot ↦ elim (get_elem? v.visible slot) [
        | none ↦ none
        | some was ↦
            some (record v { visible = set v.visible slot true; seen = some (widen v.seen dx dy) })
      ]
    ])

pub record Slope : Type 0 where
  pub num : ℤ
  pub den : ℕ

-- `div_euclid` by a positive number rounds down.
abbrev pub div_euclid : ℤ → ℕ → ℤ
div_euclid (pos n) d = pos (n / d)
div_euclid (negsuc n) d = negsuc (n / d)

unfoldable pub min_column : Slope → ℕ → ℤ
min_column s depth = div_euclid (pos (2 * depth) *ℤ s.num +ℤ pos s.den) (2 * s.den)

unfoldable pub max_column : Slope → ℕ → ℤ
max_column s depth = neg (div_euclid (pos s.den -ℤ pos (2 * depth) *ℤ s.num) (2 * s.den))

unfoldable pub transform : ℕ → ℕ → ℤ → ℤ × ℤ
transform quadrant depth column =
    if quadrant == 0
    then (column, pos depth)
    else if quadrant == 1
    then (column, neg (pos depth))
    else if quadrant == 2
    then (pos depth, column)
    else (neg (pos depth), column)

-- The variables of the loop over the columns.
pub record Sweep : Type 0 where
  pub view : View
  pub start : Slope
  pub previous_wall : Bool

abbrev pub symmetric : Slope → Slope → ℕ → ℤ → Bool
symmetric start end depth column =
    leb_ℤ (pos depth *ℤ start.num) (column *ℤ pos start.den)
    && leb_ℤ (column *ℤ pos end.den) (pos depth *ℤ end.num)

-- `scan` at the next depth, for a part of the row.
abbrev pub Deeper : Type 0
Deeper = Slope → Slope → View → Option View

module _ (deeper : Deeper) (quadrant depth : ℕ) (end : Slope) where
  -- What follows the mark.
  unfoldable pub turn : ℤ → Bool → Sweep → View → Option Sweep
  turn column wall s view =
      let edge : Slope = record { num = pos 2 *ℤ column -ℤ pos 1; den = 2 * depth } in
      let start : Slope = if s.previous_wall && not wall then edge else s.start in
      let scanned : Option View =
        if not s.previous_wall && wall then deeper start edge view else some view in
      elim scanned [
        | none ↦ none
        | some view' ↦ some (record { view = view'; start = start; previous_wall = wall })
      ]

  -- The body of the loop.
  unfoldable pub sweep_column : ℤ → Sweep → Option Sweep
  unfolding transform blocked mark turn
  sweep_column column s =
      let at = transform quadrant depth column in
      elim (blocked s.view at.0 at.1) [
        | none ↦ none
        | some wall ↦
            let marked : Option View =
              if wall || symmetric s.start end depth column
              then mark s.view at.0 at.1
              else some s.view in
            elim marked [ none ↦ none | some view ↦ turn column wall s view ]
      ]

  -- So many columns from one on.
  unfoldable pub sweep : ℕ → ℤ → Sweep → Option Sweep
  unfolding sweep_column
  sweep zero column s = some s
  sweep (suc n) column s = elim (sweep_column column s) [
    | none ↦ none
    | some s' ↦ sweep n (column +ℤ pos 1) s'
  ]

-- `none` is a panic or a lack of fuel.
unfoldable pub scan : ℕ → ℕ → ℕ → Slope → Slope → View → Option View
unfolding sweep min_column max_column
scan zero quadrant depth start end view = none
scan (suc fuel) quadrant depth start end view =
    let deeper = scan fuel quadrant (depth + 1) in
    let first = min_column start depth in
    let columns = pos_part (max_column end depth +ℤ pos 1 -ℤ first) in
    let begin : Sweep = record { view = view; start = start; previous_wall = true } in
    if ltb radius depth
    then some view
    else (elim (sweep deeper quadrant depth end columns first begin) [
      | none ↦ none
      | some s ↦ if s.previous_wall then some s.view else deeper s.start end s.view
    ])

abbrev pub left : Slope
left = record { num = negsuc 0; den = 1 }

abbrev pub right : Slope
right = record { num = pos 1; den = 1 }

-- The loop over the quadrants from one on.
unfoldable pub scan_quadrants : ℕ → ℕ → View → Option View
unfolding scan
scan_quadrants quadrant zero view = some view
scan_quadrants quadrant (suc n) view = elim (scan 41 quadrant 1 left right view) [
  | none ↦ none
  | some view' ↦ scan_quadrants (quadrant + 1) n view'
]

unfoldable pub cast : View → Option View
unfolding mark scan_quadrants
cast view = elim (mark view (pos 0) (pos 0)) [ none ↦ none | some view' ↦ scan_quadrants 0 4 view' ]
