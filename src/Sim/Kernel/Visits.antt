-- ===== src/Sim/Kernel/Visits.antt =====
-- A pass meets every cell of its rectangles once (crates/fallingsand_sim/src/kernel.rs).
use fallingsand.Prelude.{
  ℕ, zero, suc, ◌+◌, ◌-◌, ◌*◌, ◌/◌, ◌%◌, ◌≤◌, ◌<◌, ◌≡◌, refl, ◌∙◌, inl, inr, arith, Bool, true,
  false, ◌&&◌, ◌||◌, ltb, leb, ◌==◌, if◌then◌else◌, List, [], ◌∷◌, ◌++◌, Bool-cases,
}
use fallingsand.Prelude.Words.{add_i32}
use fallingsand.Coords.{CellPos}
use fallingsand.Chunk.Rect.Defs.{DirtyRect, is_empty, InBounds}
use fallingsand.Sim.Kernel.Block.{row_cells, chunk_row, block_row, block_rows, row_reverse}

abbrev same_cell : CellPos → CellPos → Bool
same_cell p q = p.x == q.x && p.y == q.y

-- How often a position stands in a list.
abbrev pub visits : CellPos → List CellPos → ℕ
visits p [] = 0
visits p (q ∷ qs) = (if same_cell p q then 1 else 0) + visits p qs

visits-++ : (p : CellPos) (qs rs : List CellPos) → visits p (qs ++ rs) ≡ visits p qs + visits p rs
visits-++ p [] rs = omega arith
visits-++ p (q ∷ qs) rs = omega (arith, visits-++ p qs rs)

-- The cell of a block at a column and a row.
abbrev pub cell_at : CellPos → ℕ → ℕ → CellPos
cell_at base x y = record { x = add_i32 base.x x; y = add_i32 base.y y }

same_offset :
    (b u v : ℕ) → b < 4_294_967_296 → u < 128 → v < 128 → (add_i32 b u == add_i32 b v) ≡ (u == v)
same_offset b u v h hu hv = ground arith

same_cell_at :
    (base : CellPos) (x y u v : ℕ)
    → base.x < 4_294_967_296
    → base.y < 4_294_967_296
    → x < 128
    → y < 128
    → u < 128
    → v < 128
    → same_cell (cell_at base x y) (cell_at base u v) ≡ (x == u && y == v)
same_cell_at base x y u v hx hy lx ly lu lv =
    rw (same_offset base.x x u hx lx lu, same_offset base.y y v hy ly lv) refl

-- An offset lies in a rectangle.
abbrev pub in_rect : DirtyRect → ℕ → ℕ → Bool
in_rect r lx ly = leb r.min_x lx && leb lx r.max_x && leb r.min_y ly && leb ly r.max_y

module _ (base : CellPos) (hx : base.x < 4_294_967_296) (hy : base.y < 4_294_967_296) (x y : ℕ)
    (lx : x < 128) (ly : y < 128) where
  row_forward :
      (ox gy first last count : ℕ)
      → ox < 2
      → gy < 128
      → first + count ≤ 64
      → visits (cell_at base x y) (row_cells base ox gy false first last count)
        ≡ (if y == gy && leb (ox * 64 + first) x && ltb x (ox * 64 + first + count) then 1 else 0)
  unfolding row_cells
  row_forward ox gy first last zero ho hg h = ground arith
  row_forward ox gy first last (suc count) ho hg h =
      rw (same_cell_at base x y (ox * 64 + first) gy hx hy lx ly (omega arith) hg)
        (rw (row_forward ox gy (first + 1) (last - 1) count ho hg (omega arith)) (ground arith))

  row_backward :
      (ox gy first last count : ℕ)
      → ox < 2
      → gy < 128
      → last < 64
      → count ≤ last + 1
      → visits (cell_at base x y) (row_cells base ox gy true first last count) ≡ (
          if y == gy && leb (ox * 64 + last + 1) (x + count) && leb x (ox * 64 + last)
          then 1
          else 0)
  unfolding row_cells
  row_backward ox gy first last zero ho hg h k = ground arith
  row_backward ox gy first last (suc count) ho hg h k =
      rw (same_cell_at base x y (ox * 64 + last) gy hx hy lx ly (omega arith) hg) (
        rw (row_backward ox gy (first + 1) (last - 1) count ho hg (omega arith) (omega arith))
          (ground arith))

  chunk_row-visits :
      (rects : ℕ → ℕ → DirtyRect) (gy : ℕ) (reverse : Bool) (ox : ℕ)
      → ox < 2
      → gy < 128
      → (rects ox (gy / 64)).max_x ≤ 63
      → visits (cell_at base x y) (chunk_row rects base gy reverse ox) ≡ (
          if y == gy && x / 64 == ox && in_rect (rects ox (gy / 64)) (x % 64) (gy % 64)
          then 1
          else 0)
  unfolding chunk_row is_empty
  chunk_row-visits rects gy reverse ox ho hg hm =
      let r = rects ox (gy / 64) in
      elim (Bool-cases (is_empty r || ltb (gy % 64) r.min_y || ltb r.max_y (gy % 64))) [
        | inl e ↦ rw (chunk_row, e) (ground arith)
        | inr e ↦ elim (Bool-cases reverse) [
          | inl b ↦
              rw (chunk_row, e, b)
                (rw
                  (row_backward ox gy r.min_x r.max_x (r.max_x - r.min_x + 1) ho hg (omega arith)
                    (omega arith))
                  (ground arith))
          | inr b ↦
              rw (chunk_row, e, b)
                (rw (row_forward ox gy r.min_x r.max_x (r.max_x - r.min_x + 1) ho hg (ground arith))
                  (ground arith))
        ]
      ]

  -- The two chunks of a row have one cell in the column between them, in whichever order.
  halves :
      (xx : ℕ) (a b c : Bool)
      → xx < 128
      → (if a && xx / 64 == 0 && b then 1 else 0) + (if a && xx / 64 == 1 && c then 1 else 0)
        ≡ (if a && (if xx / 64 == 0 then b else c) then 1 else 0)
  halves xx a b c h = ground arith

  -- The rectangle of the chunk at the column contains the cell of a row.
  abbrev covered : (ℕ → ℕ → DirtyRect) → ℕ → Bool
  covered rects gy =
      if x / 64 == 0
      then in_rect (rects 0 (gy / 64)) (x % 64) (gy % 64)
      else in_rect (rects 1 (gy / 64)) (x % 64) (gy % 64)

  row_visits :
      (rects : ℕ → ℕ → DirtyRect) (bounds : (ox oy : ℕ) → InBounds (rects ox oy)) (tick gy : ℕ)
      → gy < 128
      → visits (cell_at base x y) (block_row rects base tick gy)
        ≡ (if y == gy && covered rects gy then 1 else 0)
  unfolding block_row
  row_visits rects bounds tick gy hg =
      let left =
        λ (rev : Bool). chunk_row-visits rects gy rev 0 (omega arith) hg (bounds 0 (gy / 64)).0 in
      let right =
        λ (rev : Bool). chunk_row-visits rects gy rev 1 (omega arith) hg (bounds 1 (gy / 64)).0 in
      let sum =
        halves x (y == gy) (in_rect (rects 0 (gy / 64)) (x % 64) (gy % 64))
          (in_rect (rects 1 (gy / 64)) (x % 64) (gy % 64)) lx in
      elim (Bool-cases (row_reverse tick (add_i32 base.y gy))) [
        | inl e ↦
            rw (block_row, e)
              (omega (
                arith,
                visits-++ (cell_at base x y) (chunk_row rects base gy true 1)
                    (chunk_row rects base gy true 0),
                left true,
                right true,
                sum,
              ))
        | inr e ↦
            rw (block_row, e)
              (omega (
                arith,
                visits-++ (cell_at base x y) (chunk_row rects base gy false 0)
                    (chunk_row rects base gy false 1),
                left false,
                right false,
                sum,
              ))
      ]

  one_more :
      (test : ℕ → Bool) (gy count : ℕ)
      → (if y == gy && test gy then 1 else 0)
          + (if (leb (gy + 1) y && ltb y (gy + 1 + count)) && test y then 1 else 0)
        ≡ (if (leb gy y && ltb y (gy + suc count)) && test y then 1 else 0)
  one_more test gy count = elim (Bool-cases (y == gy)) [
    | inl e ↦ let same : gy ≡ y = ground arith in rw same (ground arith)
    | inr e ↦ rw e (ground arith)
  ]

  rows_visits :
      (rects : ℕ → ℕ → DirtyRect) (bounds : (ox oy : ℕ) → InBounds (rects ox oy))
      (tick gy count : ℕ)
      → gy + count ≤ 128
      → visits (cell_at base x y) (block_rows rects base tick gy count)
        ≡ (if (leb gy y && ltb y (gy + count)) && covered rects y then 1 else 0)
  unfolding block_rows
  rows_visits rects bounds tick gy zero h = ground arith
  rows_visits rects bounds tick gy (suc count) h = omega (
    arith,
    visits-++ (cell_at base x y) (block_row rects base tick gy)
        (block_rows rects base tick (gy + 1) count),
    row_visits rects bounds tick gy (omega arith),
    rows_visits rects bounds tick (gy + 1) count (omega arith),
    one_more (covered rects) gy count,
  )

-- A pass over a block of two by two chunks, whose rectangles lie in bounds and whose first cell has
-- 32-bit coordinates, meets each cell of the
-- block that lies in the rectangle of its chunk exactly once, and no other cell of the block, in
-- whichever direction its rows run.
pub block_visits :
    (rects : ℕ → ℕ → DirtyRect) (bounds : (ox oy : ℕ) → InBounds (rects ox oy)) (base : CellPos)
    (tick x y : ℕ)
    → base.x < 4_294_967_296
    → base.y < 4_294_967_296
    → x < 128
    → y < 128
    → visits (cell_at base x y) (block_rows rects base tick 0 128)
      ≡ (if in_rect (rects (x / 64) (y / 64)) (x % 64) (y % 64) then 1 else 0)
block_visits rects bounds base tick x y hx hy lx ly =
    rows_visits base hx hy x y lx ly rects bounds tick 0 128 (omega arith)
    ∙ elim (Bool-cases (x / 64 == 0)) [
      | inl e ↦ let column : x / 64 ≡ 0 = ground arith in rw (e, column) (ground arith)
      | inr e ↦ let column : x / 64 ≡ 1 = ground arith in rw (e, column) (ground arith)
    ]
