-- ===== src/Sim/Known/Start.antt =====
-- Which materials the start of a tick leaves in a chunk (crates/fallingsand_core/src/chunk.rs).
use fallingsand.Prelude.{
  ℕ, zero, suc, ◌+◌, ◌-◌, ◌*◌, ◌<◌, ◌≤◌, ◌≡◌, inl, inr, refl, sym, ap, ◌∙◌, arith, Bool, true,
  false, not, ◌&&◌, ltb, if◌then◌else◌, Bool-cases, Option, none, some, Option-cases, List, [], ◌∷◌,
  get_or, get_elem?,
}
use fallingsand.Prelude as Prelude
use fallingsand.Cell.{Cell, MaterialId}
use fallingsand.Cell.State.{clear_moved}
use fallingsand.Chunk.State.{
  Chunk, clear_row, clear_rows, clear_rect, sim_rect, begin_tick, roll_over,
}
use fallingsand.Chunk.Rect.Defs.{DirtyRect, is_empty}
use fallingsand.Chunk.Cover.{or_chunk}
use fallingsand.Sim.Window.Count.{Look, is_look, count_cells, count_cells-set}
use fallingsand.Sim.Known.{AllCells}
use fallingsand.Sim.Known.Burning.{Holds}

module _ (K : MaterialId → Type 0) where
  -- The start of a tick changes flags only.
  same_look : (l : Look) (c : Cell) → is_look l (clear_moved c) ≡ is_look l c
  unfolding clear_moved
  same_look l c = refl

  abbrev Counted : Look → List Cell → Option (List Cell) → Type 0
  Counted l cells = Holds (λ (cs : List Cell). count_cells l cs ≡ count_cells l cells)

  Counted-trans :
      (l : Look) (a b : List Cell) (o : Option (List Cell))
      → count_cells l b ≡ count_cells l a
      → Counted l b o
      → Counted l a o
  Counted-trans l a b none e h = tt
  Counted-trans l a b (some c) e h = h ∙ e

  clear_row-Counted :
      (l : Look) (cells : List Cell) (row x count : ℕ)
      → Counted l cells (clear_row cells row x count)
  unfolding clear_row
  clear_row-Counted l cells row x zero = refl
  clear_row-Counted l cells row x (suc count) = elim (Option-cases (get_elem? cells (row + x))) [
    | inl e ↦ rw (Holds, clear_row, e) tt
    | inr (c, e) ↦
        let next = Prelude.set cells (row + x) (clear_moved c) in
        let same : count_cells l next ≡ count_cells l cells =
          omega (arith, count_cells-set l cells (row + x) (clear_moved c) e, same_look l c) in
        rw (Holds, clear_row, e)
          (Counted-trans l cells next (clear_row next row (x + 1) count) same
            (clear_row-Counted l next row (x + 1) count))
  ]

  clear_rows-Counted :
      (l : Look) (cells : List Cell) (x wide y count : ℕ)
      → Counted l cells (clear_rows cells x wide y count)
  unfolding clear_rows
  clear_rows-Counted l cells x wide y zero = refl
  clear_rows-Counted l cells x wide y (suc count) =
      after (clear_row cells (y * 64) x wide) (clear_row-Counted l cells (y * 64) x wide)
        (λ cs. clear_rows-Counted l cs x wide (y + 1) count)
    where
      after :
          (o : Option (List Cell))
          → Counted l cells o
          → ((cs : List Cell) → Counted l cs (clear_rows cs x wide (y + 1) count))
          → Counted l cells (elim o as (λ _. Option (List Cell)) [
            | none ↦ none
            | some cs ↦ clear_rows cs x wide (y + 1) count
          ])
      after none h next = tt
      after (some cs) h next =
          Counted-trans l cells cs (clear_rows cs x wide (y + 1) count) h (next cs)

  clear_rect-Counted :
      (l : Look) (cells : List Cell) (r : DirtyRect) → Counted l cells (clear_rect cells r)
  unfolding clear_rect
  clear_rect-Counted l cells r = elim (Bool-cases (is_empty r)) [
    | inl e ↦ rw (Holds, clear_rect, e) refl
    | inr e ↦
        rw (Holds, clear_rect, e)
          (clear_rows-Counted l cells r.min_x (r.max_x - r.min_x + 1) r.min_y
            (r.max_y - r.min_y + 1))
  ]

  pub begin_tick-AllCells :
      (c c' : Chunk) (roll : Bool)
      → begin_tick c roll ≡ some c'
      → AllCells K c.cells
      → AllCells K c'.cells
  unfolding begin_tick roll_over
  begin_tick-AllCells c c' roll e k l lt =
      begun (clear_rect c.cells (sim_rect c)) (clear_rect-Counted l c.cells (sim_rect c)) roll e
    where
      begun :
          (o : Option (List Cell))
          → Counted l c.cells o
          → (roll : Bool)
          → elim o as (λ _. Option Chunk) [
            | none ↦ none
            | some cells ↦
                let cleared : Chunk = record c { cells = cells } in
                some (if roll then roll_over cleared else cleared)
          ]
            ≡ some c'
          → K l.0
      begun none h roll e = cc
      begun (some cells) h true e =
          let same = ap (λ (t : Option Chunk). count_cells l (or_chunk c t).cells) e in
          k l (omega (arith, lt, same, h))
      begun (some cells) h false e =
          let same = ap (λ (t : Option Chunk). count_cells l (or_chunk c t).cells) e in
          k l (omega (arith, lt, same, h))
