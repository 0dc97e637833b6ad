-- ===== src/Sim/Window/Writes.antt =====
-- What `set` does to the view of a window.
use fallingsand.Prelude.{
  ℕ, zero, suc, ◌+◌, ◌*◌, ◌<◌, ◌≡◌, ◌≢◌, ◌⊎◌, inl, inr, refl, sym, ap, ◌∙◌, arith, Bool, true,
  false, not, ◌&&◌, ltb, Bool-cases, Option, none, some, Option-cases, List, [], ◌∷◌, length,
  get_or, get_elem?, if◌then◌else◌, ◌==◌,
}
use fallingsand.Prelude as Prelude
use fallingsand.Coords.{CellPos, CellOffset}
use fallingsand.Coords.Cells
use fallingsand.Coords.Offsets.Cell.{index}
use fallingsand.Cell.{Cell}
use fallingsand.Chunk.State.{Chunk}
use fallingsand.Chunk.State as Chunk
use fallingsand.Chunk.Rect.Defs as Rect
use fallingsand.Sim.Content.{Content}
use fallingsand.Sim.Window.State.{
  Window, put, mark_across, mark_all_across, mark_sim_border, around, same_chunk, on_border,
  exchange, set, obstructs, unseat,
}
use fallingsand.Sim.Window.Cells.{
  view, cells_in, written, outside, absent, present, found, mark-view, view_of-set, view_of-get_or,
  set-get_or, set_outside,
}

-- The same cells, at the same place.
abbrev pub SameView : Window → Window → Type 0
SameView w w' = (view w' ≡ view w) × (w'.origin ≡ w.origin)

across-view : (p : CellPos) (w : Window) (d : ℕ × ℕ) → SameView w (mark_across p w d)
unfolding mark_across
across-view p w (dx, dy) =
    elim (Bool-cases (same_chunk (Cells.chunk (Cells.translated p dx dy)) (Cells.chunk p))) [
      | inl e ↦ rw (mark_across, e) (refl, refl)
      | inr e ↦ rw (mark_across, e) (mark-view w (Cells.translated p dx dy))
    ]

all_across-view :
    (p : CellPos) (ds : List (ℕ × ℕ)) (w : Window) → SameView w (mark_all_across p ds w)
unfolding mark_all_across
all_across-view p [] w = (refl, refl)
all_across-view p (d ∷ ds) w =
    let a = across-view p w d in
    let b = all_across-view p ds (mark_across p w d) in (b.0 ∙ a.0, b.1 ∙ a.1)

pub mark_sim_border-view : (w : Window) (p : CellPos) → SameView w (mark_sim_border w p)
unfolding mark_sim_border
mark_sim_border-view w p = elim (Bool-cases (on_border (Cells.offset p))) [
  | inl e ↦ rw (mark_sim_border, e) (all_across-view p around w)
  | inr e ↦ rw (mark_sim_border, e) (refl, refl)
]

-- The chunk after `Chunk::set`.
abbrev pub after_set : Chunk → CellOffset → Cell → Cell → Chunk
after_set c o cell old = record c {
  cells = Prelude.set c.cells (index o) cell;
  counts = record {
    writes = c.counts.writes + 1;
    visible = c.counts.visible + Chunk.shows old cell;
  };
  change = Rect.mark c.change o;
  sim = Rect.mark_neighbourhood c.sim o;
  sight_dirty = Rect.mark c.sight_dirty o;
}

-- How an exchange in a chunk goes.
pub exchange_cases :
    (c : Chunk) (o : CellOffset) (cell : Cell)
    → ((get_elem? c.cells (index o) ≡ none) × (exchange c o cell ≡ none))
      ⊎ ((old : Cell) × (get_elem? c.cells (index o) ≡ some old)
          × (exchange c o cell ≡ some (old, after_set c o cell old)))
unfolding exchange Chunk.get Chunk.set
exchange_cases c o cell = elim (Option-cases (get_elem? c.cells (index o))) [
  | inl e ↦ inl (e, rw (e, exchange) refl)
  | inr (old, e) ↦ inr (old, e, rw (e, exchange, Chunk.set, e) refl)
]

same_slot :
    (v : List (List Cell)) (slot : ℕ) (xs : List Cell)
    → get_or v slot [] ≡ xs
    → Prelude.set v slot xs ≡ v
same_slot v slot xs e = ap (Prelude.set v slot) (sym e) ∙ set-get_or v slot []

-- Neither a loose cell nor the marks across the border touch the view.
border_view :
    (w : Window) (p : CellPos) (b : Bool) (v : List (List Cell))
    → view w ≡ v
    → (view (mark_sim_border (if b then unseat w p else w) p) ≡ v)
      × ((mark_sim_border (if b then unseat w p else w) p).origin ≡ w.origin)
unfolding unseat
border_view w p true v e = let m = mark_sim_border-view (unseat w p) p in (m.0 ∙ e, m.1)
border_view w p false v e = let m = mark_sim_border-view w p in (m.0 ∙ e, m.1)

module _ (content : Content) where
  -- A write into a window, its marks and its bookkeeping of bodies included, does to the cells that
  -- the window shows what writing one cell of an array does: the view of the new window is the old
  -- view with the cell written where the position is loaded, and the window stays in its place.
  pub set-view :
      (w : Window) (p : CellPos) (cell : Cell)
      → (view (set content w p cell) ≡ written w.origin (view w) p cell)
        × ((set content w p cell).origin ≡ w.origin)
  unfolding set written put
  set-view w p cell = elim (found w p) [
    | outside e f ↦ rw (set, f, written, e) (refl, refl)
    | absent slot e g f ↦
        let empty : get_or (view w) slot [] ≡ [] = view_of-get_or w.slots slot ∙ ap cells_in g in
        rw (set, f, written, e, empty) (sym (same_slot (view w) slot [] empty), refl)
    | present slot chunk e g f ↦
        let full : get_or (view w) slot [] ≡ chunk.cells =
          view_of-get_or w.slots slot ∙ ap cells_in g in
        elim (exchange_cases chunk (Cells.offset p) cell) [
          | inl (gone, x) ↦
              rw
                (
                  set,
                  f,
                  x,
                  written,
                  e,
                  full,
                  set_outside chunk.cells (index (Cells.offset p)) cell gone,
                )
                (sym (same_slot (view w) slot chunk.cells full), refl)
          | inr (old, here, x) ↦
              let put_view =
                view_of-set w.slots slot (some (after_set chunk (Cells.offset p) cell old)) in
              rw (set, f, x, written, e, full)
                (border_view (put w slot (after_set chunk (Cells.offset p) cell old)) p
                  (obstructs content old.material && not (obstructs content cell.material))
                  (Prelude.set (view w) slot
                    (Prelude.set chunk.cells (index (Cells.offset p)) cell))
                  put_view)
        ]
  ]
