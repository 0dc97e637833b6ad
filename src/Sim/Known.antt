-- ===== src/Sim/Known.antt =====
-- Windows and chunks all of whose cells are of materials with a property: what reads and writes do to it.
pub mod Burning
pub mod Chemistry
mod Drive
pub mod Pass
pub mod Phases
pub mod Start
use fallingsand.Prelude.{
  ℕ, zero, suc, ◌+◌, ◌<◌, ◌≤◌, ◌≡◌, inl, inr, refl, sym, ap, subst, ◌∙◌, arith, Bool, true, false,
  ◌&&◌, ◌==◌, not, if◌then◌else◌, Bool-cases, Option, none, some, Option-cases, List, [], ◌∷◌,
  get_or, get_elem?, get_elem?-some-lt,
}
use fallingsand.Prelude as Prelude
use fallingsand.Coords.{CellPos, ChunkPos}
use fallingsand.Coords.Cells
use fallingsand.Coords.Offsets.Cell.{index}
use fallingsand.Cell.{Cell, MaterialId}
use fallingsand.Cell as Cell
use fallingsand.Chunk.State as Chunk
use fallingsand.Sim.Content.{Content}
use fallingsand.Sim.Window.State.{
  Window, slot_of, get, put, set, mark, transform, in_body_of, loosens, unseat, mark_sim_border,
}
use fallingsand.Sim.Window.Cells.{
  view, cells_in, seen, written, get-seen, outside, absent, present, found, view_of-set,
  view_of-get_or, set-get_or, set_outside,
}
use fallingsand.Sim.Window.Writes.{mark_sim_border-view, after_set, set-view}
use fallingsand.Sim.Window.Count.{Look, is_look, count_cells, count_view, count-written}
use fallingsand.Sim.Window.Keep.{Keeps, mark-Keeps}

-- A write where no cell is seen changes nothing.
written-none :
    (o : ChunkPos) (v : List (List Cell)) (p : CellPos) (c : Cell)
    → seen o v p ≡ none
    → written o v p c ≡ v
unfolding seen written
written-none o v p c e = elim (Option-cases (slot_of o p)) [
  | inl f ↦ rw (written, f) refl
  | inr (slot, f) ↦
      let gone : get_elem? (get_or v slot []) (index (Cells.offset p)) ≡ none = rw (seen, f) at e in
      rw (written, f, set_outside (get_or v slot []) (index (Cells.offset p)) c gone)
        (set-get_or v slot [])
]

either_material :
    (b : Bool) (c d e : Cell)
    → d.material ≡ c.material
    → e.material ≡ c.material
    → (if b then d else e).material ≡ c.material
either_material true c d e h k = h
either_material false c d e h k = k

in_body_of-material :
    (content : Content) (old c : Cell) → (in_body_of content old c).material ≡ c.material
unfolding in_body_of Cell.set_body Cell.clear_body
in_body_of-material content old c = elim (Option-cases (Cell.body_id old)) [
  | inl e ↦ rw (in_body_of, e) (either_material _ c _ _ refl refl)
  | inr (id, e) ↦ rw (in_body_of, e) refl
]

bordered :
    (w : Window) (p : CellPos) (b : Bool) (v : List (List Cell))
    → view w ≡ v
    → view (if b then unseat (mark_sim_border w p) p else mark_sim_border w p) ≡ v
unfolding unseat
bordered w p true v e = (mark_sim_border-view w p).0 ∙ e
bordered w p false v e = (mark_sim_border-view w p).0 ∙ e

-- A transformation writes a cell of the new material, which may be in a body.
transform-view :
    (content : Content) (w : Window) (p : CellPos) (cell : Cell)
    → (c : Cell) × (c.material ≡ cell.material)
      × (view (transform content w p cell) ≡ written w.origin (view w) p c)
unfolding transform written put Chunk.get Chunk.set
transform-view content w p cell = elim (found w p) [
  | outside e f ↦ (cell, refl, rw (transform, f, written, e) refl)
  | absent slot e g f ↦
      let empty : get_or (view w) slot [] ≡ [] = view_of-get_or w.slots slot ∙ ap cells_in g in
      (
        cell,
        refl,
        rw (transform, f, written, e)
            (sym (
              ap (Prelude.set (view w) slot)
                (ap (λ t. Prelude.set t (index (Cells.offset p)) cell) empty ∙ sym empty)
              ∙ set-get_or (view w) slot [])),
      )
  | present slot chunk e g f ↦
      let i = index (Cells.offset p) in
      let full : get_or (view w) slot [] ≡ chunk.cells =
        view_of-get_or w.slots slot ∙ ap cells_in g in
      elim (Option-cases (get_elem? chunk.cells i)) [
        | inl gone ↦ (
          cell,
          refl,
          rw (transform, f, gone, written, e, full, set_outside chunk.cells i cell gone)
              (sym (ap (Prelude.set (view w) slot) (sym full) ∙ set-get_or (view w) slot [])),
        )
        | inr (old, here) ↦ (
          in_body_of content old cell,
          in_body_of-material content old cell,
          rw (transform, f, here, Chunk.set, here, written, e, full)
              (bordered
                (put w slot (after_set chunk (Cells.offset p) (in_body_of content old cell) old)) p
                (loosens content old.material (in_body_of content old cell).material)
                (Prelude.set (view w) slot
                  (Prelude.set chunk.cells i (in_body_of content old cell)))
                (view_of-set w.slots slot
                  (some (after_set chunk (Cells.offset p) (in_body_of content old cell) old)))),
        )
      ]
]

module _ (K : MaterialId → Type 0) where
  -- Every cell of a list is of a material with the property.
  abbrev pub AllCells : List Cell → Type 0
  AllCells cs = (l : Look) → 0 < count_cells l cs → K l.0

  abbrev pub AllSeen : Window → Type 0
  AllSeen w = (l : Look) → 0 < count_view l (view w) → K l.0

  pub kept-AllSeen : (w v : Window) → Keeps w v → AllSeen w → AllSeen v
  kept-AllSeen w v h k l lt = k l (omega (arith, h.amount l, lt))

  pub mark-AllSeen : (w : Window) (p : CellPos) → AllSeen w → AllSeen (mark w p)
  mark-AllSeen w p k = kept-AllSeen w (mark w p) (mark-Keeps w p) k

  -- A look is that of the cell, or the cell does not count for it.
  look_cases : (l : Look) (c : Cell) → K c.material → 0 < is_look l c → K l.0
  look_cases (m, s) c k h = let same : c.material ≡ m = ground arith in subst K same k

  written-AllSeen :
      (o : ChunkPos) (v : List (List Cell)) (p : CellPos) (c : Cell)
      → ((l : Look) → 0 < count_view l v → K l.0)
      → K c.material
      → (l : Look) → 0 < count_view l (written o v p c)
      → K l.0
  written-AllSeen o v p c k kc l lt = elim (Option-cases (seen o v p)) [
    | inl e ↦ k l (subst (λ t. 0 < count_view l t) (written-none o v p c e) lt)
    | inr (old, e) ↦ elim (Bool-cases (count_view l v == 0)) [
      | inr some_there ↦ k l (ground arith)
      | inl nothing ↦ look_cases l c kc (
          let counted = count-written l o v p c e in
          let empty : count_view l v ≡ 0 = ground arith in omega (arith, counted, empty, lt))
    ]
  ]

  pub transform-AllSeen :
      (content : Content) (w : Window) (p : CellPos) (c : Cell)
      → K c.material
      → AllSeen w
      → AllSeen (transform content w p c)
  transform-AllSeen content w p c kc k l lt =
      let (d, same, e) = transform-view content w p c in
      written-AllSeen w.origin (view w) p d k (subst K (sym same) kc) l
        (subst (λ t. 0 < count_view l t) e lt)

  pub set-AllSeen :
      (content : Content) (w : Window) (p : CellPos) (c : Cell)
      → K c.material
      → AllSeen w
      → AllSeen (set content w p c)
  set-AllSeen content w p c kc k l lt =
      written-AllSeen w.origin (view w) p c k kc l
        (subst (λ t. 0 < count_view l t) (set-view content w p c).0 lt)

  -- The cell that is read has a material with the property.
  pub get-AllSeen :
      (w : Window) (p : CellPos) (c : Cell) → get w p ≡ some c → AllSeen w → K c.material
  get-AllSeen w p c e k =
      let l : Look = (c.material, c.shade) in
      let other : Cell = record c { material = suc c.material } in
      let counted = count-written l w.origin (view w) p other (sym (get-seen w p) ∙ e) in
      let here : is_look l c ≡ 1 = ground arith in
      let there : is_look l other ≡ 0 = ground arith in k l (omega (arith, counted, here, there))
