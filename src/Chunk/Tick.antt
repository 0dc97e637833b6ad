-- ===== src/Chunk/Tick.antt =====
-- The start of a tick: which cells lose their moved flag, and what the rectangles remember.
mod Tests
use fallingsand.Prelude.{
  ℕ, zero, suc, ◌+◌, ◌-◌, ◌*◌, ◌/◌, ◌%◌, ◌≤◌, ◌<◌, ◌≡◌, ◌≢◌, ◌⊎◌, inl, inr, refl, ap, ◌∙◌, sym,
  arith, Bool, true, false, ◌&&◌, ◌||◌, ◌==◌, ltb, leb, if◌then◌else◌, Bool-cases, Option, none,
  some, is_some, List, [], ◌∷◌, length, get_elem?, get_or, get_elem?-eq-get_or, get_elem?-some-lt,
  length-set, get_elem?-set_ne, get_elem?-set_self,
}
use fallingsand.Prelude as Prelude
use fallingsand.Chunk.Rect.Defs as Rect
use fallingsand.Coords.{CellOffset, InChunk}
use fallingsand.Coords.Offsets.Cell.{index}
use fallingsand.Cell.State.{Cell, Bytes, clear_moved}
use fallingsand.Chunk.Rect.Defs.{DirtyRect, is_empty, union, Covers, InBounds}
use fallingsand.Chunk.State.{
  Chunk, get, clear_row, clear_rows, clear_rect, sim_rect, change_rect, begin_tick, roll_over,
}
use fallingsand.Chunk.Rect.Laws.{union_least}
use fallingsand.Chunk.Clear.{clear_if, ClearedAt, inside, cleared_rect}
use fallingsand.Chunk.Cover.{Near, Writes, Writes-covered, Writes-prev, or_chunk}

abbrev pub IsChunk : Chunk → Type 0
IsChunk c = (length c.cells ≡ 4096) × InBounds c.sim × InBounds c.prev_sim

union-InBounds : (r s : DirtyRect) → InBounds r → InBounds s → InBounds (union r s)
unfolding union is_empty
union-InBounds r s h k = ground arith

-- What the start of a tick makes of the chunk, seen at one offset.
abbrev pub Begun : Chunk → Bool → CellOffset → Option Chunk → Type 0
Begun c roll p o =
    (c' : Chunk) × (o ≡ some c')
    × (get c' p ≡ clear_if (inside (sim_rect c) (index p)) (get c p))
    × (c'.change ≡ (if roll then Rect.empty else c.change))
    × (c'.prev_change ≡ (if roll then c.change else c.prev_change))
    × (c'.sim ≡ (if roll then Rect.empty else c.sim))
    × (c'.prev_sim ≡ (if roll then c.sim else c.prev_sim))
    × IsChunk c'

-- The start of a tick of a well-formed chunk never fails. It clears the moved flag of every cell of
-- `sim_rect`, changes no other cell, puts the rectangles of the last tick away under `roll` and
-- starts empty ones, and keeps the chunk well formed.
pub begin_tick_clears :
    (c : Chunk) (roll : Bool) (p : CellOffset)
    → IsChunk c
    → InChunk p
    → Begun c roll p (begin_tick c roll)
unfolding begin_tick get sim_rect roll_over
begin_tick_clears c roll p h hp =
    let r = union c.sim c.prev_sim in
    go roll (clear_rect c.cells r)
      (cleared_rect c.cells r h.0 (union-InBounds c.sim c.prev_sim h.1 h.2))
  where
    go :
        (roll : Bool) (o : Option (List Cell))
        → ClearedAt (inside (union c.sim c.prev_sim)) c.cells o
        → Begun c roll p (elim o [
          | none ↦ none
          | some cells ↦
              let cleared : Chunk = record c { cells = cells } in
              some (if roll then roll_over cleared else cleared)
        ])
    go roll none a = elim a [ ]
    go true (some cells) a = (
      roll_over (record c { cells = cells }),
      refl,
      a.1 (index p),
      refl,
      refl,
      refl,
      refl,
      (a.0 ∙ h.0, (omega arith, omega arith), h.1),
    )
    go false (some cells) a = (
      record c { cells = cells },
      refl,
      a.1 (index p),
      refl,
      refl,
      refl,
      refl,
      (a.0 ∙ h.0, h.1, h.2),
    )

-- A cell but for its flags.
abbrev pub appearance : Option Cell → Option (ℕ × Bytes × ℕ)
appearance none = none
appearance (some c) = some (c.material, c.payload, c.shade)

clear_if-appearance : (b : Bool) (o : Option Cell) → appearance (clear_if b o) ≡ appearance o
unfolding clear_moved
clear_if-appearance false o = refl
clear_if-appearance true none = refl
clear_if-appearance true (some c) = refl

in_union : (r s : DirtyRect) (p : CellOffset) → Covers r p ⊎ Covers s p → Covers (union r s) p
in_union r s p (inl h) = ((union_least r s (union r s)).0 (λ o c. c)).0 p h
in_union r s p (inr h) = ((union_least r s (union r s)).0 (λ o c. c)).1 p h

-- Whatever was written in the last tick and in this one so far: a cell of a well-formed chunk whose
-- material, payload or shade differs from what it was before them lies in `change_rect`.
pub differences_found :
    (a b b' c : Chunk) (p : CellOffset)
    → IsChunk b
    → InChunk p
    → Writes a b
    → begin_tick b true ≡ some b'
    → Writes b' c
    → (appearance (get c p) ≡ appearance (get a p)) ⊎ Covers (change_rect c) p
unfolding change_rect
differences_found a b b' c p hb hp before tick after =
    let t = begin_tick_clears b true p hb hp in
    let near : Near p p = (omega arith, omega arith, omega arith, omega arith) in
    let e : t.0 ≡ b' = ap (or_chunk b) (sym t.1 ∙ tick) in
    let rolled : c.prev_change ≡ b.change =
      (Writes-prev b' c after).0 ∙ ap (λ (k : Chunk). k.prev_change) (sym e) ∙ t.4 in
    let same : appearance (get b' p) ≡ appearance (get b p) =
      ap (λ (k : Chunk). appearance (get k p)) (sym e)
      ∙ ap appearance t.2
      ∙ clear_if-appearance (inside (sim_rect b) (index p)) (get b p) in
    elim (Writes-covered b' c p p after hp hp near) [
      | inr m ↦ inr (in_union c.change c.prev_change p (inl m.0))
      | inl late ↦ elim (Writes-covered a b p p before hp hp near) [
        | inr m ↦ inr (in_union c.change c.prev_change p (inr (rw rolled m.0)))
        | inl early ↦ inl (ap appearance late ∙ same ∙ ap appearance early)
      ]
    ]
