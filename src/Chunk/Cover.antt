-- ===== src/Chunk/Cover.antt =====
-- What the dirty rectangles of a chunk promise about its cells: a difference is never outside them.
mod Tests
use fallingsand.Prelude.{
  ℕ, ◌+◌, ◌*◌, ◌^◌, ◌≤◌, ◌<◌, ◌≡◌, ◌≢◌, ◌⊎◌, inl, inr, refl, ap, ◌∙◌, sym, subst, arith, Bool, true,
  false, ◌==◌, Bool-cases, Option, none, some, Option-cases, List, length, get_elem?,
  get_elem?-some-lt, length-set, get_elem?-set_ne, get_elem?-set_self, bit_or,
}
use fallingsand.Prelude as Prelude
use fallingsand.Prelude.Bits.{bit_or_disjoint}
use fallingsand.Coords.{CellOffset, InChunk}
use fallingsand.Coords.Offsets.Cell.{index}
use fallingsand.Cell.State.{Cell}
use fallingsand.Chunk.Rect.Defs.{DirtyRect, mark, mark_neighbourhood, Covers}
use fallingsand.Chunk.Rect.Laws.{mark-Covers, mark_neighbourhood-Covers}
use fallingsand.Chunk.State.{Chunk, get, set, shows}

pub index_eq : (o : CellOffset) → InChunk o → index o ≡ o.y * 64 + o.x
unfolding index
index_eq o h = bit_or_disjoint 6 o.y o.x h.0

pub index_injective : (o p : CellOffset) → InChunk o → InChunk p → index o ≡ index p → o ≡ p
index_injective o p h k e = ground (arith, index_eq o h, index_eq p k)

-- Next to each other, or the same.
abbrev pub Near : CellOffset → CellOffset → Type 0
Near o p = (p.x ≤ o.x + 1) × (o.x ≤ p.x + 1) × (p.y ≤ o.y + 1) × (o.y ≤ p.y + 1)

-- Any number of calls of `set`, one after the other.
pub data Writes : Chunk → Chunk → Type 0 where
  done : {c : Chunk} → Writes c c
  then_set :
      {a b c : Chunk} (o : CellOffset) (cell : Cell)
      → Writes a b
      → InChunk o
      → set b o cell ≡ some c
      → Writes a c

abbrev Written : Chunk → Chunk → CellOffset → Cell → Type 0
Written b c o cell =
    (c.cells ≡ Prelude.set b.cells (index o) cell)
    × (index o < length b.cells)
    × (c.change ≡ mark b.change o)
    × (c.sim ≡ mark_neighbourhood b.sim o)
    × (c.sight_dirty ≡ mark b.sight_dirty o)
    × (c.prev_change ≡ b.prev_change)
    × (c.prev_sim ≡ b.prev_sim)

abbrev pub or_chunk : Chunk → Option Chunk → Chunk
or_chunk d none = d
or_chunk d (some c) = c

written : (b c : Chunk) (o : CellOffset) (cell : Cell) → set b o cell ≡ some c → Written b c o cell
unfolding set
written b c o cell e = go (get_elem? b.cells (index o)) refl e
  where
    go :
        (x : Option Cell)
        → get_elem? b.cells (index o) ≡ x
        → (elim x [
          | none ↦ none
          | some old ↦ some (record b {
            cells = Prelude.set b.cells (index o) cell;
            counts = record {
              writes = b.counts.writes + 1;
              visible = b.counts.visible + shows old cell;
            };
            change = mark b.change o;
            sim = mark_neighbourhood b.sim o;
            sight_dirty = mark b.sight_dirty o;
          })
        ])
          ≡ some c
        → Written b c o cell
    go none h e = absurd (ground arith)
    go (some old) h e =
        let f = ap (or_chunk b) e in
        (
          ap (λ (k : Chunk). k.cells) (sym f),
          get_elem?-some-lt b.cells (index o) h,
          ap (λ (k : Chunk). k.change) (sym f),
          ap (λ (k : Chunk). k.sim) (sym f),
          ap (λ (k : Chunk). k.sight_dirty) (sym f),
          ap (λ (k : Chunk). k.prev_change) (sym f),
          ap (λ (k : Chunk). k.prev_sim) (sym f),
        )

-- After a write that returns, the cell reads back and every other cell of the chunk reads as
-- before.
pub get-set :
    (b c : Chunk) (o p : CellOffset) (cell : Cell)
    → InChunk o
    → InChunk p
    → set b o cell ≡ some c
    → (get c o ≡ some cell) × ((p ≡ o) ⊎ (get c p ≡ get b p))
unfolding get
get-set b c o p cell ho hp e =
    let w = written b c o cell e in
    (
      rw (get, w.0) (get_elem?-set_self b.cells (index o) cell w.1),
      elim (Bool-cases (index o == index p)) [
        | inl same ↦ inl (sym (index_injective o p ho hp (ground arith)))
        | inr other ↦ inr (rw (get, w.0) (get_elem?-set_ne b.cells cell (ground arith)))
      ],
    )

-- What the rectangles cover once the first cell differs, with the second one next to it.
abbrev pub Marked : Chunk → CellOffset → CellOffset → Type 0
Marked c p q = Covers c.change p × Covers c.sight_dirty p × Covers c.sim q

Marked-here :
    (b c : Chunk) (o q : CellOffset) (cell : Cell)
    → InChunk q
    → Near o q
    → set b o cell ≡ some c
    → Marked c o q
Marked-here b c o q cell hq n e =
    let w = written b c o cell e in
    (
      rw w.2 ((mark-Covers b.change o).0),
      rw w.4 ((mark-Covers b.sight_dirty o).0),
      rw w.3 ((mark_neighbourhood-Covers b.sim o q hq n.0 n.1 n.2 n.3).0),
    )

Marked-stays :
    (b c : Chunk) (o p q : CellOffset) (cell : Cell)
    → InChunk o
    → set b o cell ≡ some c
    → Marked b p q
    → Marked c p q
Marked-stays b c o p q cell ho e h =
    let w = written b c o cell e in
    let near =
      mark_neighbourhood-Covers b.sim o o ho (omega arith) (omega arith) (omega arith)
        (omega arith) in
    (
      rw w.2 ((mark-Covers b.change o).1 p h.0),
      rw w.4 ((mark-Covers b.sight_dirty o).1 p h.1),
      rw w.3 (near.1 q h.2),
    )

-- However many cells are written, a cell that differs from what it was lies in `change` and in
-- `sight_dirty`, and each cell of the chunk next to it, itself included, in `sim`.
pub Writes-covered :
    (a c : Chunk) (p q : CellOffset)
    → Writes a c
    → InChunk p
    → InChunk q
    → Near p q
    → (get c p ≡ get a p) ⊎ Marked c p q
Writes-covered a c p q done hp hq n = inl refl
Writes-covered a c p q (then_set {b = b} o cell h ho e) hp hq n =
    let g = get-set b c o p cell ho hp e in
    elim g.1 [
      | inl here ↦ inr (rw here (Marked-here b c o q cell hq (subst (λ t. Near t q) here n) e))
      | inr there ↦ elim (Writes-covered a b p q h hp hq n) [
        | inl same ↦ inl (there ∙ same)
        | inr m ↦ inr (Marked-stays b c o p q cell ho e m)
      ]
    ]

-- Writes leave what the last roll put away.
pub Writes-prev :
    (a c : Chunk) → Writes a c → (c.prev_change ≡ a.prev_change) × (c.prev_sim ≡ a.prev_sim)
Writes-prev a c done = (refl, refl)
Writes-prev a c (then_set {b = b} o cell h ho e) =
    let w = written b c o cell e in let ih = Writes-prev a b h in (w.5 ∙ ih.0, w.6 ∙ ih.1)
