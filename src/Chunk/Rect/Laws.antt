-- ===== src/Chunk/Rect/Laws.antt =====
-- What marking and uniting cover: everything asked for, and no more than a rectangle must.
mod Tests
use fallingsand.Prelude.{ℕ, ◌+◌, ◌-◌, ◌*◌, ◌≤◌, ◌<◌, ◌≡◌, ◌↔◌, ◌⊎◌, arith, true, false}
use fallingsand.Coords.{CellOffset, InChunk}
use fallingsand.Chunk.Rect.Defs.{
  DirtyRect, empty, is_empty, mark, mark_neighbourhood, union, width, height, Covers, InBounds,
}

-- The second rectangle covers what the first does.
abbrev pub Within : DirtyRect → DirtyRect → Type 0
Within r s = (o : CellOffset) → Covers r o → Covers s o

-- A rectangle is empty exactly when it covers no offset.
pub is_empty_iff : (r : DirtyRect) → (is_empty r ≡ true) ↔ ((o : CellOffset) → ¬ Covers r o)
unfolding is_empty
is_empty_iff r = (
  λ e o c. ground arith,
  λ none_covered. ground (arith, none_covered (record { x = r.min_x; y = r.min_y })),
)

abbrev low : DirtyRect → CellOffset
low r = record { x = r.min_x; y = r.min_y }

abbrev high : DirtyRect → CellOffset
high r = record { x = r.max_x; y = r.max_y }

-- Marking covers the offset and all that was covered before.
pub mark-Covers : (r : DirtyRect) (o : CellOffset) → Covers (mark r o) o × Within r (mark r o)
unfolding mark
mark-Covers r o = (ground arith, λ p c. ground arith)

-- Marking an offset in a rectangle that is not empty is the least cover: a rectangle covers the
-- marked one exactly when it covers the old one and the offset.
pub mark_least :
    (r : DirtyRect) (o : CellOffset) (t : DirtyRect)
    → is_empty r ≡ false
    → Within (mark r o) t ↔ (Within r t × Covers t o)
unfolding mark is_empty
mark_least r o t e = (
  λ w. (λ p c. w p (ground arith), w o (ground arith)),
  λ w p c. ground (arith, w.0 (low r), w.0 (high r)),
)

-- Marking the empty rectangle covers that one offset.
pub mark-empty : (o p : CellOffset) → InChunk o → Covers (mark empty o) p ↔ (p ≡ o)
unfolding mark
mark-empty o p h = ground arith

-- Marking a neighbourhood covers every offset of the chunk next to the marked one, and all that was
-- covered before.
pub mark_neighbourhood-Covers :
    (r : DirtyRect) (o p : CellOffset)
    → InChunk p
    → p.x ≤ o.x + 1
    → o.x ≤ p.x + 1
    → p.y ≤ o.y + 1
    → o.y ≤ p.y + 1
    → Covers (mark_neighbourhood r o) p × Within r (mark_neighbourhood r o)
unfolding mark_neighbourhood
mark_neighbourhood-Covers r o p h a b c d = (ground arith, λ q k. ground arith)

-- A union is the least rectangle that covers both: a rectangle covers the union exactly when it
-- covers each of the two.
pub union_least : (r s t : DirtyRect) → Within (union r s) t ↔ (Within r t × Within s t)
unfolding union is_empty
union_least r s t = (
  λ w. (λ o c. w o (ground arith), λ o c. w o (ground arith)),
  λ w o c. ground (arith, w.0 o, w.1 o, w.0 (low r), w.0 (high r), w.1 (low s), w.1 (high s)),
)
