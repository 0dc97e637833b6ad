-- ===== src/Sim/Window/Cells.antt =====
-- The window as a map of cells: a write changes one cell of the view, and marks change none.
use fallingsand.Prelude.{
  ℕ, zero, suc, ◌+◌, ◌*◌, ◌<◌, ◌≡◌, ◌≢◌, ◌⊎◌, inl, inr, refl, sym, ap, ◌∙◌, arith, Bool, true,
  false, not, ◌&&◌, ltb, Bool-cases, Option, none, some, Option-cases, List, [], ◌∷◌, length,
  get_or, get_elem?, if◌then◌else◌,
}
use fallingsand.Prelude as Prelude
use fallingsand.Coords.{CellPos, ChunkPos}
use fallingsand.Coords.Cells
use fallingsand.Coords.Offsets.Cell.{index}
use fallingsand.Cell.{Cell}
use fallingsand.Chunk.State.{Chunk}
use fallingsand.Chunk.State as Chunk
use fallingsand.Sim.Window.State.{Window, slot_of, find, get, put, mark}

-- The cells of a slot.
abbrev pub cells_in : Option Chunk → List Cell
cells_in none = []
cells_in (some c) = c.cells

-- The cells of all slots: what a window shows, without its rectangles.
abbrev pub view_of : List (Option Chunk) → List (List Cell)
view_of [] = []
view_of (s ∷ ss) = cells_in s ∷ view_of ss

abbrev pub view : Window → List (List Cell)
view w = view_of w.slots

-- A cell of a view.
unfoldable pub seen : ChunkPos → List (List Cell) → CellPos → Option Cell
seen origin v p = elim (slot_of origin p) [
  | none ↦ none
  | some slot ↦ get_elem? (get_or v slot []) (index (Cells.offset p))
]

-- A view with another cell; out of the window, or where no chunk is loaded, nothing changes.
unfoldable pub written : ChunkPos → List (List Cell) → CellPos → Cell → List (List Cell)
written origin v p cell = elim (slot_of origin p) [
  | none ↦ v
  | some slot ↦ Prelude.set v slot (Prelude.set (get_or v slot []) (index (Cells.offset p)) cell)
]

pub view_of-set :
    (ss : List (Option Chunk)) (i : ℕ) (s : Option Chunk)
    → view_of (Prelude.set ss i s) ≡ Prelude.set (view_of ss) i (cells_in s)
view_of-set [] i s = refl
view_of-set (x ∷ ss) zero s = refl
view_of-set (x ∷ ss) (suc i) s = ap (λ t. cells_in x ∷ t) (view_of-set ss i s)

pub view_of-get_or :
    (ss : List (Option Chunk)) (i : ℕ) → get_or (view_of ss) i [] ≡ cells_in (get_or ss i none)
view_of-get_or [] i = refl
view_of-get_or (x ∷ ss) zero = refl
view_of-get_or (x ∷ ss) (suc i) = view_of-get_or ss i

pub set-get_or {ℓ} :
    {A : Type ℓ} (xs : List A) (i : ℕ) (d : A) → Prelude.set xs i (get_or xs i d) ≡ xs
set-get_or [] i d = refl
set-get_or (x ∷ xs) zero d = refl
set-get_or (x ∷ xs) (suc i) d = ap (λ t. x ∷ t) (set-get_or xs i d)

pub set_outside {ℓ} :
    {A : Type ℓ} (xs : List A) (i : ℕ) (a : A) → get_elem? xs i ≡ none → Prelude.set xs i a ≡ xs
set_outside [] i a h = refl
set_outside (x ∷ xs) zero a h = cc
set_outside (x ∷ xs) (suc i) a h = ap (λ t. x ∷ t) (set_outside xs i a h)

-- How a position is found, or why it is not.
pub data Found (w : Window) (p : CellPos) : Type 0 where
  outside : slot_of w.origin p ≡ none → find w p ≡ none → Found w p
  absent :
      (slot : ℕ)
      → slot_of w.origin p ≡ some slot
      → get_or w.slots slot none ≡ none
      → find w p ≡ none
      → Found w p
  present :
      (slot : ℕ) (chunk : Chunk)
      → slot_of w.origin p ≡ some slot
      → get_or w.slots slot none ≡ some chunk
      → find w p ≡ some (slot, chunk)
      → Found w p

pub found : (w : Window) (p : CellPos) → Found w p
unfolding find
found w p = elim (Option-cases (slot_of w.origin p)) [
  | inl e ↦ outside e (rw (e, find) refl)
  | inr (slot, e) ↦ elim (Option-cases (get_or w.slots slot none)) [
    | inl f ↦ absent slot e f (rw (e, find, f) refl)
    | inr (chunk, f) ↦ present slot chunk e f (rw (e, find, f) refl)
  ]
]

-- Reading a window is reading its view.
pub get-seen : (w : Window) (p : CellPos) → get w p ≡ seen w.origin (view w) p
unfolding get seen Chunk.get
get-seen w p = elim (found w p) [
  | outside e f ↦ rw (f, get, seen, e) refl
  | absent slot e g f ↦ rw (f, get, seen, e, view_of-get_or w.slots slot, g) refl
  | present slot chunk e g f ↦ rw (f, get, seen, e, view_of-get_or w.slots slot, g) refl
]

-- A new chunk with the same cells leaves the view.
put-view :
    (w : Window) (slot : ℕ) (chunk chunk' : Chunk)
    → get_or w.slots slot none ≡ some chunk
    → chunk'.cells ≡ chunk.cells
    → view (put w slot chunk') ≡ view w
unfolding put
put-view w slot chunk chunk' g e =
    view_of-set w.slots slot (some chunk')
    ∙ ap (λ t. Prelude.set (view w) slot t) (e ∙ sym (view_of-get_or w.slots slot ∙ ap cells_in g))
    ∙ set-get_or (view w) slot []

-- A mark keeps the view.
pub mark-view :
    (w : Window) (p : CellPos) → (view (mark w p) ≡ view w) × ((mark w p).origin ≡ w.origin)
unfolding mark put
mark-view w p = elim (found w p) [
  | outside e f ↦ rw (mark, f) (refl, refl)
  | absent slot e g f ↦ rw (mark, f) (refl, refl)
  | present slot chunk e g f ↦ rw (mark, f) (put-view w slot chunk _ g refl, refl)
]
