-- ===== src/Body/Island/Sorted.antt =====
-- The order of an island's cells.
use fallingsand.Prelude.{
  suc, ◌≡◌, refl, ap, ◌∙◌, arith, inl, inr, ◌||◌, Bool, true, false, Bool-cases, List, [], ◌∷◌,
  length, All,
}
use fallingsand.Coords.{CellPos}
use fallingsand.Body.Island.Defs.{same_cell, has, before, insert_cell, sort_cells}

or_swap : (a b c : Bool) → (a || (b || c)) ≡ (b || (a || c))
or_swap a b c = ground arith

has-insert_cell :
    (p : CellPos) (qs : List CellPos) (v : CellPos) → has (insert_cell p qs) v ≡ has (p ∷ qs) v
unfolding has insert_cell
has-insert_cell p [] v = refl
has-insert_cell p (q ∷ qs) v = elim (Bool-cases (before p q)) [
  | inl e ↦ rw (insert_cell, e) refl
  | inr e ↦
      let rest = has-insert_cell p qs v in
      let swapped : (same_cell q v || has (insert_cell p qs) v)
          ≡ (same_cell p v || (same_cell q v || has qs v)) =
        rw rest (or_swap (same_cell q v) (same_cell p v) (has qs v)) in
      rw (insert_cell, e) swapped
]

-- Sorting keeps the cells.
pub has-sort_cells : (ps : List CellPos) (v : CellPos) → has (sort_cells ps) v ≡ has ps v
unfolding has sort_cells
has-sort_cells [] v = refl
has-sort_cells (p ∷ ps) v = has-insert_cell p (sort_cells ps) v ∙ (rw (has-sort_cells ps v) refl)

length-insert_cell : (p : CellPos) (qs : List CellPos) → length (insert_cell p qs) ≡ suc (length qs)
unfolding insert_cell
length-insert_cell p [] = refl
length-insert_cell p (q ∷ qs) = elim (Bool-cases (before p q)) [
  | inl e ↦ rw (insert_cell, e) refl
  | inr e ↦ rw (insert_cell, e) (ap suc (length-insert_cell p qs))
]

pub length-sort_cells : (ps : List CellPos) → length (sort_cells ps) ≡ length ps
unfolding sort_cells
length-sort_cells [] = refl
length-sort_cells (p ∷ ps) = length-insert_cell p (sort_cells ps) ∙ ap suc (length-sort_cells ps)

-- Each cell comes before all that follow.
abbrev pub IsSorted : List CellPos → Type 0
IsSorted [] = Unit
IsSorted (p ∷ ps) = All (λ q. before p q ≡ true) ps × IsSorted ps

before_trans : (p q r : CellPos) → before p q ≡ true → before q r ≡ true → before p r ≡ true
before_trans p q r h k = ground arith

before_total : (p q : CellPos) → before p q ≡ false → before q p ≡ true
before_total p q h = ground arith

All-before :
    (p q : CellPos) (ps : List CellPos)
    → before p q ≡ true
    → All (λ r. before q r ≡ true) ps
    → All (λ r. before p r ≡ true) ps
All-before p q [] h k = tt
All-before p q (r ∷ rs) h (k, ks) = (before_trans p q r h k, All-before p q rs h ks)

All-insert_cell :
    (x p : CellPos) (qs : List CellPos)
    → before x p ≡ true
    → All (λ r. before x r ≡ true) qs
    → All (λ r. before x r ≡ true) (insert_cell p qs)
unfolding insert_cell
All-insert_cell x p [] h k = (h, tt)
All-insert_cell x p (q ∷ qs) h (k, ks) = elim (Bool-cases (before p q)) [
  | inl e ↦ rw (insert_cell, e) (h, (k, ks))
  | inr e ↦ rw (insert_cell, e) (k, All-insert_cell x p qs h ks)
]

insert_cell-IsSorted : (p : CellPos) (qs : List CellPos) → IsSorted qs → IsSorted (insert_cell p qs)
unfolding insert_cell
insert_cell-IsSorted p [] h = (tt, tt)
insert_cell-IsSorted p (q ∷ qs) (h, hs) = elim (Bool-cases (before p q)) [
  | inl e ↦ rw (insert_cell, e) ((e, All-before p q qs e h), (h, hs))
  | inr e ↦
      rw (insert_cell, e)
        (All-insert_cell q p qs (before_total p q e) h, insert_cell-IsSorted p qs hs)
]

pub sort_cells-IsSorted : (ps : List CellPos) → IsSorted (sort_cells ps)
unfolding sort_cells
sort_cells-IsSorted [] = tt
sort_cells-IsSorted (p ∷ ps) = insert_cell-IsSorted p (sort_cells ps) (sort_cells-IsSorted ps)
