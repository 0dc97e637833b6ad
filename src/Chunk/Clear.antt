-- ===== src/Chunk/Clear.antt =====
-- The loops of `Chunk::begin_tick` (crates/fallingsand_core/src/chunk.rs): which cells they clear.
use fallingsand.Prelude.{
  ℕ, zero, suc, ◌+◌, ◌-◌, ◌*◌, ◌/◌, ◌%◌, ◌≤◌, ◌<◌, ◌≡◌, ◌≢◌, ◌⊎◌, inl, inr, refl, ap, ◌∙◌, sym,
  arith, Bool, true, false, ◌&&◌, ◌||◌, ◌==◌, ltb, leb, if◌then◌else◌, Bool-cases, Option, none,
  some, is_some, List, [], ◌∷◌, length, get_elem?, get_or, get_elem?-eq-get_or, get_elem?-some-lt,
  length-set, get_elem?-set_ne, get_elem?-set_self,
}
use fallingsand.Prelude as Prelude
use fallingsand.Cell.State.{Cell, clear_moved}
use fallingsand.Chunk.Rect.Defs.{DirtyRect, is_empty, InBounds}
use fallingsand.Chunk.State.{clear_row, clear_rows, clear_rect}

-- The cell with its flag cleared where the test says so.
abbrev pub clear_if : Bool → Option Cell → Option Cell
clear_if false o = o
clear_if true none = none
clear_if true (some c) = some (clear_moved c)

-- The cells at the indices that the test picks lost their flag; the others are as before.
abbrev pub ClearedAt : (ℕ → Bool) → List Cell → Option (List Cell) → Type 0
ClearedAt p cells none = ⊥
ClearedAt p cells (some cells') =
    (length cells' ≡ length cells)
    × ((i : ℕ) → get_elem? cells' i ≡ clear_if (p i) (get_elem? cells i))

clear_if-twice :
    (a b c : Bool) (o : Option Cell)
    → (a && b) ≡ false
    → c ≡ (a || b)
    → clear_if b (clear_if a o) ≡ clear_if c o
clear_if-twice true true c o d e = absurd (ground arith)
clear_if-twice true false c o d e = rw e refl
clear_if-twice false b c o d e = rw e refl

-- One clearing after another that picks other indices.
both_cleared :
    (p q r : ℕ → Bool) (cells mid : List Cell) (o : Option (List Cell))
    → ((i : ℕ) → (p i && q i) ≡ false)
    → ((i : ℕ) → r i ≡ (p i || q i))
    → ClearedAt p cells (some mid)
    → ClearedAt q mid o
    → ClearedAt r cells o
both_cleared p q r cells mid none d e a b = b
both_cleared p q r cells mid (some last) d e a b = (
  b.0 ∙ a.0,
  λ i.
      b.1 i
      ∙ ap (clear_if (q i)) (a.1 i)
      ∙ clear_if-twice (p i) (q i) (r i) (get_elem? cells i) (d i) (e i),
)

one_cleared :
    (cells : List Cell) (k : ℕ) (old : Cell)
    → get_elem? cells k ≡ some old
    → ClearedAt (λ i. k == i) cells (some (Prelude.set cells k (clear_moved old)))
one_cleared cells k old h = (
  length-set cells k (clear_moved old),
  λ i. elim (Bool-cases (k == i)) [
    | inl same ↦
        let s : i ≡ k = ground arith in
        rw (same, s, get_elem?-set_self cells k (clear_moved old) (get_elem?-some-lt cells k h), h)
          refl
    | inr other ↦
        rw (other, get_elem?-set_ne cells {i = k} {j = i} (clear_moved old) (ground arith)) refl
  ],
)

none_cleared :
    (p : ℕ → Bool) (cells : List Cell) → ((i : ℕ) → p i ≡ false) → ClearedAt p cells (some cells)
none_cleared p cells h = (refl, λ i. rw (h i) refl)

in_row : ℕ → ℕ → ℕ → Bool
in_row start count i = leb start i && ltb i (start + count)

missing : (cells : List Cell) (k : ℕ) → k < length cells → get_elem? cells k ≢ none
missing (c ∷ cs) zero h e = cc
missing (c ∷ cs) (suc k) h e = missing cs k (omega arith) e
missing [] k h e = elim h [ ]

cleared_row :
    (cells : List Cell) (row x count : ℕ)
    → row + x + count ≤ length cells
    → ClearedAt (in_row (row + x) count) cells (clear_row cells row x count)
unfolding clear_row in_row
cleared_row cells row x zero h =
    none_cleared (λ i. leb (row + x) i && ltb i (row + x + 0)) cells (λ i. ground arith)
cleared_row cells row x (suc count) h =
    go (get_elem? cells (row + x)) refl
      (λ mid e. cleared_row mid row (x + 1) count (omega (arith, e)))
  where
    go :
        (o : Option Cell)
        → get_elem? cells (row + x) ≡ o
        → ((mid : List Cell)
            → length mid ≡ length cells
            → ClearedAt
                (λ i. leb (row + (x + 1)) i && ltb i (row + (x + 1) + count))
                mid
                (clear_row mid row (x + 1) count))
        → ClearedAt
            (λ i. leb (row + x) i && ltb i (row + x + suc count))
            cells
            (elim o [
              | none ↦ none
              | some cell ↦
                  clear_row (Prelude.set cells (row + x) (clear_moved cell)) row (x + 1) count
            ])
    go none e f = absurd (missing cells (row + x) (omega arith) e)
    go (some old) e f =
        both_cleared (λ i. row + x == i)
          (λ i. leb (row + (x + 1)) i && ltb i (row + (x + 1) + count))
          (λ i. leb (row + x) i && ltb i (row + x + suc count)) cells
          (Prelude.set cells (row + x) (clear_moved old))
          (clear_row (Prelude.set cells (row + x) (clear_moved old)) row (x + 1) count)
          (λ i. ground arith) (λ i. ground arith) (one_cleared cells (row + x) old e)
          (f (Prelude.set cells (row + x) (clear_moved old))
            (length-set cells (row + x) (clear_moved old)))

in_rows : ℕ → ℕ → ℕ → ℕ → ℕ → Bool
in_rows x wide y count i =
    leb y (i / 64) && ltb (i / 64) (y + count) && leb x (i % 64) && ltb (i % 64) (x + wide)

cleared_rows :
    (cells : List Cell) (x wide y count : ℕ)
    → x + wide ≤ 64
    → 64 * (y + count) ≤ length cells
    → ClearedAt (in_rows x wide y count) cells (clear_rows cells x wide y count)
unfolding clear_rows in_row in_rows
cleared_rows cells x wide y zero hx h =
    none_cleared
      (λ i. leb y (i / 64) && ltb (i / 64) (y + 0) && leb x (i % 64) && ltb (i % 64) (x + wide))
      cells (λ i. ground arith)
cleared_rows cells x wide y (suc count) hx h =
    go (clear_row cells (y * 64) x wide) (cleared_row cells (y * 64) x wide (omega arith))
      (λ mid e. cleared_rows mid x wide (y + 1) count hx (omega (arith, e)))
  where
    go :
        (o : Option (List Cell))
        → ClearedAt (λ i. leb (y * 64 + x) i && ltb i (y * 64 + x + wide)) cells o
        → ((mid : List Cell)
            → length mid ≡ length cells
            → ClearedAt
                (λ i.
                  leb (y + 1) (i / 64)
                  && ltb (i / 64) (y + 1 + count)
                  && leb x (i % 64)
                  && ltb (i % 64) (x + wide))
                mid
                (clear_rows mid x wide (y + 1) count))
        → ClearedAt
            (λ i.
              leb y (i / 64)
              && ltb (i / 64) (y + suc count)
              && leb x (i % 64)
              && ltb (i % 64) (x + wide))
            cells
            (elim o [ none ↦ none | some cells' ↦ clear_rows cells' x wide (y + 1) count ])
    go none a f = a
    go (some mid) a f =
        both_cleared (λ i. leb (y * 64 + x) i && ltb i (y * 64 + x + wide))
          (λ i.
            leb (y + 1) (i / 64)
            && ltb (i / 64) (y + 1 + count)
            && leb x (i % 64)
            && ltb (i % 64) (x + wide))
          (λ i.
            leb y (i / 64)
            && ltb (i / 64) (y + suc count)
            && leb x (i % 64)
            && ltb (i % 64) (x + wide))
          cells mid (clear_rows mid x wide (y + 1) count) (λ i. ground arith) (λ i. ground arith) a
          (f mid a.0)

-- The cell at the index lies in the rectangle.
abbrev pub inside : DirtyRect → ℕ → Bool
inside r i =
    leb r.min_y (i / 64) && leb (i / 64) r.max_y && leb r.min_x (i % 64) && leb (i % 64) r.max_x

same_test :
    (p q : ℕ → Bool) (cells : List Cell) (o : Option (List Cell))
    → ((i : ℕ) → q i ≡ p i)
    → ClearedAt p cells o
    → ClearedAt q cells o
same_test p q cells none e a = a
same_test p q cells (some last) e a = (a.0, λ i. rw (e i) (a.1 i))

pub cleared_rect :
    (cells : List Cell) (r : DirtyRect)
    → length cells ≡ 4096
    → InBounds r
    → ClearedAt (inside r) cells (clear_rect cells r)
unfolding clear_rect is_empty in_rows
cleared_rect cells r h b = elim (Bool-cases (is_empty r)) [
  | inl e ↦ rw e (none_cleared (inside r) cells (λ i. ground arith))
  | inr e ↦ rw e (
      same_test (in_rows r.min_x (r.max_x - r.min_x + 1) r.min_y (r.max_y - r.min_y + 1)) (inside r)
        cells (clear_rows cells r.min_x (r.max_x - r.min_x + 1) r.min_y (r.max_y - r.min_y + 1))
        (λ i. ground arith)
        (cleared_rows cells r.min_x (r.max_x - r.min_x + 1) r.min_y (r.max_y - r.min_y + 1)
          (ground arith) (ground arith)))
]
