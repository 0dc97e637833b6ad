-- ===== src/Coords/Rects.antt =====
-- `impl CellRect` (crates/fallingsand_core/src/coords.rs). Sums and differences of `i32` wrap around, as in
-- a release build.
mod Tests
use fallingsand.Prelude.{
  ℕ, zero, suc, ◌+◌, ◌-◌, ◌*◌, ◌/◌, ◌%◌, ◌≤◌, ◌<◌, ◌≡◌, refl, sym, ap, ◌∙◌, arith, inl, inr, leb,
  ltb, ◌==◌, ◌&&◌, if◌then◌else◌, Bool, true, false, Bool-cases, List, [], ◌∷◌, ◌++◌, length,
}
use fallingsand.Prelude.Words.{i32_mod, add_i32, sub_i32, minus_one, le_i32, flip_sign}
use fallingsand.Coords.Types.{CellPos, CellRect, IsCellPos}

unfoldable pub new : CellPos → CellPos → CellRect
new min max = record { min = min; max = max }

unfoldable pub spanning : CellPos → ℕ → ℕ → CellRect
spanning origin width height = record {
  min = origin;
  max = record { x = sub_i32 (add_i32 origin.x width) 1; y = sub_i32 (add_i32 origin.y height) 1 };
}

-- `size / 2` of a size that is not negative.
unfoldable pub around : CellPos → ℕ → CellRect
around center size =
    let low = size / 2 in
    record {
      min = record { x = sub_i32 center.x low; y = sub_i32 center.y low };
      max = record {
        x = sub_i32 (sub_i32 (add_i32 center.x size) low) 1;
        y = sub_i32 (sub_i32 (add_i32 center.y size) low) 1;
      };
    }

unfoldable pub grown : CellRect → ℕ → CellRect
grown r by = record {
  min = record { x = sub_i32 r.min.x by; y = sub_i32 r.min.y by };
  max = record { x = add_i32 r.max.x by; y = add_i32 r.max.y by };
}

unfoldable pub contains : CellRect → CellPos → Bool
contains r p = le_i32 r.min.x p.x && le_i32 p.x r.max.x && le_i32 r.min.y p.y && le_i32 p.y r.max.y

-- `lo..=hi`: the values in their signed order.
abbrev pub upwards : ℕ → ℕ → List ℕ
upwards v zero = []
upwards v (suc n) = v ∷ upwards (add_i32 v 1) n

unfoldable pub inclusive : ℕ → ℕ → List ℕ
inclusive lo hi = upwards lo (flip_sign hi + 1 - flip_sign lo)

unfoldable pub columns : CellRect → List ℕ
unfolding inclusive
columns r = inclusive r.min.x r.max.x

unfoldable pub rows : CellRect → List ℕ
unfolding inclusive
rows r = inclusive r.min.y r.max.y

abbrev pub row_cells : ℕ → List ℕ → List CellPos
row_cells y [] = []
row_cells y (x ∷ xs) = record { x = x; y = y } ∷ row_cells y xs

abbrev pub all_cells : List ℕ → List ℕ → List CellPos
all_cells [] xs = []
all_cells (y ∷ ys) xs = row_cells y xs ++ all_cells ys xs

unfoldable pub cells : CellRect → List CellPos
unfolding rows columns
cells r = all_cells (rows r) (columns r)

-- How often a position is in a list.
abbrev pub times_in : CellPos → List CellPos → ℕ
times_in p [] = 0
times_in p (q ∷ qs) = (if q.x == p.x && q.y == p.y then 1 else 0) + times_in p qs

abbrev times_of : ℕ → List ℕ → ℕ
times_of v [] = 0
times_of v (w ∷ ws) = (if w == v then 1 else 0) + times_of v ws

abbrev one_if : Bool → ℕ
one_if b = if b then 1 else 0

upwards_once :
    (v lo n : ℕ)
    → v < i32_mod
    → lo < i32_mod
    → flip_sign lo + n ≤ i32_mod
    → times_of v (upwards lo n)
      ≡ one_if (leb (flip_sign lo) (flip_sign v) && ltb (flip_sign v) (flip_sign lo + n))
upwards_once v lo zero hv hl h = ground arith
upwards_once v lo (suc n) hv hl h =
    ground (arith, upwards_once v (add_i32 lo 1) n hv (omega arith) (omega (arith, h)))

times_in-append :
    (p : CellPos) (ps qs : List CellPos) → times_in p (ps ++ qs) ≡ times_in p ps + times_in p qs
times_in-append p [] qs = omega arith
times_in-append p (a ∷ ps) qs = omega (arith, times_in-append p ps qs)

times_in-row :
    (p : CellPos) (y : ℕ) (xs : List ℕ)
    → times_in p (row_cells y xs) ≡ times_of p.x xs * one_if (y == p.y)
times_in-row p y [] = omega arith
times_in-row p y (x ∷ xs) =
    let rest = times_in-row p y xs in
    elim (Bool-cases (y == p.y)) [
      | inl e ↦ let k = rw e at rest in rw e (ground (arith, k))
      | inr e ↦ let k = rw e at rest in rw e (ground (arith, k))
    ]

times_in-all :
    (p : CellPos) (ys xs : List ℕ)
    → times_in p (all_cells ys xs) ≡ times_of p.x xs * times_of p.y ys
times_in-all p [] xs = omega arith
times_in-all p (y ∷ ys) xs =
    rw
      (
        times_in-append p (row_cells y xs) (all_cells ys xs),
        times_in-row p y xs,
        times_in-all p ys xs,
      )
      (grind arith)

inclusive_once :
    (v lo hi : ℕ)
    → v < i32_mod
    → lo < i32_mod
    → hi < i32_mod
    → times_of v (inclusive lo hi) ≡ one_if (le_i32 lo v && le_i32 v hi)
unfolding inclusive
inclusive_once v lo hi hv hl hh = elim (Bool-cases (leb (flip_sign lo) (flip_sign hi))) [
  | inl e ↦ ground (arith, upwards_once v lo (flip_sign hi + 1 - flip_sign lo) hv hl (omega arith))
  | inr e ↦
      let empty : flip_sign hi + 1 - flip_sign lo ≡ 0 = ground arith in rw empty (ground arith)
]

both : (a b c d : Bool) → one_if (a && b) * one_if (c && d) ≡ one_if (a && b && c && d)
both a b c d = ground arith

length-upwards : (lo n : ℕ) → length (upwards lo n) ≡ n
length-upwards lo zero = refl
length-upwards lo (suc n) = ap suc (length-upwards (add_i32 lo 1) n)

-- `cells` lists the positions that the rectangle contains, each once, and no other. The rectangle may
-- be empty.
pub cells_once :
    (r : CellRect) (p : CellPos)
    → IsCellPos r.min
    → IsCellPos r.max
    → IsCellPos p
    → times_in p (cells r) ≡ (if contains r p then 1 else 0)
unfolding cells contains rows columns inclusive
cells_once r p hl hh hp =
    times_in-all p (rows r) (columns r)
    ∙ (rw
        (
          inclusive_once p.x r.min.x r.max.x hp.0 hl.0 hh.0,
          inclusive_once p.y r.min.y r.max.y hp.1 hl.1 hh.1,
        )
        (both (le_i32 r.min.x p.x) (le_i32 p.x r.max.x) (le_i32 r.min.y p.y) (le_i32 p.y r.max.y)))

-- A square around a cell has so many rows and columns, where they are within the world's range of
-- coordinates, and contains the cell.
pub around_square :
    (c : CellPos) (size : ℕ)
    → IsCellPos c
    → 0 < size
    → size ≤ flip_sign c.x
    → size ≤ flip_sign c.y
    → flip_sign c.x + size < i32_mod
    → flip_sign c.y + size < i32_mod
    → (contains (around c size) c ≡ true)
      × (length (columns (around c size)) ≡ size)
      × (length (rows (around c size)) ≡ size)
unfolding around contains columns rows inclusive
around_square c size h some lx ly hx hy =
    let r = around c size in
    (
      ground arith,
      length-upwards r.min.x (flip_sign r.max.x + 1 - flip_sign r.min.x) ∙ ground arith,
      length-upwards r.min.y (flip_sign r.max.y + 1 - flip_sign r.min.y) ∙ ground arith,
    )
