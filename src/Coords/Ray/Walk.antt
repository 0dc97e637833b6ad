-- ===== src/Coords/Ray/Walk.antt =====
-- A ray ends at its end, by unit steps along the axes, and its error term stays small.
use mathlib.Core.Path.{subst}
use fallingsand.Prelude.{
  ℕ, zero, suc, ◌+◌, ◌-◌, ◌<◌, ◌≡◌, refl, sym, ap, ◌⊎◌, inl, inr, arith, true, false, Bool-cases,
  List, [], ◌∷◌, length, some, none, if◌then◌else◌, ◌*◌,
}
use fallingsand.Prelude.Int.{
  ℤ, pos, negsuc, neg_ℕ, magnitude, pos_part, neg_part, ◌+ℤ◌, ◌-ℤ◌, eq_of_parts, +ℤ_parts,
}
use fallingsand.Prelude.Words.{
  signed32, to_i32, lt_i32, add_i32, to_i32-signed32, to_i32-suc, to_i32-pred,
}
use fallingsand.Coords.Types.{CellPos, IsCellPos}
use fallingsand.Coords.Ray.Steps.{
  Ray, start_ray, goes_x, finished, advance_x, advance_y, cell, next, collect, ray_cells,
}
use fallingsand.Coords.Ray.Balance.{
  Leads, finished_iff, Inv, x_left, y_left, Inv-advance_x, Inv-advance_y,
}

abbrev pub Beside : ℕ → ℕ → Type 0
Beside a b = (add_i32 a 1 ≡ b) ⊎ (add_i32 b 1 ≡ a)

-- Neighbours along one axis.
abbrev pub Adjacent : CellPos → CellPos → Type 0
Adjacent p q = Beside p.x q.x × (p.y ≡ q.y) ⊎ (p.x ≡ q.x) × Beside p.y q.y

-- The cells lead from `p` to `q`, each a neighbour of the one before it.
abbrev pub Walk : CellPos → List CellPos → CellPos → Type 0
Walk p [] q = p ≡ q
Walk p (c ∷ cs) q = Adjacent p c × Walk c cs q

abbrev goal : Ray → CellPos
goal r = record { x = to_i32 r.ex; y = to_i32 r.ey }

Leads-Beside : (v s g : ℤ) (n : ℕ) → Leads v s g n → Beside (to_i32 v) (to_i32 (v +ℤ s))
Leads-Beside v s g n (inl (e, _)) = rw e (inl (sym (to_i32-suc v)))
Leads-Beside v s g n (inr (e, _)) = rw e (inr (to_i32-pred v))

positive : (a : ℕ) → 0 < a → a ≡ suc (a - 1)
positive a h = omega arith

module _ {w h a b : ℕ} (r : Ray) (i : Inv w h a b r) where
  next_end : a + b ≡ 0 → (next r ≡ none) × (cell r ≡ goal r)
  unfolding next
  next_end z =
      let ex : r.x ≡ r.ex = eq_of_parts r.x r.ex (ground (arith, i.along_x)) in
      let ey : r.y ≡ r.ey = eq_of_parts r.y r.ey (ground (arith, i.along_y)) in
      (rw ((finished_iff r i).1 z), λ k. record { x = to_i32 (ex k); y = to_i32 (ey k) })

  running : 0 < a + b → finished r ≡ false
  running left = elim (Bool-cases (finished r)) [
    | inl t ↦ absurd (omega (arith, (finished_iff r i).0 t))
    | inr f ↦ f
  ]

  next_x :
      0 < a + b
      → goes_x r ≡ true
      → (next r ≡ some (cell (advance_x r), advance_x r))
        × Inv w h (a - 1) b (advance_x r)
        × Adjacent (cell r) (cell (advance_x r))
  unfolding next
  next_x left t = (
    rw (running left, t),
    Inv-advance_x r (subst (λ k. Inv w h k b r) (positive a (x_left r i left t)) i) t,
    unfold advance_x in inl (Leads-Beside r.x r.sx r.ex a i.along_x, refl),
  )

  next_y :
      0 < a + b
      → goes_x r ≡ false
      → (next r ≡ some (cell (advance_y r), advance_y r))
        × Inv w h a (b - 1) (advance_y r)
        × Adjacent (cell r) (cell (advance_y r))
  unfolding next
  next_y left t = (
    rw (running left, t),
    Inv-advance_y r (subst (λ k. Inv w h a k r) (positive b (y_left r i left t)) i) t,
    unfold advance_y in inr (refl, Leads-Beside r.y r.sy r.ey b i.along_y),
  )

-- The iterator's run from a state with `n` steps left.
abbrev Runs : ℕ → ℕ → Ray → Type 0
Runs fuel n r =
    (cs : List CellPos) × (collect fuel r ≡ some cs) × (length cs ≡ n) × Walk (cell r) cs (goal r)

collect_step :
    (fuel n : ℕ) (r r' : Ray)
    → next r ≡ some (cell r', r')
    → goal r' ≡ goal r
    → Adjacent (cell r) (cell r')
    → Runs fuel n r'
    → Runs (suc fuel) (suc n) r
unfolding collect
collect_step fuel n r r' e g near (cs, run, len, walk) = (
  cell r' ∷ cs,
  rw (e, collect, run),
  ap suc len,
  (near, subst (λ q. Walk (cell r') cs q) g walk),
)

collect_walk : {w h : ℕ} (n : ℕ) {a b : ℕ} (r : Ray) → Inv w h a b r → a + b ≡ n → Runs (suc n) n r
unfolding collect
collect_walk zero r i e = ([], rw ((next_end r i e).0, collect), refl, (next_end r i e).1)
collect_walk (suc n) r i e = elim (Bool-cases (goes_x r)) [
  | inl t ↦
      let (step, i', near) = next_x r i (omega arith) t in
      collect_step (suc n) n r (advance_x r) step (unfold advance_x in refl) near
        (collect_walk n (advance_x r) i' (omega (arith, x_left r i (omega arith) t)))
  | inr t ↦
      let (step, i', near) = next_y r i (omega arith) t in
      collect_step (suc n) n r (advance_y r) step (unfold advance_y in refl) near
        (collect_walk n (advance_y r) i' (omega (arith, y_left r i (omega arith) t)))
]

abbrev pub distance : ℕ → ℕ → ℕ
distance a b = magnitude (signed32 b -ℤ signed32 a)

direction :
    (a b : ℕ)
    → a < 4_294_967_296
    → b < 4_294_967_296
    → Leads (signed32 a) (if lt_i32 a b then pos 1 else negsuc 0) (signed32 b) (distance a b)
unfolding ◌-ℤ◌
direction a b ha hb = ground arith

neg_ℕ_parts : (n : ℕ) → (pos_part (neg_ℕ n) ≡ 0) × (neg_part (neg_ℕ n) ≡ n)
neg_ℕ_parts zero = (refl, refl)
neg_ℕ_parts (suc n) = (refl, refl)

start-Inv :
    (p q : CellPos)
    → IsCellPos p
    → IsCellPos q
    → Inv
        (distance p.x q.x)
        (distance p.y q.y)
        (distance p.x q.x)
        (distance p.y q.y)
        (start_ray p q)
unfolding start_ray
start-Inv p q hp hq =
    let w = distance p.x q.x in
    let h = distance p.y q.y in
    let n = neg_ℕ_parts h in
    let e = +ℤ_parts (pos w) (neg_ℕ h) in
    record {
      dx_eq = (refl, refl);
      dy_eq = n;
      a_le = omega arith;
      b_le = omega arith;
      along_x = direction p.x q.x hp.0 hq.0;
      along_y = direction p.y q.y hp.1 hq.1;
      balance = grind arith;
      error_hi = omega arith;
      error_lo = omega arith;
    }

cell_start : (p q : CellPos) → IsCellPos p → cell (start_ray p q) ≡ p
unfolding start_ray
cell_start p q h = λ k. record { x = to_i32-signed32 p.x h.0 k; y = to_i32-signed32 p.y h.1 k }

goal_start : (p q : CellPos) → IsCellPos q → goal (start_ray p q) ≡ q
unfolding start_ray
goal_start p q h = λ k. record { x = to_i32-signed32 q.x h.0 k; y = to_i32-signed32 q.y h.1 k }

-- Between any two cells the ray ends, after as many cells as the ends are apart along both axes
-- together; it leads from its start to its end by unit steps along one axis at a time.
pub ray_cells-Walk :
    (p q : CellPos)
    → IsCellPos p
    → IsCellPos q
    → let n = distance p.x q.x + distance p.y q.y in
      (cs : List CellPos) × (ray_cells (suc n) p q ≡ some cs) × (length cs ≡ n) × Walk p cs q
unfolding ray_cells
ray_cells-Walk p q hp hq =
    let (cs, run, len, walk) = collect_walk _ (start_ray p q) (start-Inv p q hp hq) refl in
    (
      cs,
      run,
      len,
      subst (λ c. Walk c cs q) (cell_start p q hp)
          (subst (λ c. Walk (cell (start_ray p q)) cs c) (goal_start p q hq) walk),
    )

distance-lt : (a b : ℕ) → a < 4_294_967_296 → b < 4_294_967_296 → distance a b < 4_294_967_296
unfolding ◌-ℤ◌
distance-lt a b ha hb = ground arith

-- The states that the closure goes through.
pub data Visits (r : Ray) : Ray → Type 0 where
  here : Visits r r
  step : {s t : Ray} {c : CellPos} → Visits r s → next s ≡ some (c, t) → Visits r t

-- A visited state keeps the balance at some pair of steps left.
abbrev Balanced : ℕ → ℕ → Ray → Type 0
Balanced w h r = (a : ℕ) × (b : ℕ) × Inv w h a b r

Balanced-next :
    {w h : ℕ} (r t : Ray) {c : CellPos} → Balanced w h r → next r ≡ some (c, t) → Balanced w h t
Balanced-next {w} {h} r t (a, b, i) e = elim (Bool-cases (finished r)) [
  | inl f ↦ let now = (next_end r i ((finished_iff r i).0 f)).0 in cc
  | inr f ↦
      let left : 0 < a + b = ground (arith, (finished_iff r i).1) in
      elim (Bool-cases (goes_x r)) [
        | inl g ↦
            let (now, i', _) = next_x r i left g in
            let same : advance_x r ≡ t = cc in subst (Balanced w h) same (a - 1, b, i')
        | inr g ↦
            let (now, i', _) = next_y r i left g in
            let same : advance_y r ≡ t = cc in subst (Balanced w h) same (a, b - 1, i')
      ]
]

Visits-Balanced : {w h : ℕ} {r s : Ray} → Balanced w h r → Visits r s → Balanced w h s
Visits-Balanced i here = i
Visits-Balanced i (step v e) = Balanced-next _ _ (Visits-Balanced i v) e

-- In every state that the ray goes through, twice the error term stays below 2 ^ 36 in magnitude.
pub error_fits :
    (p q : CellPos) {r : Ray}
    → IsCellPos p
    → IsCellPos q
    → Visits (start_ray p q) r
    → 2 * magnitude r.error < 68_719_476_736
error_fits p q {r} hp hq v =
    let (a, b, i) = Visits-Balanced (distance p.x q.x, distance p.y q.y, start-Inv p q hp hq) v in
    ground (arith, i.error_hi, i.error_lo, distance-lt p.x q.x, distance-lt p.y q.y)
