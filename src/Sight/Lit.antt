-- ===== src/Sight/Lit.antt =====
-- The shadow cast ends, and what it makes visible.
use fallingsand.Prelude.{
  ℕ, zero, suc, ◌+◌, ◌*◌, ◌<◌, ◌≤◌, ◌≡◌, refl, ap, ◌∙◌, inl, inr, arith, ltb, ltb→ge, not, ◌&&◌,
  ◌||◌, if◌then◌else◌, Bool, true, false, Bool-cases, Option, none, some, List, length, get_elem?,
  length-replicate, replicate, ◌≢◌,
}
use fallingsand.Prelude.Int.{ℤ, pos, ◌+ℤ◌, ◌-ℤ◌, ◌*ℤ◌, pos_part}
use fallingsand.Chunk.Fog.Texels.{FogPos}
use fallingsand.Sight.Cast.{
  View, Slope, Sweep, Deeper, radius, transform, symmetric, turn, sweep_column, sweep, scan,
  min_column, max_column, scan_quadrants, cast, left, right, aim,
}
use fallingsand.Sight.Marks.{
  IsView, Kept, Runs, Sees, InCircle, InSpan, same_view, blocked_total, mark-Runs, marks_eye,
}

Kept-trans : (u v w : View) → Kept u v → Kept v w → Kept u w
Kept-trans u v w (h, e, s, m) (h', e', s', m') = (h', e' ∙ e, s' ∙ s, λ i k. m' i (m i k))

same-Kept : (v : View) → IsView v → Kept v v
same-Kept v h = (h, refl, refl, λ slot k. k)

-- The sweep returns, and its view is kept.
abbrev SweepRuns : View → Option Sweep → Type 0
SweepRuns v r = (s : Sweep) × (r ≡ some s) × Kept v s.view

module _ (deeper : Deeper) (runs : (a b : Slope) (v : View) → IsView v → Runs v (deeper a b v))
    (quadrant depth : ℕ) (end : Slope) where
  turn_runs :
      (column : ℤ) (wall : Bool) (s : Sweep) (v view : View)
      → Kept v view
      → SweepRuns v (turn deeper quadrant depth end column wall s view)
  unfolding turn
  turn_runs column wall s v view k =
      let edge : Slope = record { num = pos 2 *ℤ column -ℤ pos 1; den = 2 * depth } in
      let start : Slope = if s.previous_wall && not wall then edge else s.start in
      elim (Bool-cases (not s.previous_wall && wall)) [
        | inr e ↦
            rw (turn, e) (record { view = view; start = start; previous_wall = wall }, refl, k)
        | inl e ↦
            let (w, f, l) = runs start edge view k.0 in
            rw (turn, e, f)
              (
                record { view = w; start = start; previous_wall = wall },
                refl,
                Kept-trans v view w k l,
              )
      ]

  sweep_column_runs :
      (column : ℤ) (s : Sweep)
      → IsView s.view
      → SweepRuns s.view (sweep_column deeper quadrant depth end column s)
  unfolding sweep_column
  sweep_column_runs column s h =
      let at_column = transform quadrant depth column in
      let (wall, e) = blocked_total s.view at_column.0 at_column.1 h in
      elim (Bool-cases (wall || symmetric s.start end depth column)) [
        | inl b ↦
            let (w, f, k) = mark-Runs s.view at_column.0 at_column.1 h in
            rw (sweep_column, e, b, f) (turn_runs column wall s s.view w k)
        | inr b ↦
            rw (sweep_column, e, b) (turn_runs column wall s s.view s.view (same-Kept s.view h))
      ]

  sweep_runs :
      (n : ℕ) (column : ℤ) (s : Sweep)
      → IsView s.view
      → SweepRuns s.view (sweep deeper quadrant depth end n column s)
  unfolding sweep
  sweep_runs zero column s h = (s, refl, (same-Kept s.view h))
  sweep_runs (suc n) column s h =
      let (s', e, k) = sweep_column_runs column s h in
      let (s'', f, l) = sweep_runs n (column +ℤ pos 1) s' k.0 in
      (s'', rw (sweep, e) f, Kept-trans s.view s'.view s''.view k l)

-- A scan ends: its fuel is one more than the rows that are left.
scan-Runs :
    (fuel quadrant depth : ℕ) (start end : Slope) (v : View)
    → radius + 1 < fuel + depth
    → depth ≤ radius + 1
    → IsView v
    → Runs v (scan fuel quadrant depth start end v)
unfolding scan
scan-Runs zero quadrant depth start end v enough row h = absurd (omega (arith, enough, row))
scan-Runs (suc fuel) quadrant depth start end v enough row h =
    elim (Bool-cases (ltb radius depth)) [
      | inl past ↦ rw (scan, past) (same_view v h)
      | inr in_row ↦
          let deeper = scan fuel quadrant (depth + 1) in
          let near = ltb→ge radius depth in_row in
          let runs = λ (a b : Slope) (w : View) (k : IsView w).
            scan-Runs fuel quadrant (depth + 1) a b w (omega (arith, enough)) (omega (arith, near))
              k in
          let first = min_column start depth in
          let columns = pos_part (max_column end depth +ℤ pos 1 -ℤ first) in
          let (s, e, k) =
            sweep_runs deeper runs quadrant depth end columns first
              (record { view = v; start = start; previous_wall = true }) h in
          elim (Bool-cases s.previous_wall) [
            | inl b ↦ rw (scan, in_row, e, b) (s.view, refl, k)
            | inr b ↦
                let (w, f, l) = runs s.start end s.view k.0 in
                rw (scan, in_row, e, b) (w, f, Kept-trans v s.view w k l)
          ]
    ]

scan_quadrants-Runs : (quadrant n : ℕ) (v : View) → IsView v → Runs v (scan_quadrants quadrant n v)
unfolding scan_quadrants
scan_quadrants-Runs quadrant zero v h = same_view v h
scan_quadrants-Runs quadrant (suc n) v h =
    let (w, e, k) = scan-Runs 41 quadrant 1 left right v (omega arith) (omega arith) h in
    let (u, f, l) = scan_quadrants-Runs (quadrant + 1) n w k.0 in
    (u, rw (scan_quadrants, e) f, Kept-trans v w u k l)

dark : (n i : ℕ) → get_elem? (replicate n false) i ≢ some true
dark zero i h = cc h
dark (suc n) zero h = absurd (cc (ap (λ o. elim o [ none ↦ true | some b ↦ b ]) h))
dark (suc n) (suc i) h = dark n i h

aim-IsView : (v : View) (eye : FogPos) → IsView (aim v eye)
unfolding aim
aim-IsView v eye = (
  length-replicate 6_561 true,
  length-replicate 6_561 false,
  λ dx dy s. absurd (dark 6_561 s.0 s.2),
)

-- From a view that was aimed, with any table of what blocks the sight, the shadow cast ends and never
-- panics. It leaves the eye and that table as they are, makes the eye's own texel visible, and all that it
-- makes visible lies within 40 texels of the eye and in the span that it reports.
pub cast_lights :
    (v : View) (eye : FogPos) (sight : List Bool)
    → length sight ≡ 6_561
    → let aimed : View = record (aim v eye) { sight = sight } in
      (w : View) × (cast aimed ≡ some w)
      × (w.eye ≡ eye)
      × (w.sight ≡ sight)
      × Sees w (pos 0) (pos 0)
      × ((dx dy : ℤ) → Sees w dx dy → InCircle dx dy × InSpan w.seen dx dy)
unfolding cast aim
cast_lights v eye sight long =
    let aimed : View = record (aim v eye) { sight = sight } in
    let good = aim-IsView v eye in
    let whole : IsView aimed = (long, good.1, good.2) in
    let (v1, e, k, (slot, f, g)) = marks_eye aimed whole in
    let (w, l, (h, same_eye, same_sight, more)) = scan_quadrants-Runs 0 4 v1 k.0 in
    (w, rw (cast, e) l, same_eye ∙ k.1, same_sight ∙ k.2, (slot, f, more slot g), h.2)
