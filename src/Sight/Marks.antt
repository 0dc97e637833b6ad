-- ===== src/Sight/Marks.antt =====
-- What a mark does to a view.
use fallingsand.Prelude.{
  ℕ, ◌+◌, ◌*◌, ◌<◌, ◌≤◌, ◌≡◌, ◌≢◌, ◌⊎◌, refl, sym, ap, ◌∙◌, subst, inl, inr, arith, ltb, ltb→ge,
  ◌&&◌, ◌==◌, ==_iff, Bool, true, false, Bool-cases, Option, none, some, Option-cases, length,
  get_elem?, get_or, set, get_elem?-eq-get_or, get_elem?-set_ne, get_elem?-set_self, length-set,
}
use fallingsand.Prelude.Int.{
  ℤ, pos, negsuc, ◌+ℤ◌, ◌≤ℤ◌, magnitude, pos_part, neg_part, int_laws, eq_of_parts,
}
use fallingsand.Sight.Cast.{View, Span, radius, side, offset, blocked, widen, mark}

Int-cases : (a : ℤ) → ((n : ℕ) × (a ≡ pos n)) ⊎ ((n : ℕ) × (a ≡ negsuc n))
Int-cases (pos n) = inl (n, refl)
Int-cases (negsuc n) = inr (n, refl)

some_cancel : {A : Type 0} (a b : A) → some a ≡ some b → a ≡ b
some_cancel a b h = ap (λ o. elim o [ none ↦ a | some x ↦ x ]) h

-- The row and the column of a slot.
offset_parts :
    (dx dy : ℤ) (slot : ℕ)
    → offset dx dy ≡ some slot
    → (x : ℕ) × (y : ℕ) × (pos radius +ℤ dx ≡ pos x)
      × (pos radius +ℤ dy ≡ pos y)
      × (x < side)
      × (y < side)
      × (y * side + x ≡ slot)
unfolding offset
offset_parts dx dy slot h = elim (Int-cases (pos radius +ℤ dx)) [
  | inr (n, e) ↦ absurd (cc (rw (offset, e) at h))
  | inl (x, e) ↦ elim (Int-cases (pos radius +ℤ dy)) [
    | inr (n, f) ↦ absurd (cc (rw (offset, e, f) at h))
    | inl (y, f) ↦ elim (Bool-cases (ltb x side && ltb y side)) [
      | inr g ↦ absurd (cc (rw (offset, e, f, g) at h))
      | inl g ↦ (
        x,
        y,
        e,
        f,
        ground (arith, g),
        ground (arith, g),
        some_cancel (y * side + x) slot (rw (offset, e, f, g) at h),
      )
    ]
  ]
]

pub offset_lt : (dx dy : ℤ) (slot : ℕ) → offset dx dy ≡ some slot → slot < 6_561
offset_lt dx dy slot h =
    let (x, y, e, f, hx, hy, s) = offset_parts dx dy slot h in omega (arith, hx, hy, s)

offset_apart :
    (a b c d : ℤ) (slot : ℕ) → offset a b ≡ some slot → offset c d ≡ some slot → (a ≡ c) × (b ≡ d)
offset_apart a b c d slot h k =
    let (x, y, e, f, hx, hy, s) = offset_parts a b slot h in
    let (x', y', e', f', hx', hy', s') = offset_parts c d slot k in
    (
      eq_of_parts a c (
          omega (
            int_laws,
            ap pos_part e,
            ap neg_part e,
            ap pos_part e',
            ap neg_part e',
            hx,
            hx',
            hy,
            hy',
            s,
            s',
          )),
      eq_of_parts b d (
          omega (
            int_laws,
            ap pos_part f,
            ap neg_part f,
            ap pos_part f',
            ap neg_part f',
            hx,
            hx',
            hy,
            hy',
            s,
            s',
          )),
    )

abbrev pub InCircle : ℤ → ℤ → Type 0
InCircle dx dy = magnitude dx * magnitude dx + magnitude dy * magnitude dy ≤ radius * radius

abbrev pub InSpan : Option Span → ℤ → ℤ → Type 0
InSpan none dx dy = ⊥
InSpan (some (min_x, min_y, max_x, max_y)) dx dy =
    (min_x ≤ℤ dx) × (min_y ≤ℤ dy) × (dx ≤ℤ max_x) × (dy ≤ℤ max_y)

-- The texel at this offset is visible.
abbrev pub Sees : View → ℤ → ℤ → Type 0
Sees v dx dy = (slot : ℕ) × (offset dx dy ≡ some slot) × (get_elem? v.visible slot ≡ some true)

-- The tables have a place for each texel of the square, and what is visible lies in the circle and
-- in the span.
abbrev pub IsView : View → Type 0
IsView v =
    (length v.sight ≡ 6_561)
    × (length v.visible ≡ 6_561)
    × ((dx dy : ℤ) → Sees v dx dy → InCircle dx dy × InSpan v.seen dx dy)

-- From a view to one that sees as much or more.
abbrev pub Kept : View → View → Type 0
Kept v w =
    IsView w
    × (w.eye ≡ v.eye)
    × (w.sight ≡ v.sight)
    × ((slot : ℕ) → get_elem? v.visible slot ≡ some true → get_elem? w.visible slot ≡ some true)

-- It returns such a view.
abbrev pub Runs : View → Option View → Type 0
Runs v r = (w : View) × (r ≡ some w) × Kept v w

pub same_view : (v : View) → IsView v → Runs v (some v)
same_view v h = (v, refl, (h, refl, refl, λ slot k. k))

pub blocked_total : (v : View) (dx dy : ℤ) → IsView v → (b : Bool) × (blocked v dx dy ≡ some b)
unfolding blocked
blocked_total v dx dy h = elim (Option-cases (offset dx dy)) [
  | inl e ↦ (true, rw (blocked, e) refl)
  | inr (slot, e) ↦ (
    get_or v.sight slot true,
    rw (blocked, e)
        (get_elem?-eq-get_or v.sight slot true (omega (arith, offset_lt dx dy slot e, h.0))),
  )
]

widen_self : (s : Option Span) (dx dy : ℤ) → InSpan (some (widen s dx dy)) dx dy
widen_self none dx dy = (omega arith, omega arith, omega arith, omega arith)
widen_self (some (a, b, c, d)) dx dy = (ground arith, ground arith, ground arith, ground arith)

widen_more :
    (s : Option Span) (dx dy ex ey : ℤ) → InSpan s ex ey → InSpan (some (widen s dx dy)) ex ey
widen_more none dx dy ex ey h = absurd h
widen_more (some (a, b, c, d)) dx dy ex ey (h, k, l, m) =
    (ground arith, ground arith, ground arith, ground arith)

marked : View → ℤ → ℤ → ℕ → View
marked v dx dy slot = record v {
  visible = set v.visible slot true;
  seen = some (widen v.seen dx dy);
}

apart_of : (a b : ℕ) → (a == b) ≡ false → a ≢ b
apart_of a b h e = let k = (==_iff a b).1 e in absurd (cc (h, k))

marked-Sees :
    (v : View) (dx dy : ℤ) (slot : ℕ)
    → IsView v
    → offset dx dy ≡ some slot
    → InCircle dx dy
    → (ex ey : ℤ) → Sees (marked v dx dy slot) ex ey
    → InCircle ex ey × InSpan (some (widen v.seen dx dy)) ex ey
unfolding marked
marked-Sees v dx dy slot h at_slot near ex ey (other, e, g) = elim (Bool-cases (slot == other)) [
  | inl same ↦
      let (a, b) =
        offset_apart dx dy ex ey slot at_slot (e ∙ ap some (sym ((==_iff slot other).0 same))) in
      (
        subst (λ (t : ℤ). InCircle t ey) a (subst (λ (t : ℤ). InCircle dx t) b near),
        subst (λ (t : ℤ). InSpan (some (widen v.seen dx dy)) t ey) a
            (subst (λ (t : ℤ). InSpan (some (widen v.seen dx dy)) dx t) b
              (widen_self v.seen dx dy)),
      )
  | inr ne ↦
      let old : get_elem? v.visible other ≡ some true =
        sym (get_elem?-set_ne v.visible true (apart_of slot other ne)) ∙ g in
      let (c, s) = h.2 ex ey (other, e, old) in (c, widen_more v.seen dx dy ex ey s)
]

marked-Kept :
    (v : View) (dx dy : ℤ) (slot : ℕ)
    → IsView v
    → offset dx dy ≡ some slot
    → InCircle dx dy
    → Kept v (marked v dx dy slot)
unfolding marked
marked-Kept v dx dy slot h e near = (
  (h.0, length-set v.visible slot true ∙ h.1, marked-Sees v dx dy slot h e near),
  refl,
  refl,
  λ other k. elim (Bool-cases (slot == other)) [
    | inl same ↦
        ap (get_elem? (set v.visible slot true)) (sym ((==_iff slot other).0 same))
        ∙ get_elem?-set_self v.visible slot true (omega (arith, offset_lt dx dy slot e, h.1))
    | inr ne ↦ get_elem?-set_ne v.visible true (apart_of slot other ne) ∙ k
  ],
)

pub mark-Runs : (v : View) (dx dy : ℤ) → IsView v → Runs v (mark v dx dy)
unfolding mark marked
mark-Runs v dx dy h =
    elim (Bool-cases
      (ltb (radius * radius) (magnitude dx * magnitude dx + magnitude dy * magnitude dy))) [
        | inl far ↦ rw (mark, far) (same_view v h)
        | inr near ↦ elim (Option-cases (offset dx dy)) [
          | inl e ↦ rw (mark, near, e) (same_view v h)
          | inr (slot, e) ↦
              let old =
                get_elem?-eq-get_or v.visible slot true
                  (omega (arith, offset_lt dx dy slot e, h.1)) in
              rw (mark, near, e, old)
                (
                  marked v dx dy slot,
                  refl,
                  marked-Kept v dx dy slot h e (
                      ltb→ge (radius * radius)
                        (magnitude dx * magnitude dx + magnitude dy * magnitude dy) near),
                )
        ]
      ]

eye_slot : offset (pos 0) (pos 0) ≡ some 3_280
unfolding offset ◌+ℤ◌
eye_slot = refl

pub marks_eye :
    (v : View)
    → IsView v
    → (w : View) × (mark v (pos 0) (pos 0) ≡ some w) × Kept v w × Sees w (pos 0) (pos 0)
unfolding mark marked
marks_eye v h =
    let old = get_elem?-eq-get_or v.visible 3_280 true (omega (arith, h.1)) in
    (
      marked v (pos 0) (pos 0) 3_280,
      rw (mark, eye_slot, old) refl,
      marked-Kept v (pos 0) (pos 0) 3_280 h eye_slot (omega arith),
      (3_280, eye_slot, get_elem?-set_self v.visible 3_280 true (omega (arith, h.1))),
    )
