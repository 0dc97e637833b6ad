-- ===== src/Cell/Flags.antt =====
-- The three flags of a cell do not disturb one another.
use fallingsand.Prelude.{
  ℕ, ◌<◌, ◌≡◌, refl, arith, Bool, true, false, not, ◌&&◌, bit_and, bit_or, ◌==◌, all_below,
  all_below_sound,
}
use fallingsand.Cell.State.{moved_bit, body_bit, stress_bit, without}

abbrev same : Bool → Bool → Bool
same true b = b
same false b = not b

same→≡ : (a b : Bool) → same a b ≡ true → a ≡ b
same→≡ true b e = ground arith
same→≡ false true e = cc
same→≡ false false e = refl

abbrev has : ℕ → ℕ → Bool
has mask f = not (bit_and f mask == 0)

-- Setting or clearing the bit `mask` of a byte decides that bit and leaves the bit `other`.
abbrev decides : ℕ → ℕ → ℕ → Bool
decides mask other f =
    has mask (bit_or f mask)
    && not (has mask (without f mask))
    && same (has other (bit_or f mask)) (has other f)
    && same (has other (without f mask)) (has other f)

table :
    all_below 256 (λ f.
      decides moved_bit stress_bit f
      && decides moved_bit body_bit f
      && (decides stress_bit moved_bit f && decides stress_bit body_bit f)
      && (decides body_bit moved_bit f && decides body_bit stress_bit f))
    ≡ true
unfolding all_below
table = refl

row :
    (f : ℕ)
    → f < 256
    → (decides moved_bit stress_bit f
        && decides moved_bit body_bit f
        && (decides stress_bit moved_bit f && decides stress_bit body_bit f)
        && (decides body_bit moved_bit f && decides body_bit stress_bit f))
      ≡ true
row f h = all_below_sound 256 _ f table h

-- The row, as equations.
abbrev Decided : ℕ → ℕ → ℕ → Type 0
Decided mask other f =
    (has mask (bit_or f mask) ≡ true)
    × (has mask (without f mask) ≡ false)
    × (has other (bit_or f mask) ≡ has other f)
    × (has other (without f mask) ≡ has other f)

and_left : (a b : Bool) → (a && b) ≡ true → a ≡ true
and_left a b e = ground arith

and_right : (a b : Bool) → (a && b) ≡ true → b ≡ true
and_right a b e = ground arith

not-true : (a : Bool) → not a ≡ true → a ≡ false
not-true a e = ground arith

decided : (mask other f : ℕ) → decides mask other f ≡ true → Decided mask other f
decided mask other f e =
    let p = has mask (bit_or f mask) in
    let q = not (has mask (without f mask)) in
    let r = same (has other (bit_or f mask)) (has other f) in
    let s = same (has other (without f mask)) (has other f) in
    let e3 = and_left (p && q && r) s e in
    let e2 = and_left (p && q) r e3 in
    (
      and_left p q e2,
      not-true (has mask (without f mask)) (and_right p q e2),
      same→≡ _ _ (and_right (p && q) r e3),
      same→≡ _ _ (and_right (p && q && r) s e),
    )

cleared_table :
    all_below 256 (λ g. not (has body_bit (without (bit_or g body_bit) body_bit))) ≡ true
unfolding all_below
cleared_table = refl

module _ (f : ℕ) (h : f < 256) where
  pub moved_stress : Decided moved_bit stress_bit f
  moved_stress = decided _ _ f (and_left _ _ (and_left _ _ (and_left _ _ (row f h))))

  pub moved_body : Decided moved_bit body_bit f
  moved_body = decided _ _ f (and_right _ _ (and_left _ _ (and_left _ _ (row f h))))

  pub stress_moved : Decided stress_bit moved_bit f
  stress_moved = decided _ _ f (and_left _ _ (and_right _ _ (and_left _ _ (row f h))))

  pub stress_body : Decided stress_bit body_bit f
  stress_body = decided _ _ f (and_right _ _ (and_right _ _ (and_left _ _ (row f h))))

  pub body_moved : Decided body_bit moved_bit f
  body_moved = decided _ _ f (and_left _ _ (and_right _ _ (row f h)))

  pub body_stress : Decided body_bit stress_bit f
  body_stress = decided _ _ f (and_right _ _ (and_right _ _ (row f h)))

  pub body_cleared : has body_bit (without (bit_or f body_bit) body_bit) ≡ false
  body_cleared = not-true _ (all_below_sound 256 _ f cleared_table h)
