-- ===== src/Math/Range.antt =====
-- Draws stay in their ranges, and rounding division is to the nearest.
mod Tests
use fallingsand.Prelude.{
  ℕ, zero, suc, ◌+◌, ◌-◌, ◌*◌, ◌/◌, ◌%◌, ◌^◌, ◌<◌, ◌≤◌, ◌≡◌, refl, sym, arith, true, false, inl,
  inr, List, max, length, get_elem?-eq-get_or, get_or, some, Bool-cases, leb, ◌==◌, ==_iff,
  all_below, all_below_sound, [], ◌∷◌,
}
use fallingsand.Prelude.Words.{i32_mod, u64_mod, le_i32, flip_sign, add_i32}
use fallingsand.Prelude.Int.{ℤ, pos, negsuc, neg, neg_ℕ, magnitude, ◌-ℤ◌, ◌*ℤ◌}
use fallingsand.Math.{range, choose, bits, round_div}

-- The scaled draw is below its span.
pub scale_lt : (h span : ℕ) → h < u64_mod → 0 < span → h * span / u64_mod < span
scale_lt h span hh hs = grind arith

-- Whatever the hash, a draw from a non-empty range of `i32` values lies in it, both ends included.
pub range_bounds :
    (h lo hi : ℕ)
    → h < u64_mod
    → lo < i32_mod
    → hi < i32_mod
    → le_i32 lo hi ≡ true
    → (le_i32 lo (range h lo hi) ≡ true) × (le_i32 (range h lo hi) hi ≡ true)
unfolding range
range_bounds h lo hi hh hl hu le = ground (arith, scale_lt h (flip_sign hi - flip_sign lo + 1) hh)

range_lt : (h lo hi : ℕ) → lo < i32_mod → range h lo hi < i32_mod
unfolding range
range_lt h lo hi hl = ground arith

pow_complement : (n : ℕ) → n < 65 → 2 ^ (64 - n) * 2 ^ n ≡ u64_mod
pow_complement n h =
    (==_iff _ u64_mod).0 (all_below_sound 65 (λ n. 2 ^ (64 - n) * 2 ^ n == u64_mod) n table h)
  where
    table : all_below 65 (λ n. 2 ^ (64 - n) * 2 ^ n == u64_mod) ≡ true
    table = unfold all_below in refl

pub div_lt_of_mul : (h d m : ℕ) → h < d * m → h / d < m
div_lt_of_mul h d m lt = grind arith

-- The `n` top bits of a hash, for `n` up to 64, are a number below `2 ^ n`.
pub bits-lt : (h n : ℕ) → h < u64_mod → n ≤ 64 → bits h n < 2 ^ n
unfolding bits
bits-lt h n hh hn = elim (Bool-cases (n == 0)) [
  | inl z ↦ let e : n ≡ 0 = ground arith in rw e (omega arith)
  | inr p ↦ elim (Bool-cases (leb 64 n)) [
    | inl full ↦ let e : n ≡ 64 = ground arith in rw e (omega arith)
    | inr part ↦
        rw (p, part)
          (div_lt_of_mul h (2 ^ (64 - n)) (2 ^ n) (omega (arith, pow_complement n (omega arith))))
  ]
]

range_from_zero : (h hi : ℕ) → h < u64_mod → hi < 2_147_483_648 → range h 0 hi ≤ hi
range_from_zero h hi hh hu =
    let r = range_bounds h 0 hi hh (omega arith) (omega arith) (ground arith) in
    ground (arith, r, range_lt h 0 hi (omega arith))

-- `choose` never panics on a non-empty slice whose length fits an `i32`.
pub choose_total :
    {A : Type 0} (h : ℕ) (items : List A)
    → h < u64_mod
    → 0 < length items
    → length items < 2_147_483_648
    → (a : A) × (choose h items ≡ some a)
unfolding choose
choose_total h [] hh pos_len fits = absurd (omega arith)
choose_total h (x ∷ xs) hh pos_len fits =
    let last = add_i32 (length (x ∷ xs)) 4_294_967_295 in
    (
      get_or (x ∷ xs) (range h 0 last) x,
      get_elem?-eq-get_or (x ∷ xs) (range h 0 last) x
          (omega (arith, range_from_zero h last hh (omega arith))),
    )

nearest_ℕ :
    (n d : ℕ)
    → 0 < d
    → (2 * ((n + d / 2) / d * d) ≤ 2 * n + d) × (2 * n ≤ 2 * ((n + d / 2) / d * d) + d)
nearest_ℕ n d hd = grind arith

-- The product with a positive number, as a magnitude under the sign.
neg_ℕ-mul : (q d : ℕ) → neg_ℕ q *ℤ pos d ≡ neg_ℕ (q * d)
unfolding ◌*ℤ◌
neg_ℕ-mul zero d = ground arith
neg_ℕ-mul (suc q) d = ground arith

distance_neg : (n m : ℕ) → magnitude (neg_ℕ n -ℤ neg_ℕ m) + (n + m) ≡ 2 * max n m
unfolding ◌-ℤ◌
distance_neg zero zero = ground arith
distance_neg zero (suc m) = ground arith
distance_neg (suc n) zero = ground arith
distance_neg (suc n) (suc m) = ground arith

distance_pos : (n m : ℕ) → magnitude (pos n -ℤ pos m) + (n + m) ≡ 2 * max n m
unfolding ◌-ℤ◌
distance_pos n m = ground arith

pos-mul : (q d : ℕ) → pos q *ℤ pos d ≡ pos (q * d)
unfolding ◌*ℤ◌
pos-mul q d = ground arith

-- Division by a positive number rounds to a nearest integer: twice the distance of the product from
-- the numerator is at most the divisor.
pub round_div_nearest : (n : ℤ) (d : ℕ) → 0 < d → 2 * magnitude (n -ℤ round_div n d *ℤ pos d) ≤ d
unfolding round_div
round_div_nearest (pos n) d hd =
    rw (pos-mul ((n + d / 2) / d) d)
      (omega (arith, nearest_ℕ n d hd, distance_pos n ((n + d / 2) / d * d)))
round_div_nearest (negsuc n) d hd =
    rw (neg_ℕ-mul ((suc n + d / 2) / d) d)
      (omega (arith, nearest_ℕ (suc n) d hd, distance_neg (suc n) ((suc n + d / 2) / d * d)))

neg-neg_ℕ : (n : ℕ) → neg (neg_ℕ n) ≡ pos n
neg-neg_ℕ zero = refl
neg-neg_ℕ (suc n) = refl

-- Rounding division by a positive number is symmetric about zero.
pub round_div-neg : (n : ℤ) (d : ℕ) → 0 < d → round_div (neg n) d ≡ neg (round_div n d)
unfolding round_div
round_div-neg (pos zero) d hd = let e : (0 + d / 2) / d ≡ 0 = grind arith in rw e
round_div-neg (pos (suc n)) d hd = refl
round_div-neg (negsuc n) d hd = sym (neg-neg_ℕ ((suc n + d / 2) / d))
