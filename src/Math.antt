-- ===== src/Math.antt =====
-- Stateless randomness (crates/fallingsand_math/src/lib.rs): the 64-bit mixing hash, its draws, and
-- rounding division. A hash is its `u64`, an `i32` its bit pattern.
pub mod Range
pub mod Hashes
use fallingsand.Prelude.{
  ℕ, zero, suc, ◌+◌, ◌-◌, ◌*◌, ◌/◌, ◌%◌, ◌^◌, bit_xor, Bool, ◌||◌, ltb, leb, ◌==◌, if◌then◌else◌,
  not, List, [], ◌∷◌, Option, length, get_elem?,
}
use fallingsand.Prelude.Words.{u64_mod, lt_i32, le_i32, add_i32, flip_sign}
use fallingsand.Prelude.Int.{ℤ, pos, negsuc, neg_ℕ}

abbrev pub tick_rate : ℕ
tick_rate = 60

abbrev pub subcell_bits : ℕ
subcell_bits = 10

abbrev pub subcell_units_per_cell : ℕ
subcell_units_per_cell = 1024

-- Division by a positive number that rounds to the nearest, halves away from zero. Rust's `/`
-- truncates, so the negative branch divides the magnitude.
unfoldable pub round_div : ℤ → ℕ → ℤ
round_div (pos n) d = pos ((n + d / 2) / d)
round_div (negsuc n) d = neg_ℕ ((suc n + d / 2) / d)

abbrev golden : ℕ
golden = 0x9e37_79b9_7f4a_7c15

-- `(z ^ (z >> 30)) * m1`, `(z ^ (z >> 27)) * m2`, `z ^ (z >> 31)`, products mod 2 ^ 64.
unfoldable pub mix : ℕ → ℕ
mix z =
    let a = bit_xor z (z / 2 ^ 30) * 0xbf58_476d_1ce4_e5b9 % u64_mod in
    let b = bit_xor a (a / 2 ^ 27) * 0x94d0_49bb_1331_11eb % u64_mod in bit_xor b (b / 2 ^ 31)

-- Two 32-bit patterns in one word: the fields are disjoint, so `|` is the sum.
unfoldable pub pack : ℕ → ℕ → ℕ
pack x y = x * 2 ^ 32 + y

abbrev pub Hash : Type 0
Hash = ℕ

unfoldable pub add : Hash → ℕ → Hash
unfolding mix
add h value = mix ((h * golden % u64_mod + value) % u64_mod)

-- The loop over the bytes of a label, from the hash so far.
unfoldable pub label_from : Hash → List ℕ → Hash
label_from h [] = h
label_from h (byte ∷ bytes) = label_from (add h byte) bytes

unfoldable pub label : List ℕ → Hash
unfolding label_from
label bytes = label_from 0 bytes

unfoldable pub salt : Hash → Hash → Hash
unfolding add
salt h s = add h s

unfoldable pub at_pos : Hash → ℕ → ℕ → Hash
unfolding add pack
at_pos h x y = add h (pack x y)

unfoldable pub bit : Hash → Bool
bit h = not (h / 2 ^ 63 == 0)

unfoldable pub bits : Hash → ℕ → ℕ
bits h n = if n == 0 then 0 else if leb 64 n then h else h / 2 ^ (64 - n)

unfoldable pub below : Hash → ℕ → Bool
below h threshold = threshold == 18_446_744_073_709_551_615 || ltb h threshold

-- `min` and `max` are `i32` patterns; the span is that of the integers that they stand for.
unfoldable pub range : Hash → ℕ → ℕ → ℕ
range h lo hi =
    if le_i32 hi lo then lo else add_i32 lo (h * (flip_sign hi - flip_sign lo + 1) / u64_mod)

-- `items[range(0, len - 1)]`; `none` is the panic of an empty slice.
unfoldable pub choose : {A : Type 0} → Hash → List A → Option A
unfolding range
choose h items = get_elem? items (range h 0 (add_i32 (length items) 4_294_967_295))

-- A generator is its counter.
abbrev pub Rng : Type 0
Rng = ℕ

-- The next generator, and the hash drawn.
unfoldable pub draw : Rng → Rng × Hash
unfolding mix
draw r = let r' = (r + golden) % u64_mod in (r', mix r')
