-- ===== src/Prelude/Bits.antt =====
-- `|` and `&` on native numbers, digit by digit, and `|` of disjoint fields as a sum.
use Prim.Native.Nat.{digits, bit_and-bitwise, bit_or-bitwise, bit_xor-bitwise, differ}
use native.Mathlib.Nat.{pow-suc}
use fallingsand.Prelude.{
  ℕ, zero, suc, ◌+◌, ◌*◌, ◌/◌, ◌%◌, ◌^◌, ◌≤◌, ◌<◌, ◌≡◌, refl, ap, ◌∙◌, ◌↔◌, min, max, bit_and,
  bit_or, bit_xor, arith,
}
use fallingsand.Prelude.{ltb, Bool-cases, ltb→lt, ltb→ge, inl, inr}

module _ (z : ℕ → ℕ) (f : ℕ → ℕ → ℕ) where
  -- One more unit of fuel changes nothing once the fuel reaches the first number.
  digits_more : (n a b : ℕ) → a ≤ n → digits z f (suc n) a b ≡ digits z f n a b
  digits_more zero zero b p = refl
  digits_more zero (suc a) b p = absurd (omega arith)
  digits_more (suc n) zero b p = refl
  digits_more (suc n) (suc a) b p = rw (digits_more n (suc a / 2) (b / 2) (omega arith))

  digits_exact : (n a b : ℕ) → a ≤ n → digits z f n a b ≡ digits z f a a b
  digits_exact zero zero b p = refl
  digits_exact zero (suc a) b p = absurd (omega arith)
  digits_exact (suc n) a b p = elim (Bool-cases (ltb n a)) [
    | inl big ↦ let e : a ≡ suc n = omega (arith, ltb→lt n a big) in rw e
    | inr small ↦ digits_more n a b (ltb→ge n a small) ∙ digits_exact n a b (ltb→ge n a small)
  ]

pub bit_or_digit : (a b : ℕ) → bit_or a b ≡ bit_or (a / 2) (b / 2) * 2 + max (a % 2) (b % 2)
bit_or_digit zero b = simp bit_or-bitwise (omega arith)
bit_or_digit (suc a) b =
    simp bit_or-bitwise
      (omega (arith, digits_exact (λ y. y) max a (suc a / 2) (b / 2) (omega arith)))

pub bit_and_digit : (a b : ℕ) → bit_and a b ≡ bit_and (a / 2) (b / 2) * 2 + min (a % 2) (b % 2)
bit_and_digit zero b = simp bit_and-bitwise (omega arith)
bit_and_digit (suc a) b =
    simp bit_and-bitwise
      (omega (arith, digits_exact (λ y. 0) min a (suc a / 2) (b / 2) (omega arith)))

zero_right_below : (n a : ℕ) → a ≤ n → bit_or a 0 ≡ a
zero_right_below n zero h = refl
zero_right_below zero (suc a) h = absurd (omega arith)
zero_right_below (suc n) (suc a) h =
    omega (arith, bit_or_digit (suc a) 0, zero_right_below n (suc a / 2) (omega arith))

pub bit_or-zero : (a : ℕ) → bit_or a 0 ≡ a
bit_or-zero a = zero_right_below a a (omega arith)

-- A field of `k` bits under a shifted one.
pub bit_or_disjoint : (k q r : ℕ) → r < 2 ^ k → bit_or (q * 2 ^ k) r ≡ q * 2 ^ k + r
bit_or_disjoint zero q r h = ground (arith, bit_or-zero q)
bit_or_disjoint (suc k) q r h =
    let split : q * 2 ^ suc k ≡ 2 * (q * 2 ^ k) =
      omega (arith, ap (λ (t : ℕ). q * t) (pow-suc 2 k)) in
    omega (
      arith,
      split,
      pow-suc 2 k,
      bit_or_digit (q * 2 ^ suc k) r,
      ap (λ (t : ℕ). bit_or t (r / 2)) (half q k split),
      bit_or_disjoint k q (r / 2) (omega (arith, pow-suc 2 k)),
    )
  where
    half : (q k : ℕ) → q * 2 ^ suc k ≡ 2 * (q * 2 ^ k) → q * 2 ^ suc k / 2 ≡ q * 2 ^ k
    half q k e = omega arith

zero_and_below : (n a : ℕ) → a ≤ n → bit_and a 0 ≡ 0
zero_and_below n zero h = refl
zero_and_below zero (suc a) h = absurd (omega arith)
zero_and_below (suc n) (suc a) h =
    omega (arith, bit_and_digit (suc a) 0, zero_and_below n (suc a / 2) (omega arith))

-- The bit `k` of a number.
unfoldable pub bit_of : ℕ → ℕ → ℕ
bit_of zero f = f % 2
bit_of (suc k) f = bit_of k (f / 2)

pub bit_of-le : (k f : ℕ) → bit_of k f ≤ 1
unfolding bit_of
bit_of-le zero f = omega arith
bit_of-le (suc k) f = bit_of-le k (f / 2)

pub bit_of-or : (k a b : ℕ) → bit_of k (bit_or a b) ≡ max (bit_of k a) (bit_of k b)
unfolding bit_of
bit_of-or zero a b = omega (arith, bit_or_digit a b)
bit_of-or (suc k) a b =
    let half : bit_or a b / 2 ≡ bit_or (a / 2) (b / 2) = omega (arith, bit_or_digit a b) in
    rw half (bit_of-or k (a / 2) (b / 2))

pub bit_of-and : (k a b : ℕ) → bit_of k (bit_and a b) ≡ min (bit_of k a) (bit_of k b)
unfolding bit_of
bit_of-and zero a b = omega (arith, bit_and_digit a b)
bit_of-and (suc k) a b =
    let half : bit_and a b / 2 ≡ bit_and (a / 2) (b / 2) = omega (arith, bit_and_digit a b) in
    rw half (bit_of-and k (a / 2) (b / 2))

-- A test by a mask of one bit reads that bit.
pub bit_and-pow : (k f : ℕ) → (bit_and f (2 ^ k) ≡ 0) ↔ (bit_of k f ≡ 0)
unfolding bit_of
bit_and-pow zero f =
    let one : bit_and f 1 ≡ f % 2 =
      omega (arith, bit_and_digit f 1, zero_and_below (f / 2) (f / 2) (omega arith)) in
    (λ e. omega arith, λ e. omega arith)
bit_and-pow (suc k) f =
    let half : 2 ^ suc k / 2 ≡ 2 ^ k = omega (arith, pow-suc 2 k) in
    let even : 2 ^ suc k % 2 ≡ 0 = omega (arith, pow-suc 2 k) in
    let low : min (f % 2) (2 ^ suc k % 2) ≡ 0 = omega arith in
    let digit : bit_and f (2 ^ suc k) ≡ bit_and (f / 2) (2 ^ k) * 2 =
      omega (arith, bit_and_digit f (2 ^ suc k), ap (λ (t : ℕ). bit_and (f / 2) t) half) in
    let ih = bit_and-pow k (f / 2) in (λ e. ih.0 (omega arith), λ e. omega (arith, ih.1 e))

differ-le : (x y : ℕ) → x < 2 → y < 2 → differ x y < 2
differ-le zero y h k = k
differ-le (suc zero) zero h k = h
differ-le (suc zero) (suc y) h k = omega arith
differ-le (suc (suc x)) y h k = absurd (omega arith)

digits-xor_lt : (n k a b : ℕ) → a < 2 ^ k → b < 2 ^ k → digits (λ y. y) differ n a b < 2 ^ k
digits-xor_lt zero k a b h g = g
digits-xor_lt (suc n) k zero b h g = g
digits-xor_lt (suc n) zero (suc a) b h g = absurd (omega arith)
digits-xor_lt (suc n) (suc k) (suc a) b h g = omega (
  arith,
  pow-suc 2 k,
  digits-xor_lt n k (suc a / 2) (b / 2) (omega (arith, pow-suc 2 k)) (omega (arith, pow-suc 2 k)),
  differ-le (suc a % 2) (b % 2) (omega arith) (omega arith),
)

-- The exclusive or of two words is a word.
pub bit_xor-lt : (k a b : ℕ) → a < 2 ^ k → b < 2 ^ k → bit_xor a b < 2 ^ k
bit_xor-lt k a b h g = simp bit_xor-bitwise (digits-xor_lt a k a b h g)
