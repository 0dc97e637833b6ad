-- ===== src/Prelude/Root.antt =====
-- The integer square root (`isqrt`): two bits of the number for each bit of the root.
use fallingsand.Prelude.{
  ℕ, zero, suc, ◌+◌, ◌*◌, ◌/◌, ◌≤◌, arith, leb, if◌then◌else◌, Bool-cases, leb→le, inl, inr,
}

-- The root of a number below 4 to the power of the fuel.
unfoldable pub root_of : ℕ → ℕ → ℕ
root_of zero n = 0
root_of (suc fuel) n =
    let r = 2 * root_of fuel (n / 4) in if leb ((r + 1) * (r + 1)) n then r + 1 else r

-- Sixty-four digits in base 4 hold every `u128`.
unfoldable pub isqrt : ℕ → ℕ
unfolding root_of
isqrt n = root_of 64 n

pub root_of-le : (fuel n : ℕ) → root_of fuel n * root_of fuel n ≤ n
unfolding root_of
root_of-le zero n = omega arith
root_of-le (suc fuel) n =
    let r = root_of fuel (n / 4) in
    elim (Bool-cases (leb ((2 * r + 1) * (2 * r + 1)) n)) [
      | inl e ↦ rw e (leb→le _ _ e)
      | inr e ↦ rw e (grind (arith, root_of-le fuel (n / 4)))
    ]

pub isqrt-le : (n : ℕ) → isqrt n * isqrt n ≤ n
unfolding isqrt
isqrt-le n = root_of-le 64 n
