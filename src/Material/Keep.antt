-- ===== src/Material/Keep.antt =====
-- What a kept fraction leaves of a velocity.
mod Tests
use fallingsand.Prelude.{ℕ, ◌+◌, ◌*◌, ◌/◌, ◌≤◌, ◌<◌, ◌≡◌, arith}
use fallingsand.Prelude.Int.{ℤ, pos, negsuc, neg_ℕ, neg, magnitude}
use fallingsand.Material.{apply}

part-le : (n raw : ℕ) → raw ≤ 65_536 → (n * raw + 32_768) / 65_536 ≤ n
part-le n raw h = grind arith

-- A fraction of at most one never makes an `i32` larger, and is symmetric about zero.
pub apply-le :
    (raw : ℕ) (v : ℤ)
    → raw ≤ 65_536
    → magnitude v < 2_147_483_648
    → (magnitude (apply raw v) ≤ magnitude v) × (apply raw (neg v) ≡ neg (apply raw v))
unfolding apply
apply-le raw (pos ℕ.zero) h k = ground (arith, part-le 0 raw h)
apply-le raw (pos (ℕ.suc n)) h k = ground (arith, part-le (ℕ.suc n) raw h)
apply-le raw (negsuc n) h k = ground (arith, part-le (ℕ.suc n) raw h)
