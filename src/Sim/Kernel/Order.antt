-- ===== src/Sim/Kernel/Order.antt =====
-- Every tick runs each of the four phases once (crates/fallingsand_sim/src/kernel.rs).
use fallingsand.Prelude.{
  ℕ, zero, suc, ◌+◌, ◌<◌, ◌≡◌, refl, sym, arith, Bool, true, ◌&&◌, ◌==◌, if◌then◌else◌, some, List,
  [], ◌∷◌, get_elem?, length,
}
use fallingsand.Prelude.Words.{add_i32}
use fallingsand.Math.{salt, choose, range}
use fallingsand.Math.Hashes.{salt-lt}
use fallingsand.Math.Range.{choose_total}
use fallingsand.Sim.Salts.{phase_order_salt}
use fallingsand.Sim.Kernel.Step.{phase_orders, phase_order}

-- How often a number stands in a list.
abbrev pub occurrences : ℕ → List ℕ → ℕ
occurrences i [] = 0
occurrences i (n ∷ ns) = (if n == i then 1 else 0) + occurrences i ns

-- Each of the four phases stands in the list once.
abbrev once_each : List ℕ → Bool
once_each o =
    occurrences 0 o == 1 && occurrences 1 o == 1 && occurrences 2 o == 1 && occurrences 3 o == 1

abbrev all_once : List (List ℕ) → Bool
all_once [] = true
all_once (o ∷ os) = once_each o && all_once os

both : (a b : Bool) → (a && b) ≡ true → (a ≡ true) × (b ≡ true)
both a b h = ground arith

all_once-elem :
    (os : List (List ℕ)) (i : ℕ) (o : List ℕ)
    → all_once os ≡ true
    → get_elem? os i ≡ some o
    → once_each o ≡ true
all_once-elem [] i o h e = cc
all_once-elem (x ∷ os) zero o h e =
    let same : x ≡ o = cc in rw (sym same) (both (once_each x) (all_once os) h).0
all_once-elem (x ∷ os) (suc i) o h e = all_once-elem os i o (both (once_each x) (all_once os) h).1 e

ones :
    (a b c d : ℕ)
    → (a == 1 && b == 1 && c == 1 && d == 1) ≡ true
    → (a ≡ 1) × (b ≡ 1) × (c ≡ 1) × (d ≡ 1)
ones a b c d e = ground arith

occurrences-once : (o : List ℕ) (i : ℕ) → once_each o ≡ true → i < 4 → occurrences i o ≡ 1
occurrences-once o i e h =
    let (a, b, c, d) =
      ones (occurrences 0 o) (occurrences 1 o) (occurrences 2 o) (occurrences 3 o) e in
    four i h a b c d
  where
    four :
        (i : ℕ)
        → i < 4
        → occurrences 0 o ≡ 1
        → occurrences 1 o ≡ 1
        → occurrences 2 o ≡ 1
        → occurrences 3 o ≡ 1
        → occurrences i o ≡ 1
    four zero h a b c d = a
    four (suc zero) h a b c d = b
    four (suc (suc zero)) h a b c d = c
    four (suc (suc (suc zero))) h a b c d = d
    four (suc (suc (suc (suc i)))) h a b c d = absurd (omega arith)

-- The order of the phases is defined for every tick, and each of the four phases stands in it once.
pub phase_order_runs_each :
    (tick phase : ℕ)
    → phase < 4
    → (order : List ℕ) × (phase_order tick ≡ some order) × (occurrences phase order ≡ 1)
unfolding phase_order choose
phase_order_runs_each tick phase h =
    let (order, e) =
      choose_total (salt tick phase_order_salt) phase_orders (salt-lt tick phase_order_salt)
        (omega arith) (omega arith) in
    (
      order,
      e,
      occurrences-once order phase
          (all_once-elem phase_orders
            (range (salt tick phase_order_salt) 0 (add_i32 (length phase_orders) 4_294_967_295))
            order refl e)
          h,
    )
