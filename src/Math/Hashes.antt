-- ===== src/Math/Hashes.antt =====
-- Hashes are 64-bit words (crates/fallingsand_math/src/lib.rs).
use fallingsand.Prelude.{ℕ, ◌*◌, ◌/◌, ◌%◌, ◌^◌, ◌<◌, arith, bit_xor}
use fallingsand.Prelude.Bits.{bit_xor-lt}
use fallingsand.Prelude.Words.{u64_mod}
use fallingsand.Math.{mix, add, salt}

-- The mixed value is a word.
pub mix-lt : (z : ℕ) → mix z < u64_mod
unfolding mix
mix-lt z =
    let b : ℕ =
      bit_xor (bit_xor z (z / 2 ^ 30) * 0xbf58_476d_1ce4_e5b9 % u64_mod)
        ((bit_xor z (z / 2 ^ 30) * 0xbf58_476d_1ce4_e5b9 % u64_mod) / 2 ^ 27)
      * 0x94d0_49bb_1331_11eb
      % u64_mod in
    bit_xor-lt 64 b (b / 2 ^ 31) (omega arith) (omega arith)

-- A salted hash is a word.
pub salt-lt : (h s : ℕ) → salt h s < u64_mod
unfolding salt add
salt-lt h s = mix-lt _
