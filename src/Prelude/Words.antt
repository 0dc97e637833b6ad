-- ===== src/Prelude/Words.antt =====
-- Machine words as native numbers. An `i32` is its bit pattern, below 2 ^ 32.
use fallingsand.Prelude.{
  ℕ, ◌+◌, ◌-◌, ◌*◌, ◌/◌, ◌%◌, ◌^◌, Bool, ◌<◌, ◌≡◌, arith, ltb, leb, if◌then◌else◌,
}
use fallingsand.Prelude.Int.{ℤ, pos, negsuc, ◌+ℤ◌, magnitude}

abbrev pub i32_mod : ℕ
i32_mod = 4_294_967_296

abbrev pub u64_mod : ℕ
u64_mod = 18_446_744_073_709_551_616

abbrev pub add_i32 : ℕ → ℕ → ℕ
add_i32 a b = (a + b) % 4_294_967_296

abbrev pub sub_i32 : ℕ → ℕ → ℕ
sub_i32 a b = (a + 4_294_967_296 - b) % 4_294_967_296

-- The pattern of -1.
abbrev pub minus_one : ℕ
minus_one = 4_294_967_295

-- The order of two's complement patterns: flip the sign bit and compare.
abbrev pub flip_sign : ℕ → ℕ
flip_sign w = (w + 2_147_483_648) % 4_294_967_296

abbrev pub lt_i32 : ℕ → ℕ → Bool
lt_i32 a b = ltb (flip_sign a) (flip_sign b)

abbrev pub le_i32 : ℕ → ℕ → Bool
le_i32 a b = leb (flip_sign a) (flip_sign b)

-- `w >> k` on an `i32`: the sign is copied in from the left.
abbrev pub shr_i32 : ℕ → ℕ → ℕ
shr_i32 w k =
    if ltb w 2_147_483_648 then w / 2 ^ k else w / 2 ^ k + (4_294_967_296 - 4_294_967_296 / 2 ^ k)

-- `w.wrapping_shl(k)`.
abbrev pub shl_i32 : ℕ → ℕ → ℕ
shl_i32 w k = w * 2 ^ k % 4_294_967_296

-- The integer that a pattern stands for.
abbrev pub signed32 : ℕ → ℤ
signed32 w = if ltb w 2_147_483_648 then pos w else negsuc (4_294_967_295 - w)

-- `v as i32`: the low 32 bits of an integer.
abbrev pub to_i32 : ℤ → ℕ
to_i32 (pos n) = n % 4_294_967_296
to_i32 (negsuc n) = 4_294_967_295 - n % 4_294_967_296

pub to_i32-signed32 : (w : ℕ) → w < 4_294_967_296 → to_i32 (signed32 w) ≡ w
to_i32-signed32 w h = ground arith

pub to_i32-suc : (v : ℤ) → to_i32 (v +ℤ pos 1) ≡ add_i32 (to_i32 v) 1
unfolding ◌+ℤ◌
to_i32-suc v = ground arith

pub to_i32-pred : (v : ℤ) → add_i32 (to_i32 (v +ℤ negsuc 0)) 1 ≡ to_i32 v
unfolding ◌+ℤ◌
to_i32-pred v = ground arith

-- A value cut to 32 bits, as `as i32` does, and to 64 bits.
unfoldable pub as_i32 : ℤ → ℤ
as_i32 (pos n) =
    let w = n % 4_294_967_296 in if ltb w 2_147_483_648 then pos w else negsuc (4_294_967_295 - w)
as_i32 (negsuc n) =
    let w = n % 4_294_967_296 in if ltb w 2_147_483_648 then negsuc w else pos (4_294_967_295 - w)

unfoldable pub as_i64 : ℤ → ℤ
as_i64 (pos n) =
    let w = n % 18_446_744_073_709_551_616 in
    if ltb w 9_223_372_036_854_775_808 then pos w else negsuc (18_446_744_073_709_551_615 - w)
as_i64 (negsuc n) =
    let w = n % 18_446_744_073_709_551_616 in
    if ltb w 9_223_372_036_854_775_808 then negsuc w else pos (18_446_744_073_709_551_615 - w)

-- A value of the type passes through the cast.
pub as_i32_fits : (v : ℤ) → magnitude v < 2_147_483_648 → as_i32 v ≡ v
unfolding as_i32
as_i32_fits (pos n) h = ground arith
as_i32_fits (negsuc n) h = ground arith

pub as_i64_fits : (v : ℤ) → magnitude v < 9_223_372_036_854_775_808 → as_i64 v ≡ v
unfolding as_i64
as_i64_fits (pos n) h = ground arith
as_i64_fits (negsuc n) h = ground arith
