-- ===== src/Chunk/Fog/Mask.antt =====
-- `struct FogMask` and its methods (crates/fallingsand_core/src/fog.rs). An index out of range
-- panics: `none`.
use fallingsand.Prelude.{
  ℕ, ◌-◌, ◌*◌, ◌/◌, ◌%◌, ◌^◌, ◌<◌, ◌≡◌, refl, arith, bit_and, bit_or, Bool, true, false, not, ◌&&◌,
  ◌==◌, if◌then◌else◌, Option, none, some, List, [], ◌∷◌, length, get_elem?, replicate, All,
}
use fallingsand.Prelude as Prelude

pub record FogMask : Type 0 where
  pub bytes : List ℕ

unfoldable pub empty : FogMask
empty = record { bytes = replicate 32 0 }

unfoldable pub full : FogMask
full = record { bytes = replicate 32 255 }

abbrev pub IsMask : FogMask → Type 0
IsMask m = (length m.bytes ≡ 32) × All (λ b. b < 256) m.bytes

-- `byte & (1 << k) != 0`.
abbrev pub test_bit : ℕ → ℕ → Bool
test_bit byte k = not (bit_and byte (2 ^ k) == 0)

-- `index >> 3` and `index & 7` name the byte and the bit.
unfoldable pub get : FogMask → ℕ → Option Bool
get m index = elim (get_elem? m.bytes (index / 8)) [
  | none ↦ none
  | some byte ↦ some (test_bit byte (index % 8))
]

unfoldable pub write_byte : FogMask → ℕ → (ℕ → ℕ) → Option FogMask
write_byte m index f = elim (get_elem? m.bytes (index / 8)) [
  | none ↦ none
  | some byte ↦ some (record { bytes = Prelude.set m.bytes (index / 8) (f byte) })
]

unfoldable pub set : FogMask → ℕ → Option FogMask
unfolding write_byte
set m index = write_byte m index (λ byte. bit_or byte (2 ^ (index % 8)))

-- `!bit` on a byte is `255 - bit`.
unfoldable pub assign : FogMask → ℕ → Bool → Option FogMask
unfolding write_byte
assign m index value =
    if value
    then write_byte m index (λ byte. bit_or byte (2 ^ (index % 8)))
    else write_byte m index (λ byte. bit_and byte (255 - 2 ^ (index % 8)))

abbrev pub or_bytes : List ℕ → List ℕ → List ℕ
or_bytes [] ys = []
or_bytes (x ∷ xs) [] = x ∷ xs
or_bytes (x ∷ xs) (y ∷ ys) = bit_or x y ∷ or_bytes xs ys

unfoldable pub union_in_place : FogMask → FogMask → FogMask
union_in_place m other = record { bytes = or_bytes m.bytes other.bytes }

abbrev pub all_ones : List ℕ → Bool
all_ones [] = true
all_ones (b ∷ bs) = b == 255 && all_ones bs

unfoldable pub is_full : FogMask → Bool
is_full m = all_ones m.bytes

All-bytes : (n b : ℕ) → b < 256 → All (λ x. x < 256) (replicate n b)
All-bytes ℕ.zero b h = tt
All-bytes (ℕ.suc n) b h = (h, All-bytes n b h)

pub empty-IsMask : IsMask empty
unfolding empty
empty-IsMask = (refl, All-bytes 32 0 (omega arith))

pub full-IsMask : IsMask full
unfolding full
full-IsMask = (refl, All-bytes 32 255 (omega arith))
