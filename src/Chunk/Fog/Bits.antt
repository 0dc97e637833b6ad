-- ===== src/Chunk/Fog/Bits.antt =====
-- Which texels are revealed after a write: the one written, and the others as before.
mod Tests
use fallingsand.Prelude.{
  ℕ, ◌+◌, ◌-◌, ◌/◌, ◌%◌, ◌^◌, ◌<◌, ◌≡◌, ◌≢◌, refl, ap, ◌∙◌, arith, max, min, bit_or, bit_and, Bool,
  true, false, ◌||◌, ◌==◌, if◌then◌else◌, Bool-cases, inl, inr, all_below, all_below_sound, ==_iff,
  Option, none, some, List, [], ◌∷◌, length, get_elem?, get_or, get_elem?-eq-get_or,
  get_elem?-set_self, get_elem?-set_ne, All,
}
use fallingsand.Prelude as Prelude
use fallingsand.Prelude.Bits.{bit_of, bit_of-le, bit_of-or, bit_of-and, bit_and-pow}
use fallingsand.Chunk.Fog.Mask.{
  FogMask, IsMask, test_bit, get, write_byte, set, assign, or_bytes, union_in_place, empty, full,
  is_full, all_ones,
}

pow_bits_table :
    all_below 8 (λ b. all_below 8 (λ a. bit_of a (2 ^ b) == (if b == a then 1 else 0))) ≡ true
unfolding bit_of all_below
pow_bits_table = refl

pow_bits : (k j : ℕ) → k < 8 → j < 8 → bit_of j (2 ^ k) ≡ (if k == j then 1 else 0)
pow_bits k j hk hj = (==_iff (bit_of j (2 ^ k)) (if k == j then 1 else 0)).0 (
    all_below_sound 8 (λ a. bit_of a (2 ^ k) == (if k == a then 1 else 0)) j
      (all_below_sound 8 (λ b. all_below 8 (λ a. bit_of a (2 ^ b) == (if b == a then 1 else 0))) k
        pow_bits_table hk)
      hj)

mask_bits_table :
    all_below 8 (λ b. all_below 8 (λ a. bit_of a (255 - 2 ^ b) == (if b == a then 0 else 1))) ≡ true
unfolding bit_of all_below
mask_bits_table = refl

mask_bits : (k j : ℕ) → k < 8 → j < 8 → bit_of j (255 - 2 ^ k) ≡ (if k == j then 0 else 1)
mask_bits k j hk hj = (==_iff (bit_of j (255 - 2 ^ k)) (if k == j then 0 else 1)).0 (
    all_below_sound 8 (λ a. bit_of a (255 - 2 ^ k) == (if k == a then 0 else 1)) j
      (all_below_sound 8
        (λ b. all_below 8 (λ a. bit_of a (255 - 2 ^ b) == (if b == a then 0 else 1))) k
        mask_bits_table hk)
      hj)

test_bit_eq : (b j : ℕ) → test_bit b j ≡ (bit_of j b == 1)
test_bit_eq b j = ground (arith, (bit_and-pow j b).0, (bit_and-pow j b).1, bit_of-le j b)

bit_written :
    (b k j : ℕ)
    → k < 8
    → j < 8
    → test_bit (bit_or b (2 ^ k)) j ≡ (if k == j then true else test_bit b j)
bit_written b k j hk hj =
    rw
      (test_bit_eq (bit_or b (2 ^ k)) j, test_bit_eq b j, bit_of-or j b (2 ^ k), pow_bits k j hk hj)
      (ground (arith, bit_of-le j b))

bit_cleared :
    (b k j : ℕ)
    → k < 8
    → j < 8
    → test_bit (bit_and b (255 - 2 ^ k)) j ≡ (if k == j then false else test_bit b j)
bit_cleared b k j hk hj =
    rw
      (
        test_bit_eq (bit_and b (255 - 2 ^ k)) j,
        test_bit_eq b j,
        bit_of-and j b (255 - 2 ^ k),
        mask_bits k j hk hj,
      )
      (ground (arith, bit_of-le j b))

bit_united : (a b j : ℕ) → test_bit (bit_or a b) j ≡ (test_bit a j || test_bit b j)
bit_united a b j =
    rw (test_bit_eq (bit_or a b) j, test_bit_eq a j, test_bit_eq b j, bit_of-or j a b)
      (ground (arith, bit_of-le j a, bit_of-le j b))

byte_index : (i j : ℕ) → i / 8 ≡ j / 8 → (i % 8 == j % 8) ≡ (i == j)
byte_index i j e = ground arith

byte_of : FogMask → ℕ → ℕ
byte_of m i = get_or m.bytes (i / 8) 0

byte_of-get :
    (m : FogMask) (j : ℕ) → IsMask m → j < 256 → get m j ≡ some (test_bit (byte_of m j) (j % 8))
unfolding get byte_of
byte_of-get m j h hj = rw (get, get_elem?-eq-get_or m.bytes (j / 8) 0 (omega arith)) refl

get-write_byte :
    (m : FogMask) (i j : ℕ) (f : ℕ → ℕ)
    → IsMask m
    → i < 256
    → j < 256
    → (elim (write_byte m i f) [ none ↦ none | some m' ↦ get m' j ])
      ≡ (if i / 8 == j / 8 then some (test_bit (f (byte_of m i)) (j % 8)) else get m j)
unfolding get write_byte byte_of
get-write_byte m i j f h hi hj =
    let e = get_elem?-eq-get_or m.bytes (i / 8) 0 (omega arith) in
    let w = λ (b : ℕ). get_elem?-set_self m.bytes (i / 8) b (omega arith) in
    let n = λ (b : ℕ) (d : i / 8 ≢ j / 8). get_elem?-set_ne m.bytes b d in
    rw e (elim (Bool-cases (i / 8 == j / 8)) [
      | inl same ↦
          let s : j / 8 ≡ i / 8 = ground arith in
          rw (get, same, s, w (f (get_or m.bytes (i / 8) 0))) refl
      | inr other ↦ rw (get, other, n (f (get_or m.bytes (i / 8) 0)) (ground arith)) refl
    ])

same_texel :
    (m : FogMask) (i j : ℕ) (v : Bool)
    → IsMask m
    → j < 256
    → (if i / 8 == j / 8
        then some (if i % 8 == j % 8 then v else test_bit (byte_of m i) (j % 8))
        else get m j)
      ≡ (if i == j then some v else get m j)
unfolding byte_of
same_texel m i j v h hj = rw (byte_of-get m j h hj) (elim (Bool-cases (i / 8 == j / 8)) [
  | inl same ↦
      let s : i / 8 ≡ j / 8 = ground arith in
      let b : byte_of m i ≡ byte_of m j = ap (λ (k : ℕ). get_or m.bytes k 0) s in
      rw (same, b, byte_index i j s)
        (elim (Bool-cases (i == j)) [ inl e ↦ rw e refl | inr e ↦ rw e refl ])
  | inr other ↦ let d : (i == j) ≡ false = ground arith in rw (other, d) refl
])

-- Assigning a texel of a mask decides it and leaves every other texel.
pub get-assign :
    (m : FogMask) (i j : ℕ) (v : Bool)
    → IsMask m
    → i < 256
    → j < 256
    → (elim (assign m i v) [ none ↦ none | some m' ↦ get m' j ])
      ≡ (if i == j then some v else get m j)
unfolding assign
get-assign m i j true h hi hj =
    rw
      (
        get-write_byte m i j (λ byte. bit_or byte (2 ^ (i % 8))) h hi hj,
        bit_written (byte_of m i) (i % 8) (j % 8) (omega arith) (omega arith),
      )
      (same_texel m i j true h hj)
get-assign m i j false h hi hj =
    rw
      (
        get-write_byte m i j (λ byte. bit_and byte (255 - 2 ^ (i % 8))) h hi hj,
        bit_cleared (byte_of m i) (i % 8) (j % 8) (omega arith) (omega arith),
      )
      (same_texel m i j false h hj)

get_elem?-or_bytes :
    (xs ys : List ℕ) (i : ℕ)
    → i < length xs
    → i < length ys
    → get_elem? (or_bytes xs ys) i ≡ some (bit_or (get_or xs i 0) (get_or ys i 0))
get_elem?-or_bytes [] ys i h k = elim h [ ]
get_elem?-or_bytes (x ∷ xs) [] i h k = elim k [ ]
get_elem?-or_bytes (x ∷ xs) (y ∷ ys) ℕ.zero h k = refl
get_elem?-or_bytes (x ∷ xs) (y ∷ ys) (ℕ.suc i) h k =
    get_elem?-or_bytes xs ys i (omega arith) (omega arith)

united_texel :
    (m n : FogMask) (j : ℕ)
    → IsMask m
    → IsMask n
    → j < 256
    → get (union_in_place m n) j
      ≡ some (test_bit (byte_of m j) (j % 8) || test_bit (byte_of n j) (j % 8))
unfolding get union_in_place byte_of
united_texel m n j hm hn hj =
    rw
      (
        get,
        get_elem?-or_bytes m.bytes n.bytes (j / 8) (omega arith) (omega arith),
        bit_united (byte_of m j) (byte_of n j) (j % 8),
      )
      refl

-- A union of two masks reveals a texel exactly when one of the two does.
pub get-union_in_place :
    (m n : FogMask) (j : ℕ) (x y : Bool)
    → IsMask m
    → IsMask n
    → j < 256
    → get m j ≡ some x
    → get n j ≡ some y
    → get (union_in_place m n) j ≡ some (x || y)
get-union_in_place m n j x y hm hn hj ex ey =
    rw (united_texel m n j hm hn hj) (ground (arith, byte_of-get m j hm hj, byte_of-get n j hn hj))
