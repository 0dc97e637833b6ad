-- ===== src/Wire/Bits.antt =====
-- What the packed bytes are as one number, lowest byte first.
use fallingsand.Prelude.{
  ℕ, zero, suc, ◌+◌, ◌-◌, ◌*◌, ◌/◌, ◌%◌, ◌^◌, ◌<◌, ◌≤◌, ◌≡◌, refl, ap, ◌∙◌, inl, inr, arith, bit_or,
  ltb, ◌==◌, List, [], ◌∷◌, ◌++◌, length, ltb→lt, ltb→ge, Bool-cases, true, false,
}
use native.Mathlib.Nat.{pow-suc, pow-le-pow_right}
use fallingsand.Prelude.Bits.{bit_or_disjoint}
use fallingsand.Wire.Pack.{emit, pack}

abbrev pub value : List ℕ → ℕ
value [] = 0
value (b ∷ bs) = b + 256 * value bs

-- The indices as one number, in digits of so many bits.
abbrev pub number : ℕ → List ℕ → ℕ
number bits [] = 0
number bits (i ∷ is) = i + 2 ^ bits * number bits is

abbrev pub Below : ℕ → List ℕ → Type 0
Below n [] = Unit
Below n (x ∷ xs) = (x < n) × Below n xs

pub pow-add : (a b : ℕ) → 2 ^ (a + b) ≡ 2 ^ a * 2 ^ b
pow-add zero b = let e : 0 + b ≡ b = omega arith in rw e (omega arith)
pow-add (suc a) b =
    let e : suc a + b ≡ suc (a + b) = omega arith in
    rw e (grind (arith, pow-suc 2 a, pow-suc 2 (a + b), pow-add a b))

emit-small : (fuel acc filled : ℕ) → filled < 8 → emit fuel acc filled ≡ ([], acc, filled)
unfolding emit
emit-small zero acc filled h = refl
emit-small (suc fuel) acc filled h = let e : ltb filled 8 ≡ true = ground arith in rw (emit, e) refl

emit-one :
    (fuel acc filled : ℕ)
    → 0 < fuel
    → 8 ≤ filled
    → filled < 16
    → emit fuel acc filled ≡ (acc % 256 ∷ [], acc / 256, filled - 8)
unfolding emit
emit-one zero acc filled z h k = absurd (omega arith)
emit-one (suc fuel) acc filled z h k =
    let e : ltb filled 8 ≡ false = ground arith in
    rw (emit, e, emit-small fuel (acc / 256) (filled - 8) (omega arith)) refl

-- A number below a product of two powers, from its two digits.
pub joined-lt : (i acc f b : ℕ) → acc < f → i < b → i * f + acc < f * b
joined-lt i acc f b h k = grind arith

short_pow : (f : ℕ) → f < 8 → 2 ^ f ≤ 128
short_pow f h =
    let two : 0 < 2 = omega arith in
    let seven : f ≤ 7 = omega arith in
    let bound : 2 ^ f ≤ 2 ^ 7 = pow-le-pow_right two seven in bound

-- The index and the indices above it.
regroup : (p f b n i acc : ℕ) → p ≡ f * b → (i * f + acc) + p * n ≡ acc + f * (i + b * n)
regroup p f b n i acc e = rw e (grind arith)

-- The lowest byte and the number above it.
low_byte : (p q n w : ℕ) → p ≡ 256 * q → w % 256 + 256 * (w / 256 + q * n) ≡ w + p * n
low_byte p q n w e = rw e (grind arith)

-- The packed bytes are the bits that wait and the indices above them.
pub value-pack :
    (bits : ℕ) (is : List ℕ) (acc filled : ℕ)
    → bits ≤ 8
    → filled < 8
    → acc < 2 ^ filled
    → Below (2 ^ bits) is
    → value (pack bits is acc filled) ≡ acc + 2 ^ filled * number bits is
unfolding pack
value-pack bits [] acc zero hb hf ha hi = omega arith
value-pack bits [] acc (suc filled) hb hf ha hi = ground (arith, short_pow (suc filled) hf)
value-pack bits (i ∷ is) acc filled hb hf ha (hi, his) =
    let all = filled + bits in
    let joined = i * 2 ^ filled + acc in
    let power = pow-add filled bits in
    let fits : joined < 2 ^ all =
      omega (arith, power, joined-lt i acc (2 ^ filled) (2 ^ bits) ha hi) in
    elim (Bool-cases (ltb all 8)) [
      | inl e ↦
          rw (bit_or_disjoint filled i acc ha, pack, emit-small all joined all (ltb→lt all 8 e))
            (value-pack bits is joined all hb (ltb→lt all 8 e) fits his
              ∙ regroup (2 ^ all) (2 ^ filled) (2 ^ bits) (number bits is) i acc power)
      | inr e ↦
          let high = ltb→ge all 8 e in
          let top : 2 ^ all ≡ 256 * 2 ^ (all - 8) =
            let split : all ≡ 8 + (all - 8) = omega arith in
            ap (λ (k : ℕ). 2 ^ k) split ∙ pow-add 8 (all - 8) in
          rw
            (
              bit_or_disjoint filled i acc ha,
              pack,
              emit-one all joined all (omega arith) high (omega arith),
              value-pack bits is (joined / 256) (all - 8) hb (omega arith)
                  (omega (arith, top, fits)) his,
            )
            (low_byte (2 ^ all) (2 ^ (all - 8)) (number bits is) joined top
              ∙ regroup (2 ^ all) (2 ^ filled) (2 ^ bits) (number bits is) i acc power)
    ]

pub length-pack :
    (bits : ℕ) (is : List ℕ) (acc filled : ℕ)
    → bits ≤ 8
    → filled < 8
    → length (pack bits is acc filled) ≡ (filled + length is * bits + 7) / 8
unfolding pack
length-pack bits [] acc filled hb hf = ground arith
length-pack bits (i ∷ is) acc filled hb hf =
    let all = filled + bits in
    let joined = bit_or (i * 2 ^ filled) acc in
    let more : filled + suc (length is) * bits ≡ all + length is * bits = omega arith in
    elim (Bool-cases (ltb all 8)) [
      | inl e ↦
          rw (pack, emit-small all joined all (ltb→lt all 8 e), more)
            (length-pack bits is joined all hb (ltb→lt all 8 e))
      | inr e ↦
          let high = ltb→ge all 8 e in
          rw
            (
              pack,
              emit-one all joined all (omega arith) high (omega arith),
              length-pack bits is (joined / 256) (all - 8) hb (omega arith),
              more,
            )
            (omega arith)
    ]

pub Below-append : (n : ℕ) (xs ys : List ℕ) → Below n xs → Below n ys → Below n (xs ++ ys)
Below-append n [] ys h k = k
Below-append n (x ∷ xs) ys (h, hs) k = (h, Below-append n xs ys hs k)

emit-Below : (fuel w f : ℕ) → Below 256 (emit fuel w f).0
unfolding emit
emit-Below zero w f = tt
emit-Below (suc fuel) w f = elim (Bool-cases (ltb f 8)) [
  | inl e ↦ rw (emit, e) tt
  | inr e ↦ rw (emit, e) (omega arith, emit-Below fuel (w / 256) (f - 8))
]

pub pack-Below : (bits : ℕ) (is : List ℕ) (acc filled : ℕ) → Below 256 (pack bits is acc filled)
unfolding pack
pack-Below bits [] acc filled = elim (Bool-cases (filled == 0)) [
  | inl e ↦ rw (pack, e) tt
  | inr e ↦ rw (pack, e) (omega arith, tt)
]
pack-Below bits (i ∷ is) acc filled =
    let (bytes, acc', filled') =
      emit (filled + bits) (bit_or (i * 2 ^ filled) acc) (filled + bits) in
    Below-append 256 bytes (pack bits is acc' filled')
      (emit-Below (filled + bits) (bit_or (i * 2 ^ filled) acc) (filled + bits))
      (pack-Below bits is acc' filled')
