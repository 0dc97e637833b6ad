-- ===== src/Wire/Unpack.antt =====
-- The loop of `cells_from_wire` reads back the indices that the bytes are made of.
use fallingsand.Prelude.{
  ℕ, zero, suc, ◌+◌, ◌-◌, ◌*◌, ◌/◌, ◌%◌, ◌^◌, ◌<◌, ◌≤◌, ◌≡◌, refl, sym, ap, ◌∙◌, inl, inr, arith,
  ltb, some, List, [], ◌∷◌, length, Bool-cases, ltb→lt, ltb→ge, false, get_elem?,
}
use native.Mathlib.Nat.{div-add-mod, mod-lt}
use fallingsand.Prelude.Bits.{bit_or_disjoint}
use fallingsand.Cell.{Cell}
use fallingsand.Wire.Result.{ok}
use fallingsand.Wire.Pack.{refill}
use fallingsand.Wire.Bits.{value, number, Below, pow-add, joined-lt}
use fallingsand.Math.Range.{div_lt_of_mul}
use fallingsand.Wire.Cells.{unpack}

-- Two numbers of two digits that are the same have the same digits.
same_digits : (b x y m n : ℕ) → x < b → y < b → x + b * m ≡ y + b * n → (x ≡ y) × (m ≡ n)
same_digits b x y zero zero hx hy e = omega arith
same_digits b x y zero (suc n) hx hy e = absurd (omega arith)
same_digits b x y (suc m) zero hx hy e = absurd (omega arith)
same_digits b x y (suc m) (suc n) hx hy e =
    let (low, high) = same_digits b x y m n hx hy (omega arith) in (low, omega arith)

-- The lowest digit and the rest of a number of which the lower part is known.
digit : (b q v i n a : ℕ) → i < b → a + (b * q) * v ≡ i + b * n → (a % b ≡ i) × (a / b + q * v ≡ n)
digit b q v i n a h e =
    let split : b * (a / b) + a % b ≡ a = div-add-mod a b in
    let parts : b * (a / b + q * v) ≡ b * (a / b) + (b * q) * v = grind arith in
    same_digits b (a % b) i (a / b + q * v) n (mod-lt a (omega arith)) h
      (omega (arith, parts, split))

-- After a refill at least `bits` bits wait, and the number is the same.
abbrev Refilled : ℕ → ℕ → ℕ → List ℕ → Type 0
Refilled bits acc filled packed =
    (a : ℕ) × (f : ℕ) × (rest : List ℕ) × (refill bits acc filled packed ≡ some (a, f, rest))
    × (bits ≤ f)
    × (f < bits + 8)
    × (a < 2 ^ f)
    × Below 256 rest
    × (a + 2 ^ f * value rest ≡ acc + 2 ^ filled * value packed)
    × (f + 8 * length rest ≡ filled + 8 * length packed)

moved_byte :
    (p q byte v acc : ℕ) → q ≡ p * 256 → (byte * p + acc) + q * v ≡ acc + p * (byte + 256 * v)
moved_byte p q byte v acc e = rw e (grind arith)

refill_reads :
    (bits acc filled : ℕ) (packed : List ℕ)
    → bits ≤ 8
    → filled < 8
    → acc < 2 ^ filled
    → Below 256 packed
    → bits ≤ filled + 8 * length packed
    → Refilled bits acc filled packed
unfolding refill
refill_reads bits acc filled [] hb hf ha hp h =
    let e : ltb filled bits ≡ false = ground arith in
    rw (refill, e) (acc, filled, [], refl, omega arith, omega arith, ha, tt, refl, refl)
refill_reads bits acc filled (byte ∷ bytes) hb hf ha (hy, hp) h =
    elim (Bool-cases (ltb filled bits)) [
      | inr e ↦
          rw (refill, e)
            (
              acc,
              filled,
              byte ∷ bytes,
              refl,
              ltb→ge filled bits e,
              omega arith,
              ha,
              (hy, hp),
              refl,
              refl,
            )
      | inl e ↦
          let low = ltb→lt filled bits e in
          let stop : ltb (filled + 8) bits ≡ false = ground arith in
          let power = pow-add filled 8 in
          let joined = byte * 2 ^ filled + acc in
          rw (bit_or_disjoint filled byte acc ha, refill, e)
            (rw (enough bits joined (filled + 8) bytes stop) (
              joined,
              filled + 8,
              bytes,
              refl,
              omega arith,
              omega arith,
              omega (arith, power, joined-lt byte acc (2 ^ filled) 256 ha hy),
              hp,
              moved_byte (2 ^ filled) (2 ^ (filled + 8)) byte (value bytes) acc power,
              omega arith,
            ))
    ]
  where
    enough :
        (bits acc filled : ℕ) (bytes : List ℕ)
        → ltb filled bits ≡ false
        → refill bits acc filled bytes ≡ some (acc, filled, bytes)
    enough bits acc filled [] e = rw (refill, e) refl
    enough bits acc filled (b ∷ bs) e = rw (refill, e) refl

-- The cells that the palette has at the indices.
abbrev pub Looked : List Cell → List ℕ → List Cell → Type 0
Looked palette [] [] = Unit
Looked palette (i ∷ is) (c ∷ cs) = (get_elem? palette i ≡ some c) × Looked palette is cs
Looked palette _ _ = ⊥

-- The loop reads the cells at the indices that the number is made of, and the check after it holds.
pub unpack-number :
    (material_count : ℕ) (palette : List Cell) (size bits : ℕ) (is : List ℕ) (cs : List Cell)
    (acc filled : ℕ) (packed : List ℕ)
    → bits ≤ 8
    → filled < 8
    → acc < 2 ^ filled
    → Below 256 packed
    → Below (2 ^ bits) is
    → length is * bits ≤ filled + 8 * length packed
    → acc + 2 ^ filled * value packed ≡ number bits is
    → Looked palette is cs
    → unpack material_count palette size bits (length is) acc filled packed ≡ ok cs
unfolding unpack
unpack-number mc palette size bits [] [] acc filled packed hb hf ha hp hi hl e k =
    let none_left : acc ≡ 0 = omega arith in rw none_left refl
unpack-number mc palette size bits [] (c ∷ cs) acc filled packed hb hf ha hp hi hl e k = elim k [ ]
unpack-number mc palette size bits (i ∷ is) [] acc filled packed hb hf ha hp hi hl e k = elim k [ ]
unpack-number mc palette size bits (i ∷ is) (c ∷ cs) acc filled packed hb hf ha hp (hi, his) hl e
      (k, ks) =
    let (a, f, rest, run, enough, short, ha', hp', same, long) =
      refill_reads bits acc filled packed hb hf ha hp (omega arith) in
    let split : f ≡ bits + (f - bits) = omega arith in
    let power : 2 ^ f ≡ 2 ^ bits * 2 ^ (f - bits) =
      ap (λ (n : ℕ). 2 ^ n) split ∙ pow-add bits (f - bits) in
    let (low, high) =
      digit (2 ^ bits) (2 ^ (f - bits)) (value rest) i (number bits is) a hi
        (ap (λ (n : ℕ). a + n * value rest) (sym power) ∙ same ∙ e) in
    let shorter : a / 2 ^ bits < 2 ^ (f - bits) =
      div_lt_of_mul a (2 ^ bits) (2 ^ (f - bits)) (omega (arith, ha', power)) in
    rw (unpack, run, low, k)
      (rw
        (unpack-number mc palette size bits is cs (a / 2 ^ bits) (f - bits) rest hb (omega arith)
          shorter hp' his (omega (arith, long)) high ks)
        refl)
