-- ===== src/Wire/Pack.antt =====
-- The loops of `cells_to_wire` and `cells_from_wire` that put indices of `bits` bits one after another
-- into bytes and read them back. `acc` holds `filled` bits, fewer than 8, between the rounds of the
-- one loop, and at most 8 more in the other: it never reaches bit 32.
use fallingsand.Prelude.{
  ℕ, zero, suc, ◌+◌, ◌-◌, ◌*◌, ◌/◌, ◌%◌, ◌^◌, bit_or, ltb, ◌==◌, if◌then◌else◌, Option, none, some,
  List, [], ◌∷◌, ◌++◌,
}

-- The bits of a number, with fuel.
unfoldable pub bit_length : ℕ → ℕ → ℕ
bit_length zero n = 0
bit_length (suc fuel) n = let rest = bit_length fuel (n / 2) in if n == 0 then 0 else rest + 1

-- `usize::BITS - (palette_len - 1).leading_zeros()`.
unfoldable pub index_bits : ℕ → ℕ
unfolding bit_length
index_bits palette_len = bit_length 64 (palette_len - 1)

-- `while filled >= 8`: the bytes pushed, and `acc` and `filled` afterwards. Every round takes 8 off
-- `filled`, so its value is enough fuel.
unfoldable pub emit : ℕ → ℕ → ℕ → List ℕ × ℕ × ℕ
emit zero acc filled = ([], acc, filled)
emit (suc fuel) acc filled =
    let (bytes, acc', filled') = emit fuel (acc / 256) (filled - 8) in
    if ltb filled 8 then ([], acc, filled) else (acc % 256 ∷ bytes, acc', filled')

-- The loop over the indices, and the byte after it.
unfoldable pub pack : ℕ → List ℕ → ℕ → ℕ → List ℕ
unfolding emit
pack bits [] acc filled = if filled == 0 then [] else acc % 256 ∷ []
pack bits (i ∷ is) acc filled =
    let (bytes, acc', filled') =
      emit (filled + bits) (bit_or (i * 2 ^ filled) acc) (filled + bits) in
    bytes ++ pack bits is acc' filled'

-- `while filled < bits`; `none` where the bytes run out.
unfoldable pub refill : ℕ → ℕ → ℕ → List ℕ → Option (ℕ × ℕ × List ℕ)
refill bits acc filled [] = if ltb filled bits then none else some (acc, filled, [])
refill bits acc filled (byte ∷ bytes) =
    let rest = refill bits (bit_or (byte * 2 ^ filled) acc) (filled + 8) bytes in
    if ltb filled bits then rest else some (acc, filled, byte ∷ bytes)
