-- ===== src/Wire/RoundTrip.antt =====
-- `cells_from_wire` reads back what `cells_to_wire` wrote.
use fallingsand.Prelude.{
  ℕ, zero, suc, ◌+◌, ◌-◌, ◌*◌, ◌/◌, ◌^◌, ◌<◌, ◌≤◌, ◌≡◌, refl, sym, ap, ◌∙◌, subst, inl, inr, arith,
  ltb, leb, ◌==◌, ◌&&◌, Option, none, some, List, [], ◌∷◌, ◌++◌, length, Bool-cases, Bool, true,
  false, length-append, leb→le, get_elem?-some-lt, ge→ltb, eq→==, take_append, drop_append, take,
  drop, replicate, all_below, all_below_sound,
}
use fallingsand.Cell.{Cell}
use fallingsand.Wire.Result.{ok}
use fallingsand.Wire.Pack.{index_bits, bit_length, pack}
use fallingsand.Wire.Bits.{Below, value-pack, length-pack, pack-Below}
use fallingsand.Wire.Unpack.{Looked, unpack-number}
use fallingsand.Wire.Cells.{
  Entry, all_entries, entry_bytes, first_entry, bytes_for, with_palette, cells_to_wire,
  cells_to_wire_raw, cells_from_wire, from_uniform, from_palette, from_raw, entry_cell, gather,
  unpack,
}
use fallingsand.Wire.Palette.{
  AllShown, all_plain, plain, Gathered, gather_cases, entries-entry_bytes, length-entry_bytes,
  length-all_entries, entry_cell-cell_entry, collect-all_entries,
}

-- The bits of an index hold every index of a palette.
abbrev fits : ℕ → Bool
fits n = leb n (2 ^ index_bits n) && leb (index_bits n) 8

all_fit : all_below 257 fits ≡ true
unfolding all_below index_bits bit_length
all_fit = refl

index_bits-fit : (n : ℕ) → n ≤ 256 → (n ≤ 2 ^ index_bits n) × (index_bits n ≤ 8)
index_bits-fit n h =
    both n (index_bits n) (2 ^ index_bits n) (all_below_sound 257 fits n all_fit (omega arith))
  where
    both : (n b p : ℕ) → (leb n p && leb b 8) ≡ true → (n ≤ p) × (b ≤ 8)
    both n b p e = ground arith

length-all_plain : (cs : List Cell) → length (all_plain cs) ≡ length cs
length-all_plain [] = refl
length-all_plain (c ∷ cs) = omega (arith, length-all_plain cs)

Below-Looked :
    (n : ℕ) (ps : List Cell) (is : List ℕ) (cs : List Cell)
    → length ps ≤ n
    → Looked ps is cs
    → Below n is
Below-Looked n ps [] [] h k = tt
Below-Looked n ps [] (c ∷ cs) h k = elim k [ ]
Below-Looked n ps (i ∷ is) [] h k = elim k [ ]
Below-Looked n ps (i ∷ is) (c ∷ cs) h (e, k) =
    (omega (arith, get_elem?-some-lt ps i e), Below-Looked n ps is cs h k)

-- With one entry every cell is the same.
Looked-one :
    (p : Cell) (is : List ℕ) (cs : List Cell) → Looked (p ∷ []) is cs → replicate (length cs) p ≡ cs
Looked-one p [] [] k = refl
Looked-one p [] (c ∷ cs) k = elim k [ ]
Looked-one p (i ∷ is) [] k = elim k [ ]
Looked-one p (zero ∷ is) (c ∷ cs) (e, k) =
    let same : p ≡ c = cc in rw (Looked-one p is cs k) (ap (λ (d : Cell). d ∷ cs) same)
Looked-one p (suc i ∷ is) (c ∷ cs) (e, k) = cc

Looked-none : (is : List ℕ) (cs : List Cell) → Looked [] is cs → cs ≡ []
Looked-none [] [] k = refl
Looked-none [] (c ∷ cs) k = elim k [ ]
Looked-none (i ∷ is) [] k = elim k [ ]
Looked-none (i ∷ is) (c ∷ cs) (e, k) = cc

tag_one :
    (mc : ℕ) (payload : List ℕ) (count : ℕ)
    → cells_from_wire mc (1 ∷ payload) count ≡ from_palette mc (1 + length payload) payload count
unfolding cells_from_wire
tag_one mc payload count = refl

two_entries : (n : ℕ) → leb n 1 ≡ false → 2 ≤ n
two_entries n b = ground arith

empty_back : (mc : ℕ) → leb mc 0 ≡ false → from_uniform mc 4 (0 ∷ 0 ∷ 0 ∷ []) 0 ≡ ok []
unfolding from_uniform entry_cell
empty_back mc e = rw (from_uniform, entry_cell, e) refl

module _ (mc : ℕ) (some_material : 0 < mc) (few : mc ≤ 65_536) (cs : List Cell)
    (shown : AllShown mc cs) where
  raw_back : cells_from_wire mc (cells_to_wire_raw cs) (length cs) ≡ ok (all_plain cs)
  unfolding cells_from_wire cells_to_wire_raw from_raw
  raw_back =
      let long : length (entry_bytes (all_entries cs)) == length cs * 3 ≡ true =
        ground (arith, length-entry_bytes (all_entries cs), length-all_entries cs) in
      rw
        (
          cells_from_wire,
          from_raw,
          long,
          entries-entry_bytes (all_entries cs),
          collect-all_entries mc few cs shown,
        )
        refl

  palette_back :
      (size m : ℕ) (qs : List Cell) (is : List ℕ)
      → AllShown mc qs
      → length qs ≡ m + 1
      → 1 ≤ m
      → m ≤ 255
      → Looked (all_plain qs) is (all_plain cs)
      → length is ≡ length cs
      → from_palette mc size
          (m ∷ (entry_bytes (all_entries qs) ++ pack (index_bits (m + 1)) is 0 0))
          (length cs)
        ≡ ok (all_plain cs)
  unfolding from_palette
  palette_back size m qs is hq long two small look same =
      let bits = index_bits (m + 1) in
      let (hold, few_bits) = index_bits-fit (m + 1) (omega arith) in
      let packed = pack bits is 0 0 in
      let table = entry_bytes (all_entries qs) in
      let width : length table ≡ (m + 1) * 3 =
        omega (arith, length-entry_bytes (all_entries qs), length-all_entries qs) in
      let below : Below (2 ^ bits) is =
        Below-Looked (2 ^ bits) (all_plain qs) is (all_plain cs)
          (omega (arith, length-all_plain qs, hold)) look in
      let sized : length packed ≡ (length is * bits + 7) / 8 =
        omega (arith, length-pack bits is 0 0 few_bits (omega arith)) in
      let many : ltb (m + 1) 2 ≡ false = ge→ltb (m + 1) 2 (omega arith) in
      let enough : ltb (length (table ++ packed)) ((m + 1) * 3) ≡ false =
        ge→ltb (length (table ++ packed)) ((m + 1) * 3)
          (omega (arith, length-append table packed, width)) in
      let tail : drop ((m + 1) * 3) (table ++ packed) ≡ packed =
        ap (λ (n : ℕ). drop n (table ++ packed)) (sym width) ∙ drop_append table packed in
      let head : take ((m + 1) * 3) (table ++ packed) ≡ table =
        ap (λ (n : ℕ). take n (table ++ packed)) (sym width) ∙ take_append table packed in
      let exact : (length (drop ((m + 1) * 3) (table ++ packed)) == bytes_for (length cs * bits))
          ≡ true =
        eq→== (length (drop ((m + 1) * 3) (table ++ packed))) (bytes_for (length cs * bits))
          (ap length tail ∙ sized ∙ ap (λ (n : ℕ). bytes_for (n * bits)) same) in
      let read : unpack mc (all_plain qs) size bits (length is) 0 0 packed ≡ ok (all_plain cs) =
        unpack-number mc (all_plain qs) size bits is (all_plain cs) 0 0 packed few_bits
          (omega arith) (omega arith) (pack-Below bits is 0 0) below (omega (arith, sized))
          (omega (arith, value-pack bits is 0 0 few_bits (omega arith) (omega arith) below)) look in
      rw
        (
          from_palette,
          many,
          enough,
          exact,
          head,
          entries-entry_bytes (all_entries qs),
          collect-all_entries mc few qs hq,
          tail,
        )
        (ap (λ (n : ℕ). unpack mc (all_plain qs) size bits n 0 0 packed) (sym same) ∙ read)

  uniform_back :
      (qs : List Cell) (is : List ℕ)
      → AllShown mc qs
      → length qs ≤ 1
      → Looked (all_plain qs) is (all_plain cs)
      → cells_from_wire mc (0 ∷ entry_bytes (first_entry (all_entries qs) ∷ [])) (length cs)
        ≡ ok (all_plain cs)
  unfolding cells_from_wire from_uniform
  uniform_back [] is hq small look =
      let none_here : all_plain cs ≡ [] = Looked-none is (all_plain cs) look in
      let count : length cs ≡ 0 = sym (length-all_plain cs) ∙ ap length none_here in
      let air_known : leb mc 0 ≡ false = ground arith in
      rw (count, none_here) (empty_back mc air_known)
  uniform_back (q ∷ []) is (hq, _) small look =
      rw (cells_from_wire, from_uniform, entry_cell-cell_entry mc few q hq)
        (ap ok (
          ap (λ (n : ℕ). replicate n (plain q)) (sym (length-all_plain cs))
          ∙ Looked-one (plain q) is (all_plain cs) look))
  uniform_back (q ∷ r ∷ qs) is hq small look = absurd (omega arith)

  tagged_back :
      (qs : List Cell) (is : List ℕ)
      → AllShown mc qs
      → length qs ≤ 256
      → Looked (all_plain qs) is (all_plain cs)
      → length is ≡ length cs
      → leb (length (all_entries qs)) 1 ≡ false
      → cells_from_wire mc
          (1 ∷ (length (all_entries qs) - 1) ∷ entry_bytes (all_entries qs)
            ++ pack (index_bits (length (all_entries qs))) is 0 0)
          (length cs)
        ≡ ok (all_plain cs)
  tagged_back qs is hq small look same b =
      let n = length (all_entries qs) in
      let size = length-all_entries qs in
      let two : 2 ≤ n = two_entries n b in
      let back : n - 1 + 1 ≡ n = omega arith in
      let table = entry_bytes (all_entries qs) in
      let payload = (n - 1) ∷ (table ++ pack (index_bits n) is 0 0) in
      tag_one mc payload (length cs)
      ∙ subst
          (λ (k : ℕ).
            from_palette mc (1 + length payload) ((n - 1) ∷ (table ++ pack (index_bits k) is 0 0))
              (length cs)
            ≡ ok (all_plain cs))
          back
          (palette_back (1 + length payload) (n - 1) qs is hq (omega (arith, size)) (omega arith)
            (omega (arith, size)) look same)

  Gathered-back :
      (o : Option (List Entry × List ℕ))
      → Gathered mc [] cs o
      → cells_from_wire mc
          (elim o [
            | none ↦ cells_to_wire_raw cs
            | some (palette, indices) ↦ with_palette cs palette indices
          ])
          (length cs)
        ≡ ok (all_plain cs)
  unfolding with_palette
  Gathered-back o (qs, is, e, more, hq, small, look, same) =
      let size = length-all_entries qs in
      elim (Bool-cases (leb (length (all_entries qs)) 1)) [
        | inl b ↦
            rw (e, with_palette, b)
              (uniform_back qs is hq (omega (arith, size, leb→le (length (all_entries qs)) 1 b))
                look)
        | inr b ↦
            elim (Bool-cases (
              ltb (length cs * 3) (
                2
                + length (all_entries qs) * 3
                + bytes_for (length cs * index_bits (length (all_entries qs)))))) [
                  | inl c ↦ rw (e, with_palette, b, c) raw_back
                  | inr c ↦ rw (e, with_palette, b, c) (tagged_back qs is hq small look same b)
                ]
      ]

-- Where there are materials, and no more than a `u16` numbers, the bytes of any list of cells of these
-- materials read back as the cells with their materials and shades, at rest and without flags: one
-- entry, a palette with packed indices and the raw cells alike.
pub cells_from_wire-cells_to_wire :
    (material_count : ℕ) (cells : List Cell)
    → 0 < material_count
    → material_count ≤ 65_536
    → AllShown material_count cells
    → cells_from_wire material_count (cells_to_wire cells) (length cells) ≡ ok (all_plain cells)
unfolding cells_to_wire
cells_from_wire-cells_to_wire mc cells some_material few shown =
    elim (gather_cases mc [] [] cells few shown tt (omega arith) (λ k i e. cc)) [
      | inl e ↦ rw (cells_to_wire, e) (raw_back mc some_material few cells shown)
      | inr g ↦ Gathered-back mc some_material few cells shown (gather cells [] []) g
    ]
