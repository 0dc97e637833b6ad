-- ===== src/Wire/Accepted.antt =====
-- What `cells_from_wire` accepts.
use fallingsand.Prelude.{
  ℕ, zero, suc, ◌+◌, ◌-◌, ◌*◌, ◌/◌, ◌%◌, ◌^◌, ◌<◌, ◌≡◌, refl, All, All-get_elem?, All-replicate,
  length-replicate, ap, inl, inr, arith, ltb, leb, leb→lt, ==_iff, subst, ◌==◌, List, [], ◌∷◌,
  length, Bool-cases, Option-cases, get_elem?, replicate, take, drop,
}
use fallingsand.Cell.{Cell}
use fallingsand.Wire.Result.{WireResult, ok, err, prepend}
use fallingsand.Wire.Pack.{refill, index_bits}
use fallingsand.Wire.Cells.{
  Entry, entries, bytes_for, cells_from_wire, from_uniform, from_palette, from_raw, collect,
  entry_cell, unpack,
}

abbrev pub AllKnown : ℕ → List Cell → Type 0
AllKnown mc = All (λ (c : Cell). c.material < mc)

-- An error, or so many cells of materials that exist.
abbrev pub Fits : ℕ → ℕ → WireResult (List Cell) → Type 0
Fits mc count (err e) = Unit
Fits mc count (ok cs) = (length cs ≡ count) × AllKnown mc cs

prepend-Fits :
    (mc count : ℕ) (c : Cell) (r : WireResult (List Cell))
    → c.material < mc
    → Fits mc count r
    → Fits mc (suc count) (prepend c r)
prepend-Fits mc count c (err e) h k = tt
prepend-Fits mc count c (ok cs) h (k, ks) = (omega (arith, k), (h, ks))

-- An error, or a cell of a material that exists.
abbrev Known : ℕ → WireResult Cell → Type 0
Known mc (err e) = Unit
Known mc (ok c) = c.material < mc

entries-thirds :
    (count : ℕ) (bytes : List ℕ) → length bytes ≡ count * 3 → length (entries bytes) ≡ count
entries-thirds zero [] h = refl
entries-thirds zero (a ∷ bytes) h = absurd (omega (arith, h))
entries-thirds (suc count) [] h = absurd (omega (arith, h))
entries-thirds (suc count) (a ∷ []) h = absurd (omega (arith, h))
entries-thirds (suc count) (a ∷ b ∷ []) h = absurd (omega (arith, h))
entries-thirds (suc count) (a ∷ b ∷ c ∷ bytes) h =
    ap suc (entries-thirds count bytes (omega (arith, h)))

module _ (mc : ℕ) where
  entry_cell-Known : (e : Entry) → Known mc (entry_cell mc e)
  unfolding entry_cell
  entry_cell-Known (a, b, s) = elim (Bool-cases (leb mc (a + b * 256))) [
    | inl h ↦ rw (entry_cell, h) tt
    | inr h ↦ rw (entry_cell, h) (leb→lt mc (a + b * 256) h)
  ]

  collect-Fits : (es : List Entry) → Fits mc (length es) (collect mc es)
  unfolding collect
  collect-Fits [] = (refl, tt)
  collect-Fits (e ∷ es) =
      let rest = collect-Fits es in
      elim (entry_cell mc e)
          as (λ r.
            Known mc r
            → Fits mc (suc (length es))
                (elim r [ err x ↦ err x | ok c ↦ prepend c (collect mc es) ])) [
                  | err x ↦ λ k. tt
                  | ok c ↦ λ k. prepend-Fits mc (length es) c (collect mc es) k rest
                ]
        (entry_cell-Known e)

  unpack-Fits :
      (palette : List Cell) (size bits count acc filled : ℕ) (packed : List ℕ)
      → AllKnown mc palette
      → Fits mc count (unpack mc palette size bits count acc filled packed)
  unfolding unpack
  unpack-Fits palette size bits zero acc filled packed known = elim (Bool-cases (acc == 0)) [
    | inl h ↦ rw (unpack, h) (refl, tt)
    | inr h ↦ rw (unpack, h) tt
  ]
  unpack-Fits palette size bits (suc count) acc filled packed known =
      elim (Option-cases (refill bits acc filled packed)) [
        | inl h ↦ rw (unpack, h) tt
        | inr ((acc', filled', rest), h) ↦
            elim (Option-cases (get_elem? palette (acc' % 2 ^ bits))) [
              | inl k ↦ rw (unpack, h, k) tt
              | inr (c, k) ↦
                  rw (unpack, h, k)
                    (prepend-Fits mc count c
                      (unpack mc palette size bits count (acc' / 2 ^ bits) (filled' - bits) rest)
                      (All-get_elem? (λ (x : Cell). x.material < mc) palette (acc' % 2 ^ bits) known
                        k)
                      (unpack-Fits palette size bits count (acc' / 2 ^ bits) (filled' - bits) rest
                        known))
            ]
      ]

  from_uniform-Fits :
      (size : ℕ) (payload : List ℕ) (count : ℕ) → Fits mc count (from_uniform mc size payload count)
  unfolding from_uniform
  from_uniform-Fits size [] count = tt
  from_uniform-Fits size (a ∷ []) count = tt
  from_uniform-Fits size (a ∷ b ∷ []) count = tt
  from_uniform-Fits size (a ∷ b ∷ c ∷ []) count =
      elim (entry_cell mc (a, b, c))
          as (λ r.
            Known mc r
            → Fits mc count (elim r [ err x ↦ err x | ok cell ↦ ok (replicate count cell) ])) [
              | err x ↦ λ k. tt
              | ok cell ↦ λ k. (
                length-replicate count cell,
                All-replicate (λ (x : Cell). x.material < mc) count cell k,
              )
            ]
        (entry_cell-Known (a, b, c))
  from_uniform-Fits size (a ∷ b ∷ c ∷ d ∷ payload) count = tt

  from_raw-Fits :
      (size : ℕ) (payload : List ℕ) (count : ℕ) → Fits mc count (from_raw mc size payload count)
  unfolding from_raw
  from_raw-Fits size payload count = elim (Bool-cases (length payload == count * 3)) [
    | inl h ↦
        rw (from_raw, h)
          (subst (λ n. Fits mc n (collect mc (entries payload)))
            (entries-thirds count payload ((==_iff (length payload) (count * 3)).0 h))
            (collect-Fits (entries payload)))
    | inr h ↦ rw (from_raw, h) tt
  ]

  from_palette-Fits :
      (size : ℕ) (payload : List ℕ) (count : ℕ) → Fits mc count (from_palette mc size payload count)
  unfolding from_palette
  from_palette-Fits size [] count = tt
  from_palette-Fits size (m ∷ rest) count =
      let n = m + 1 in
      let bits = index_bits n in
      let packed = drop (n * 3) rest in
      let es = entries (take (n * 3) rest) in
      let read : Fits mc count (elim (collect mc es) [
        | err x ↦ err x
        | ok palette ↦ unpack mc palette size bits count 0 0 packed
      ]) =
        (elim (collect mc es)
            as (λ r.
              Fits mc (length es) r
              → Fits mc count (elim r [
                | err x ↦ err x
                | ok palette ↦ unpack mc palette size bits count 0 0 packed
              ])) [
                | err x ↦ λ k. tt
                | ok palette ↦ λ k. unpack-Fits palette size bits count 0 0 packed k.1
              ])
          (collect-Fits es) in
      elim (Bool-cases (ltb n 2)) [
        | inl h ↦ rw (from_palette, h) tt
        | inr h ↦ elim (Bool-cases (ltb (length rest) (n * 3))) [
          | inl k ↦ rw (from_palette, h, k) tt
          | inr k ↦ elim (Bool-cases (length packed == bytes_for (count * bits))) [
            | inl l ↦ rw (from_palette, h, k, l) read
            | inr l ↦ rw (from_palette, h, k, l) tt
          ]
        ]
      ]

  -- Whatever bytes arrive, `cells_from_wire` returns an error, or exactly the number of cells it was
  -- asked for, each of a material that exists.
  pub cells_from_wire-Fits :
      (bytes : List ℕ) (count : ℕ) → Fits mc count (cells_from_wire mc bytes count)
  unfolding cells_from_wire
  cells_from_wire-Fits [] count = tt
  cells_from_wire-Fits (tag ∷ payload) count =
      let size = 1 + length payload in
      elim (Bool-cases (tag == 0)) [
        | inl h ↦ rw (cells_from_wire, h) (from_uniform-Fits size payload count)
        | inr h ↦ elim (Bool-cases (tag == 1)) [
          | inl k ↦ rw (cells_from_wire, h, k) (from_palette-Fits size payload count)
          | inr k ↦ elim (Bool-cases (tag == 2)) [
            | inl l ↦ rw (cells_from_wire, h, k, l) (from_raw-Fits size payload count)
            | inr l ↦ rw (cells_from_wire, h, k, l) tt
          ]
        ]
      ]
