-- ===== src/Wire/Cells.antt =====
-- `cells_to_wire` and `cells_from_wire`. A `[u8; CELL_WIRE_BYTES]` is an `Entry`; the map from keys to
-- indices is an association list. The number of materials comes from the build and is a parameter.
use fallingsand.Prelude.{
  ℕ, zero, suc, ◌+◌, ◌-◌, ◌*◌, ◌/◌, ◌%◌, ◌^◌, ltb, leb, ◌==◌, not, if◌then◌else◌, Option, none,
  some, List, [], ◌∷◌, ◌++◌, length, take, drop, get_elem?, replicate,
}
use fallingsand.Cell.{Cell}
use fallingsand.Wire.Result.{
  WireResult, ok, err, empty, bad_cell_payload, invalid_material, prepend,
}
use fallingsand.Wire.Pack.{index_bits, pack, refill}

abbrev pub Entry : Type 0
Entry = ℕ × ℕ × ℕ

unfoldable pub cell_entry : Cell → Entry
cell_entry c = (c.material % 256, c.material / 256 % 256, c.shade)

abbrev pub entry_bytes : List Entry → List ℕ
entry_bytes [] = []
entry_bytes ((a, b, c) ∷ es) = a ∷ b ∷ c ∷ entry_bytes es

-- `chunks_exact(CELL_WIRE_BYTES)`.
abbrev pub entries : List ℕ → List Entry
entries (a ∷ b ∷ c ∷ bytes) = (a, b, c) ∷ entries bytes
entries _ = []

-- The key of a cell; the fields are disjoint, so `|` is the sum.
unfoldable pub cell_key : Cell → ℕ
cell_key c = c.material + c.shade * 2 ^ 16

abbrev pub find_key : ℕ → List (ℕ × ℕ) → Option ℕ
find_key k [] = none
find_key k ((l, i) ∷ rest) = if l == k then some i else find_key k rest

abbrev pub with_index : ℕ → Option (List Entry × List ℕ) → Option (List Entry × List ℕ)
with_index i none = none
with_index i (some (palette, indices)) = some (palette, i ∷ indices)

-- The loop over the cells, with the palette and the keys so far: the whole palette and the indices of
-- these cells, or `none` where the palette is full.
unfoldable pub gather : List Cell → List Entry → List (ℕ × ℕ) → Option (List Entry × List ℕ)
unfolding cell_key cell_entry
gather [] palette keys = some (palette, [])
gather (c ∷ cs) palette keys =
    let index = length palette in
    let known = λ (i : ℕ). with_index i (gather cs palette keys) in
    let fresh =
      with_index index (gather cs (palette ++ (cell_entry c ∷ [])) ((cell_key c, index) ∷ keys)) in
    elim (find_key (cell_key c) keys) [
      | some i ↦ known i
      | none ↦ if length palette == 256 then none else fresh
    ]

abbrev pub all_entries : List Cell → List Entry
all_entries [] = []
all_entries (c ∷ cs) = cell_entry c ∷ all_entries cs

unfoldable pub cells_to_wire_raw : List Cell → List ℕ
cells_to_wire_raw cells = 2 ∷ entry_bytes (all_entries cells)

-- `(a).div_ceil(8)`.
abbrev pub bytes_for : ℕ → ℕ
bytes_for bits = (bits + 7) / 8

-- `palette.first().copied().unwrap_or_default()`.
abbrev pub first_entry : List Entry → Entry
first_entry [] = (0, 0, 0)
first_entry (e ∷ es) = e

-- What follows the loop.
unfoldable pub with_palette : List Cell → List Entry → List ℕ → List ℕ
unfolding cells_to_wire_raw index_bits pack
with_palette cells palette indices =
    let bits = index_bits (length palette) in
    let paletted_len = 2 + length palette * 3 + bytes_for (length cells * bits) in
    if leb (length palette) 1
    then 0 ∷ entry_bytes (first_entry palette ∷ [])
    else if ltb (length cells * 3) paletted_len
    then cells_to_wire_raw cells
    else 1 ∷ (length palette - 1) ∷ entry_bytes palette ++ pack bits indices 0 0

unfoldable pub cells_to_wire : List Cell → List ℕ
unfolding gather with_palette cells_to_wire_raw
cells_to_wire cells = elim (gather cells [] []) [
  | none ↦ cells_to_wire_raw cells
  | some (palette, indices) ↦ with_palette cells palette indices
]

module _ (material_count : ℕ) where
  unfoldable pub entry_cell : Entry → WireResult Cell
  entry_cell (a, b, shade) =
      let material = a + b * 256 in
      if leb material_count material
      then err (invalid_material material)
      else ok (record { material = material; payload = (0, 0, 0, 0); shade = shade; flags = 0 })

  -- `collect`: the first error, if there is one.
  unfoldable pub collect : List Entry → WireResult (List Cell)
  unfolding entry_cell
  collect [] = ok []
  collect (e ∷ es) = elim (entry_cell e) [ err x ↦ err x | ok c ↦ prepend c (collect es) ]

  -- The loop over the cells that are left, and the check after it.
  unfoldable pub unpack : List Cell → ℕ → ℕ → ℕ → ℕ → ℕ → List ℕ → WireResult (List Cell)
  unfolding refill
  unpack palette size bits zero acc filled packed =
      if acc == 0 then ok [] else err (bad_cell_payload size)
  unpack palette size bits (suc count) acc filled packed = elim (refill bits acc filled packed) [
    | none ↦ err (bad_cell_payload size)
    | some (acc', filled', rest) ↦ elim (get_elem? palette (acc' % 2 ^ bits)) [
      | none ↦ err (bad_cell_payload size)
      | some c ↦ prepend c (unpack palette size bits count (acc' / 2 ^ bits) (filled' - bits) rest)
    ]
  ]

  -- The payload of `CELLS_PALETTE`, for a message of so many bytes.
  unfoldable pub from_palette : ℕ → List ℕ → ℕ → WireResult (List Cell)
  unfolding collect unpack index_bits
  from_palette size [] count = err (bad_cell_payload size)
  from_palette size (len_minus_one ∷ rest) count =
      let palette_len = len_minus_one + 1 in
      let bits = index_bits palette_len in
      let packed = drop (palette_len * 3) rest in
      if ltb palette_len 2
      then err (bad_cell_payload size)
      else if ltb (length rest) (palette_len * 3)
      then err (bad_cell_payload size)
      else if not (length packed == bytes_for (count * bits))
      then err (bad_cell_payload size)
      else (elim (collect (entries (take (palette_len * 3) rest))) [
        | err x ↦ err x
        | ok palette ↦ unpack palette size bits count 0 0 packed
      ])

  unfoldable pub from_uniform : ℕ → List ℕ → ℕ → WireResult (List Cell)
  unfolding entry_cell
  from_uniform size (a ∷ b ∷ c ∷ []) count = elim (entry_cell (a, b, c)) [
    | err x ↦ err x
    | ok cell ↦ ok (replicate count cell)
  ]
  from_uniform size _ count = err (bad_cell_payload size)

  unfoldable pub from_raw : ℕ → List ℕ → ℕ → WireResult (List Cell)
  unfolding collect
  from_raw size payload count =
      if not (length payload == count * 3)
      then err (bad_cell_payload size)
      else collect (entries payload)

  unfoldable pub cells_from_wire : List ℕ → ℕ → WireResult (List Cell)
  unfolding from_uniform from_palette from_raw
  cells_from_wire [] count = err empty
  cells_from_wire (tag ∷ payload) count =
      let size = 1 + length payload in
      if tag == 0
      then from_uniform size payload count
      else if tag == 1
      then from_palette size payload count
      else if tag == 2
      then from_raw size payload count
      else err (bad_cell_payload size)
