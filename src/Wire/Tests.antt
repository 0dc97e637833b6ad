-- ===== src/Wire/Tests.antt =====
-- The wire format on concrete inputs.
use fallingsand.Prelude.{
  ℕ, ◌/◌, ◌%◌, ◌≤◌, ◌≡◌, refl, arith, Option, some, List, [], ◌∷◌, length, drop,
}
use fallingsand.Cell.{Cell}
use fallingsand.Wire.Result.{ok}
use fallingsand.Wire.Cells.{cells_to_wire, cells_from_wire}
use fallingsand.Wire.Palette.{all_plain, IsShown, AllShown}
use fallingsand.Wire.RoundTrip.{cells_from_wire-cells_to_wire}
use fallingsand.Wire.Accepted.{Fits, cells_from_wire-Fits}
use fallingsand.Wire.Message.{encode_message, decode_message, decode_message-encode_message, le_u32}

abbrev sand : Cell
sand = record { material = 5; payload = (0, 0, 0, 0); shade = 3; flags = 0 }

abbrev water : Cell
water = record { material = 300; payload = (0, 0, 0, 0); shade = 1; flags = 0 }

abbrev row : List Cell
row = sand ∷ water ∷ sand ∷ sand ∷ water ∷ sand ∷ sand ∷ water ∷ sand ∷ []

sand-IsShown : IsShown 400 sand
sand-IsShown = (omega arith, omega arith)

water-IsShown : IsShown 400 water
water-IsShown = (omega arith, omega arith)

row_shown : AllShown 400 row
row_shown = (
  sand-IsShown,
  (
    water-IsShown,
    (
      sand-IsShown,
      (
        sand-IsShown,
        (water-IsShown, (sand-IsShown, (sand-IsShown, (water-IsShown, (sand-IsShown, tt))))),
      ),
    ),
  ),
)

row_written : cells_to_wire row ≡ 1 ∷ 1 ∷ 5 ∷ 0 ∷ 3 ∷ 44 ∷ 1 ∷ 1 ∷ 146 ∷ 0 ∷ []
unfolding cells_to_wire
row_written = refl

cells_from_wire-cells_to_wire_example :
    cells_from_wire 400 (cells_to_wire row) (length row) ≡ ok (all_plain row)
cells_from_wire-cells_to_wire_example =
    cells_from_wire-cells_to_wire 400 row (omega arith) (omega arith) row_shown

-- An index past the palette, and trailing bits.
abbrev odd_bytes : List ℕ
odd_bytes = 1 ∷ 2 ∷ 5 ∷ 0 ∷ 3 ∷ 6 ∷ 0 ∷ 3 ∷ 7 ∷ 0 ∷ 3 ∷ 27 ∷ []

cells_from_wire-Fits_example : Fits 400 3 (cells_from_wire 400 odd_bytes 3)
cells_from_wire-Fits_example = cells_from_wire-Fits 400 odd_bytes 3

-- A stored block: its length in four bytes, and the bytes.
abbrev stored : List ℕ → List ℕ
stored raw = let n = length raw in n % 256 ∷ n / 256 % 256 ∷ n / 65_536 % 256 ∷ n / 16_777_216 ∷ raw

abbrev unstored : List ℕ → Option (List ℕ)
unstored payload = some (drop 4 payload)

announced : (raw : List ℕ) → length raw ≤ 67_108_864 → le_u32 (stored raw) ≡ length raw
unfolding le_u32
announced raw small = omega arith

decode_message-encode_message_example :
    decode_message
      (λ (m : List ℕ). m)
      some
      stored
      unstored
      (encode_message (λ (m : List ℕ). m) some stored unstored (7 ∷ 8 ∷ []))
    ≡ ok (7 ∷ 8 ∷ [])
decode_message-encode_message_example =
    decode_message-encode_message (λ (m : List ℕ). m) some stored unstored (7 ∷ 8 ∷ []) (λ m. refl)
      (λ raw. refl) announced (omega arith)
