-- ===== src/Cell/State.antt =====
-- `struct Cell` and its methods (crates/fallingsand_core/src/cell.rs). `u8` and `u16` are numbers, a
-- velocity component is the integer that it stands for.
use fallingsand.Prelude.{
  ℕ, ◌+◌, ◌-◌, ◌*◌, ◌/◌, ◌%◌, ◌<◌, bit_and, bit_or, Bool, not, ltb, ◌==◌, if◌then◌else◌, Option,
  none, some,
}
use fallingsand.Prelude.Int.{ℤ, pos, negsuc}

abbrev pub MaterialId : Type 0
MaterialId = ℕ

abbrev pub air_id : MaterialId
air_id = 0

pub data Motion : Type 0 where
  velocity : ℤ → ℤ → Motion
  body : ℕ → Motion

-- Four bytes, the lowest first.
abbrev pub Bytes : Type 0
Bytes = ℕ × ℕ × ℕ × ℕ

pub record Cell : Type 0 where
  pub material : MaterialId
  pub payload : Bytes
  pub shade : ℕ
  pub flags : ℕ

abbrev pub IsCell : Cell → Type 0
IsCell c =
    (c.material < 65_536)
    × ((c.payload.0 < 256) × (c.payload.1 < 256) × (c.payload.2 < 256) × (c.payload.3 < 256))
    × (c.shade < 256)
    × (c.flags < 256)

abbrev pub moved_bit : ℕ
moved_bit = 1

abbrev pub body_bit : ℕ
body_bit = 2

abbrev pub stress_bit : ℕ
stress_bit = 4

unfoldable pub air : Cell
air = record { material = air_id; payload = (0, 0, 0, 0); shade = 0; flags = 0 }

-- `shade & 0x0F`.
unfoldable pub new : MaterialId → ℕ → Cell
new material shade = record {
  material = material;
  payload = (0, 0, 0, 0);
  shade = shade % 16;
  flags = 0;
}

-- `v.clamp(i16::MIN as i32, i16::MAX as i32)`.
abbrev pub clamp_i16 : ℤ → ℤ
clamp_i16 (pos n) = if ltb 32_767 n then pos 32_767 else pos n
clamp_i16 (negsuc n) = if ltb 32_767 n then negsuc 32_767 else negsuc n

-- An `i16` as its pattern, and back.
abbrev pub pattern16 : ℤ → ℕ
pattern16 (pos n) = n % 65_536
pattern16 (negsuc n) = 65_535 - n % 65_536

abbrev pub signed16 : ℕ → ℤ
signed16 w = if ltb w 32_768 then pos w else negsuc (65_535 - w)

unfoldable pub pack : ℤ → ℤ → Bytes
pack vx vy = (pattern16 vx % 256, pattern16 vx / 256, pattern16 vy % 256, pattern16 vy / 256)

unfoldable pub unpack : Cell → ℤ × ℤ
unpack c = (signed16 (c.payload.0 + 256 * c.payload.1), signed16 (c.payload.2 + 256 * c.payload.3))

abbrev pub flag : ℕ → Cell → Bool
flag mask c = not (bit_and c.flags mask == 0)

unfoldable pub motion : Cell → Motion
unfolding unpack
motion c =
    if flag body_bit c
    then body (c.payload.0 + 256 * c.payload.1 + 65_536 * c.payload.2 + 16_777_216 * c.payload.3)
    else velocity (unpack c).0 (unpack c).1

unfoldable pub body_id : Cell → Option ℕ
unfolding motion
body_id c = elim (motion c) [ body id ↦ some id | velocity vx vy ↦ none ]

-- The assertion that the cell has no body tag is checked in debug builds alone.
unfoldable pub vel : Cell → ℤ × ℤ
unfolding unpack
vel c = unpack c

unfoldable pub set_vel : Cell → ℤ → ℤ → Cell
unfolding pack
set_vel c vx vy = record c { payload = pack (clamp_i16 vx) (clamp_i16 vy) }

unfoldable pub set_body : Cell → ℕ → Cell
set_body c id = record c {
  payload = (id % 256, id / 256 % 256, id / 65_536 % 256, id / 16_777_216 % 256);
  flags = bit_or c.flags body_bit;
}

-- `flags & !MASK` on a byte.
abbrev pub without : ℕ → ℕ → ℕ
without flags mask = bit_and flags (255 - mask)

unfoldable pub clear_body : Cell → Cell
clear_body c =
    if flag body_bit c
    then record c { payload = (0, 0, 0, 0); flags = without c.flags body_bit }
    else c

unfoldable pub is_moved : Cell → Bool
is_moved c = flag moved_bit c

unfoldable pub set_moved : Cell → Cell
set_moved c = record c { flags = bit_or c.flags moved_bit }

unfoldable pub clear_moved : Cell → Cell
clear_moved c = record c { flags = without c.flags moved_bit }

unfoldable pub is_stressed : Cell → Bool
is_stressed c = flag stress_bit c

unfoldable pub set_stressed : Cell → Cell
set_stressed c = record c { flags = bit_or c.flags stress_bit }

unfoldable pub clear_stressed : Cell → Cell
clear_stressed c = record c { flags = without c.flags stress_bit }

unfoldable pub is_air : Cell → Bool
is_air c = c.material == air_id
