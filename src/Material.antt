-- ===== src/Material.antt =====
-- The data of materials (crates/fallingsand_material/src/lib.rs). A `MaterialId` is its number, a `Q16`
-- its raw `u32`, a threshold its `u64`. The conversions of a `Q16` with floating point are left out.
pub mod Keep
use fallingsand.Prelude.{
  ℕ, ◌+◌, ◌*◌, ◌/◌, ◌%◌, ◌^◌, bit_and, bit_or, Bool, not, ltb, ◌==◌, if◌then◌else◌, Option, List,
  [], ◌∷◌,
}
use fallingsand.Prelude.Int.{ℤ, pos, magnitude, signed_as}
use fallingsand.Prelude.Words.{signed32, to_i32}
use fallingsand.Cell.{MaterialId}

pub data Phase : Type 0 where
  empty_phase solid powder_phase liquid_phase gas_phase : Phase

pub data Tag : Type 0 where
  dissolvable hot body_tag worthless suffocating soluble : Tag

-- `tag as u32`.
abbrev pub tag_index : Tag → ℕ
tag_index dissolvable = 0
tag_index hot = 1
tag_index body_tag = 2
tag_index worthless = 3
tag_index suffocating = 4
tag_index soluble = 5

abbrev pub Tags : Type 0
Tags = ℕ

-- The loop of `Tags::new`, from the bits so far.
unfoldable pub tags_from : Tags → List Tag → Tags
tags_from bits [] = bits
tags_from bits (t ∷ ts) = tags_from (bit_or bits (2 ^ tag_index t)) ts

unfoldable pub new : List Tag → Tags
unfolding tags_from
new ts = tags_from 0 ts

unfoldable pub contains : Tags → Tag → Bool
contains bits tag = not (bit_and bits (2 ^ tag_index tag) == 0)

unfoldable pub union : Tags → Tags → Tags
union a b = bit_or a b

pub record Reaction : Type 0 where
  pub becomes : MaterialId
  pub other_becomes : MaterialId
  pub threshold : ℕ

pub record Ignition : Type 0 where
  pub into : MaterialId
  pub open_air : ℕ
  pub sealed : ℕ

pub data BurningKind : Type 0 where
  flame fuel : BurningKind

pub data SealedBurn : Type 0 where
  becomes_material : MaterialId → SealedBurn
  smoulder : ℕ → SealedBurn

pub record Burning : Type 0 where
  pub burn : ℕ
  pub sealed : SealedBurn
  pub emit : ℕ
  pub residue : Option (ℕ × MaterialId)
  pub burnout : MaterialId
  pub kind : BurningKind

abbrev pub Q16 : Type 0
Q16 = ℕ

-- `v as i64 * raw as i64` fits, and the result is cut to an `i32`.
unfoldable pub apply : Q16 → ℤ → ℤ
apply raw v = signed32 (to_i32 (signed_as v ((magnitude v * raw + 32_768) / 65_536)))

unfoldable pub mul : Q16 → Q16 → Q16
mul a b = (a * b + 32_768) / 65_536 % 4_294_967_296

unfoldable pub is_zero : Q16 → Bool
is_zero a = a == 0

unfoldable pub min : Q16 → Q16 → Q16
min a b = if ltb a b then a else b

pub record PowderDynamics : Type 0 where
  pub air_drag_keep : Q16
  pub submerged_drag_keep : Q16
  pub ground_friction_keep : Q16
  pub deflect_keep : Q16
  pub topple_start_threshold : ℕ
  pub topple_keep_threshold : ℕ
  pub cohesion_threshold : ℕ

pub record LiquidDynamics : Type 0 where
  pub drag_keep : Q16
  pub glide_keep : Q16
  pub impact_keep : Q16

pub record GasDynamics : Type 0 where
  pub air_drag_keep : Q16
  pub turbulence : Q16

pub data Dynamics : Type 0 where
  no_dynamics : Dynamics
  powder : PowderDynamics → Dynamics
  liquid : LiquidDynamics → Dynamics
  gas : GasDynamics → Dynamics
