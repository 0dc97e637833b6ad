-- ===== src/Sim/Content.antt =====
-- What the simulation reads of the content (crates/fallingsand_core/src/content/spec.rs and the tables
-- that the build generates): the tables are parameters, gathered in one record.
use fallingsand.Prelude.{ℕ, Bool, Option}
use fallingsand.Prelude.Int.{ℤ}
use fallingsand.Cell.{MaterialId}
use fallingsand.Material.{Phase, Tags, Reaction, Ignition, Burning, Dynamics, Q16}

-- `trait MatSpec`; the array of reactions is a function.
pub record MatSpec : Type 0 where
  pub density_milli : ℤ
  pub ignition : Option Ignition
  pub burning : Option Burning
  pub decay : Option (ℕ × MaterialId)
  pub is_reactive : Bool
  pub dynamics : Dynamics
  pub reactions : MaterialId → Reaction

-- The functions of `content` by their names there, `spec` for the types of `content::specs`, of which an
-- id that names no material has none, and the materials that the simulation names.
pub record Content : Type 0 where
  pub phase : MaterialId → Phase
  pub density_milli : MaterialId → ℤ
  pub bond_group : MaterialId → ℕ
  pub flow_threshold : MaterialId → ℕ
  pub liquid_exchange_threshold : MaterialId → MaterialId → ℕ
  pub liquid_impact : MaterialId → Q16
  pub restitution : MaterialId → Q16
  pub repose_layers : MaterialId → ℕ
  pub tags : MaterialId → Tags
  pub spec : MaterialId → Option MatSpec
  pub water : MaterialId
  pub steam : MaterialId
  pub fire : MaterialId
