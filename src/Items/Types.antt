-- ===== src/Items/Types.antt =====
-- The data of crates/fallingsand_core/src/item.rs. An `ItemId` is its number, and 0 is `NONE`.
use fallingsand.Prelude.{ℕ, ◌≤◌, ◌<◌, List, Option, some, none}

abbrev pub hotbar_slots : ℕ
hotbar_slots = 10

abbrev pub player_slots : ℕ
player_slots = 30

abbrev pub ItemId : Type 0
ItemId = ℕ

pub record ItemStack : Type 0 where
  pub item : ItemId
  pub count : ℕ

pub record Recipe : Type 0 where
  pub inputs : List (ItemId × ℕ)
  pub output : ItemId × ℕ

abbrev pub Slot : Type 0
Slot = Option ItemStack

pub record Inventory : Type 0 where
  pub slots : List Slot

-- A stack in a slot holds at least one item, and at most the limit of its item.
abbrev pub IsStack : (ItemId → ℕ) → Slot → Type 0
IsStack limit none = Unit
IsStack limit (some s) = (0 < s.count) × (s.count ≤ limit s.item)
