-- ===== src/Actions/Apply.antt =====
-- `apply_action` (crates/fallingsand_server/src/inventory.rs). `none` is a panic, or a craft loop
-- that ran out of fuel.
use fallingsand.Prelude.{
  ℕ, zero, suc, Bool, true, false, ◌&&◌, not, ltb, ◌==◌, if◌then◌else◌, Option, none, some, List,
  [], ◌∷◌, get_elem?,
}
use fallingsand.Items.{ItemId, ItemStack, Recipe, Slot, Inventory, hotbar_slots, player_slots}
use fallingsand.Items.Inventories
use fallingsand.Items.Inventories.{insert_first_fit, insert_into_range}

pub data SlotAction : Type 0 where
  left_click : ℕ → SlotAction
  right_click : ℕ → SlotAction
  quick_move : ℕ → SlotAction
  trash : SlotAction
  craft : ℕ → Bool → SlotAction
  creative_grab : ItemId → SlotAction

pub record PlayerInventory : Type 0 where
  pub inner : Inventory
  pub cursor : Slot
  pub trash : Slot

-- `Inventory::default`.
unfoldable pub new : PlayerInventory
new = record { inner = Inventories.player; cursor = none; trash = none }

-- `for &(item, count) in recipe.inputs { trial.remove_item(item, count); }`
unfoldable pub remove_inputs : List (ItemId × ℕ) → Inventory → Inventory
remove_inputs [] inv = inv
remove_inputs ((item, count) ∷ rest) inv =
    remove_inputs rest (Inventories.remove_item inv item count).0

unfoldable pub output_stack : Recipe → ItemStack
output_stack r = record { item = r.output.0; count = r.output.1 }

-- The slots that a quick move from a slot goes to: the main ones, or the hotbar.
unfoldable pub destination : ℕ → ℕ × ℕ
destination i = if ltb i hotbar_slots then (hotbar_slots, player_slots) else (0, hotbar_slots)

-- What a round of the craft loop does: it stops, or it leaves a new inventory.
pub data Round : Type 0 where
  stop : Round
  crafted : Inventory → Round
  panic : Round

module _ (stack_limit : ItemId → ℕ) where
  unfoldable pub craft_round : Recipe → Inventory → Round
  craft_round r inv =
      if Inventories.can_craft r inv
      then (elim (insert_first_fit stack_limit (remove_inputs r.inputs inv) (output_stack r)) [
        | none ↦ panic
        | some (trial, rest) ↦ elim rest [ none ↦ crafted trial | some s ↦ stop ]
      ])
      else stop

  unfoldable pub craft_loop : ℕ → Recipe → Bool → Inventory → Option Inventory
  craft_loop zero r all inv = none
  craft_loop (suc fuel) r all inv = elim (craft_round r inv) [
    | stop ↦ some inv
    | panic ↦ none
    | crafted trial ↦ elim all [ true ↦ craft_loop fuel r true trial | false ↦ some trial ]
  ]

  unfoldable pub quick_move_slot : Inventory → ℕ → Option Inventory
  quick_move_slot inv i =
      let (taken, inv') = Inventories.take_slot inv i in
      elim taken [
        | none ↦ some inv
        | some s ↦ elim (insert_into_range stack_limit inv' s (destination i).0 (destination i).1) [
          | none ↦ none
          | some (moved, rest) ↦ some (Inventories.set moved i rest)
        ]
      ]

  module _ (recipes : List Recipe) (item_count : ℕ) where
    unfoldable pub apply_action : ℕ → SlotAction → Bool → PlayerInventory → Option PlayerInventory
    apply_action fuel (left_click i) creative p =
        let (inner, cursor) = Inventories.left_click stack_limit p.inner i p.cursor in
        some (record p { inner = inner; cursor = cursor })
    apply_action fuel (right_click i) creative p =
        let (inner, cursor) = Inventories.right_click stack_limit p.inner i p.cursor in
        some (record p { inner = inner; cursor = cursor })
    apply_action fuel (quick_move i) creative p = elim (quick_move_slot p.inner i) [
      | none ↦ none
      | some inner ↦ some (record p { inner = inner })
    ]
    apply_action fuel trash creative p = elim p.cursor [
      | some s ↦ some (record p { trash = some s; cursor = none })
      | none ↦ elim p.trash [
        | some s ↦ some (record p { cursor = some s; trash = none })
        | none ↦ some p
      ]
    ]
    apply_action fuel (craft i all) creative p = elim (get_elem? recipes i) [
      | none ↦ some p
      | some r ↦ elim (craft_loop fuel r all p.inner) [
        | none ↦ none
        | some inner ↦ some (record p { inner = inner })
      ]
    ]
    apply_action fuel (creative_grab item) creative p =
        if creative && not (item == 0) && ltb item item_count
        then some (record p { cursor = some (record { item = item; count = stack_limit item }) })
        else some p

    -- The loop over the pending actions of one live player.
    unfoldable pub apply_actions :
        ℕ → List SlotAction → Bool → PlayerInventory → Option PlayerInventory
    apply_actions fuel [] creative p = some p
    apply_actions fuel (a ∷ as') creative p = elim (apply_action fuel a creative p) [
      | none ↦ none
      | some p' ↦ apply_actions fuel as' creative p'
    ]
