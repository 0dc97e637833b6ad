-- ===== src/Items/Inventories/Tests.antt =====
-- A bag of three slots.
use fallingsand.Prelude.{
  ℕ, ◌+◌, ◌-◌, ◌≡◌, ◌↔◌, refl, arith, true, ◌==◌, leb, if◌then◌else◌, none, some, [], ◌∷◌, All,
}
use fallingsand.Items.Types.{ItemId, ItemStack, Slot, Inventory, IsStack}
use fallingsand.Items.Inventories.Slots.{
  count_item, count_slot, merge_slot, open_slot, pour, insert_slots, insert_slice,
  insert_into_range, insert_first_fit, can_insert,
}
use fallingsand.Items.Inventories.Remove.{remove_item}
use fallingsand.Items.Inventories.Insert.{insert_into_range-Keeps}
use fallingsand.Items.Inventories.Room.{can_insert_iff}
use fallingsand.Items.Inventories.Taking.{remove_item_count}

abbrev limits : ItemId → ℕ
limits k = if k == 0 then 0 else 99

abbrev bag : Inventory
bag = record {
  slots =
      some (record { item = 1; count = 98 }) ∷ none ∷ some (record { item = 2; count = 5 }) ∷ [];
}

abbrev five : ItemStack
five = record { item = 1; count = 5 }

-- The bag after the five went into its first two slots.
abbrev filled : Inventory
filled = record {
  slots =
      some (record { item = 1; count = 99 })
      ∷ some (record { item = 1; count = 4 })
      ∷ some (record { item = 2; count = 5 })
      ∷ [];
}

insert_run : insert_into_range limits bag five 0 2 ≡ some (filled, none)
unfolding insert_into_range insert_slice insert_slots pour merge_slot open_slot
insert_run = refl

bag_stacks : All (IsStack limits) bag.slots
bag_stacks = ((omega arith, omega arith), (tt, ((omega arith, omega arith), tt)))

insert_into_range-Keeps_example : count_item filled 1 + count_slot 1 none ≡ count_item bag 1 + 5
unfolding count_item
insert_into_range-Keeps_example =
    insert_into_range-Keeps limits bag five 0 2 {inv' = filled} {rest = none} (omega arith)
      insert_run 1

can_insert_iff_example :
    (inv' : Inventory) × (rest : Slot) × (insert_first_fit limits bag five ≡ some (inv', rest))
    × ((can_insert limits bag five ≡ true) ↔ (rest ≡ none))
can_insert_iff_example = can_insert_iff limits bag five

remove_item_count_example :
    ((remove_item bag 1 100).1 ≡ leb 100 (count_item bag 1))
    × ((k : ItemId)
        → count_item (remove_item bag 1 100).0 k
          ≡ (if 1 == k then count_item bag k - 100 else count_item bag k))
remove_item_count_example = remove_item_count bag 1 100
