-- ===== src/Items/Inventories/Remove.antt =====
-- `remove_item` and the clicks of `impl Inventory` (crates/fallingsand_core/src/item.rs).
use fallingsand.Prelude.{ℕ, ◌-◌, min, Bool, true, ◌==◌, if◌then◌else◌, none, some, List, [], ◌∷◌}
use fallingsand.Items.Types.{ItemId, Slot, Inventory}
use fallingsand.Items.Inventories.Slots.{non_empty}

-- One round of the loop of `remove_item`, with the count still to take.
unfoldable pub take_from : ItemId → Slot → ℕ → Slot × ℕ
take_from item none count = (none, count)
take_from item (some s) count =
    if s.item == item
    then (let taken = min s.count count in
        (non_empty (some (record s { count = s.count - taken })), count - taken))
    else (some s, count)

unfoldable pub take_slots : ItemId → List Slot → ℕ → List Slot × ℕ
take_slots item [] count = ([], count)
take_slots item (s ∷ ss) count =
    let (s', left) = take_from item s count in
    let rest = take_slots item ss left in if left == 0 then (s' ∷ ss, 0) else (s' ∷ rest.0, rest.1)

-- The inventory that it leaves, and whether everything was taken.
unfoldable pub remove_item : Inventory → ItemId → ℕ → Inventory × Bool
unfolding take_slots
remove_item inv item count =
    if count == 0
    then (inv, true)
    else (let (ss, left) = take_slots item inv.slots count in (record { slots = ss }, left == 0))
