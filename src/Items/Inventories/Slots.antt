-- ===== src/Items/Inventories/Slots.antt =====
-- Reading and writing slots (crates/fallingsand_core/src/item.rs). The loops over slots are
-- recursions on the list; the methods return the inventory that they leave.
use fallingsand.Prelude.{
  ℕ, ◌+◌, ◌-◌, ◌*◌, ◌/◌, ◌≤◌, min, Bool, true, false, ◌&&◌, ◌||◌, ltb, leb, ◌==◌, if◌then◌else◌,
  Option, none, some, ◌≡◌, List, [], ◌∷◌, ◌++◌, length, get_elem?, take, drop, replicate,
}
use fallingsand.Prelude as Prelude
use fallingsand.Items.Types.{ItemId, ItemStack, Recipe, Slot, Inventory, player_slots}

unfoldable pub stack : ItemId → ℕ → ItemStack
stack item count = record { item = item; count = count }

unfoldable pub with_capacity : ℕ → Inventory
with_capacity n = record { slots = replicate n none }

unfoldable pub player : Inventory
player = record { slots = replicate player_slots none }

-- Out of range reads as an empty slot.
unfoldable pub get : Inventory → ℕ → Slot
get inv i = elim (get_elem? inv.slots i) [ none ↦ none | some s ↦ s ]

-- `stack.filter(|s| s.count > 0)`.
abbrev pub non_empty : Slot → Slot
non_empty none = none
non_empty (some s) = if s.count == 0 then none else some s

unfoldable pub set : Inventory → ℕ → Slot → Inventory
set inv i s = record { slots = Prelude.set inv.slots i (non_empty s) }

-- The slot's stack, and the inventory with the slot emptied.
unfoldable pub take_slot : Inventory → ℕ → Slot × Inventory
take_slot inv i = (get inv i, record { slots = Prelude.set inv.slots i none })

abbrev pub count_slot : ItemId → Slot → ℕ
count_slot item none = 0
count_slot item (some s) = if s.item == item then s.count else 0

abbrev pub count_slots : ItemId → List Slot → ℕ
count_slots item [] = 0
count_slots item (s ∷ ss) = count_slot item s + count_slots item ss

unfoldable pub count_item : Inventory → ItemId → ℕ
count_item inv item = count_slots item inv.slots

abbrev pub has_all : Inventory → List (ItemId × ℕ) → Bool
has_all inv [] = true
has_all inv ((item, count) ∷ rest) = leb count (count_slots item inv.slots) && has_all inv rest

unfoldable pub can_craft : Recipe → Inventory → Bool
can_craft r inv = has_all inv r.inputs

-- One round of the first loop of `insert_into_range`: merge into a stack of the item.
unfoldable pub merge_slot : ℕ → ItemId → Slot → ℕ → Slot × ℕ
merge_slot limit item none count = (none, count)
merge_slot limit item (some s) count =
    if s.item == item && ltb s.count limit
    then (let moved = min (limit - s.count) count in
        (some (record s { count = s.count + moved }), count - moved))
    else (some s, count)

-- One round of the second loop: open a new stack in an empty slot.
unfoldable pub open_slot : ℕ → ItemId → Slot → ℕ → Slot × ℕ
unfolding stack
open_slot limit item (some s) count = (some s, count)
open_slot limit item none count =
    let moved = min limit count in (some (stack item moved), count - moved)

-- A loop over slots that returns once nothing is left to move.
unfoldable pub pour : (Slot → ℕ → Slot × ℕ) → List Slot → ℕ → List Slot × ℕ
pour round [] count = ([], count)
pour round (s ∷ ss) count =
    let (s', left) = round s count in
    let rest = pour round ss left in if left == 0 then (s' ∷ ss, 0) else (s' ∷ rest.0, rest.1)

-- Both loops over a slice.
unfoldable pub insert_slots : ℕ → ItemId → List Slot → ℕ → List Slot × ℕ
unfolding pour
insert_slots limit item ss count =
    let (merged, left) = pour (merge_slot limit item) ss count in
    if left == 0 then (merged, 0) else pour (open_slot limit item) merged left

-- What is left over, as a stack.
abbrev pub leftover : ItemId → ℕ → Slot
leftover item count = if count == 0 then none else some (record { item = item; count = count })

module _ (stack_limit : ItemId → ℕ) where
  -- The two loops over `slots[lo..hi]`, where that range is in bounds.
  unfoldable pub insert_slice : Inventory → ItemStack → ℕ → ℕ → Inventory × Slot
  insert_slice inv s lo hi =
      let (poured, left) =
        insert_slots (stack_limit s.item) s.item (take (hi - lo) (drop lo inv.slots)) s.count in
      (record { slots = take lo inv.slots ++ poured ++ drop hi inv.slots }, leftover s.item left)

  -- The slice panics where the range is out of bounds: `none`.
  unfoldable pub insert_into_range : Inventory → ItemStack → ℕ → ℕ → Option (Inventory × Slot)
  insert_into_range inv s lo hi =
      if s.item == 0 || s.count == 0
      then some (inv, none)
      else (if leb lo hi && leb hi (length inv.slots)
          then some (insert_slice inv s lo hi)
          else none)

  unfoldable pub insert_first_fit : Inventory → ItemStack → Option (Inventory × Slot)
  insert_first_fit inv s = insert_into_range inv s 0 (length inv.slots)

  abbrev pub capacity_for : ItemId → Slot → ℕ
  capacity_for item none = stack_limit item
  capacity_for item (some s) = if s.item == item then stack_limit item - s.count else 0

  -- The loop of `can_insert`, from the count that remains.
  unfoldable pub can_insert_from : ItemId → List Slot → ℕ → Bool
  can_insert_from item [] remaining = false
  can_insert_from item (s ∷ ss) remaining =
      let remaining' = remaining - capacity_for item s in
      let rest = can_insert_from item ss remaining' in if remaining' == 0 then true else rest

  unfoldable pub can_insert : Inventory → ItemStack → Bool
  unfolding can_insert_from
  can_insert inv s =
      if s.item == 0 || s.count == 0 then true else can_insert_from s.item inv.slots s.count

pub get-eq : (inv : Inventory) (i : ℕ) {s : Slot} → get_elem? inv.slots i ≡ some s → get inv i ≡ s
unfolding get
get-eq inv i e = rw (e, get)

pub get-eq_none : (inv : Inventory) (i : ℕ) → get_elem? inv.slots i ≡ none → get inv i ≡ none
unfolding get
get-eq_none inv i e = rw (e, get)
