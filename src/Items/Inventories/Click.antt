-- ===== src/Items/Inventories/Click.antt =====
-- The two clicks of `impl Inventory` (crates/fallingsand_core/src/item.rs), on a slot and the cursor.
use fallingsand.Prelude.{
  ℕ, ◌+◌, ◌-◌, ◌/◌, min, ◌&&◌, ltb, ◌==◌, if◌then◌else◌, none, some, get_elem?,
}
use fallingsand.Prelude as Prelude
use fallingsand.Items.Types.{ItemId, Slot, Inventory}
use fallingsand.Items.Inventories.Slots.{non_empty, stack}

module _ (stack_limit : ItemId → ℕ) where
  -- The arms of the match of `left_click`: the slot and the cursor afterwards.
  unfoldable pub left_slot : Slot → Slot → Slot × Slot
  left_slot none none = (none, none)
  left_slot none (some c) = (some c, none)
  left_slot (some s) none = (none, some s)
  left_slot (some s) (some c) =
      if s.item == c.item
      then (let moved = min (stack_limit s.item - s.count) c.count in
          (
            some (record s { count = s.count + moved }),
            non_empty (some (record c { count = c.count - moved })),
          ))
      else (some c, some s)

  -- The arms of the match of `right_click`. `s.count.div_ceil(2)` is taken from a full hand's slot.
  unfoldable pub right_slot : Slot → Slot → Slot × Slot
  unfolding stack
  right_slot none none = (none, none)
  right_slot (some s) none =
      let taken = (s.count + 1) / 2 in
      (non_empty (some (record s { count = s.count - taken })), some (stack s.item taken))
  right_slot none (some c) =
      (some (stack c.item 1), non_empty (some (record c { count = c.count - 1 })))
  right_slot (some s) (some c) =
      if s.item == c.item && ltb s.count (stack_limit s.item)
      then (
        some (record s { count = s.count + 1 }),
        non_empty (some (record c { count = c.count - 1 })),
      )
      else (some s, some c)

  -- A click out of range does nothing.
  unfoldable pub left_click : Inventory → ℕ → Slot → Inventory × Slot
  left_click inv i cursor = elim (get_elem? inv.slots i) [
    | none ↦ (inv, cursor)
    | some s ↦
        let (s', cursor') = left_slot s cursor in
        (record { slots = Prelude.set inv.slots i s' }, cursor')
  ]

  unfoldable pub right_click : Inventory → ℕ → Slot → Inventory × Slot
  right_click inv i cursor = elim (get_elem? inv.slots i) [
    | none ↦ (inv, cursor)
    | some s ↦
        let (s', cursor') = right_slot s cursor in
        (record { slots = Prelude.set inv.slots i s' }, cursor')
  ]
