-- ===== src/Items/Inventories/Outside.antt =====
-- Insertion into a range of slots leaves the other slots as they are.
use fallingsand.Prelude.{
  ℕ, ◌-◌, ◌≤◌, ◌<◌, ◌≡◌, ◌⊎◌, ap, ◌∙◌, inl, inr, arith, some, length, get_elem?, take, drop,
  slice_parts, get_elem?-outside, length-take, length-drop,
}
use mathlib.Core.Path.{subst}
use fallingsand.Items.Types.{ItemId, ItemStack, Slot, Inventory}
use fallingsand.Items.Inventories.Slots.{insert_slots, insert_slice, insert_into_range}
use fallingsand.Items.Inventories.Limits.{insert_slots-length, insert_cases}

module _ (stack_limit : ItemId → ℕ) (inv : Inventory) (s : ItemStack) (lo hi i : ℕ) where
  insert_slice-outside :
      lo ≤ hi
      → hi ≤ length inv.slots
      → (i < lo) ⊎ (hi ≤ i)
      → get_elem? (insert_slice stack_limit inv s lo hi).0.slots i ≡ get_elem? inv.slots i
  unfolding insert_slice
  insert_slice-outside h g out =
      let a = take lo inv.slots in
      let m = take (hi - lo) (drop lo inv.slots) in
      let m' = (insert_slots (stack_limit s.item) s.item m s.count).0 in
      let lengths = insert_slots-length (stack_limit s.item) s.item m s.count in
      let l1 = length-take lo inv.slots in
      let l2 = length-take (hi - lo) (drop lo inv.slots) in
      let l3 = length-drop lo inv.slots in
      get_elem?-outside a m' m (drop hi inv.slots) i lengths (omega arith)
      ∙ ap (λ t. get_elem? t i) (slice_parts inv.slots lo hi h)

  -- An insertion that returns leaves each slot outside its range as it was, where the range ends in
  -- bounds.
  pub insert_into_range-outside :
      {inv' : Inventory} {rest : Slot}
      → hi ≤ length inv.slots
      → (i < lo) ⊎ (hi ≤ i)
      → insert_into_range stack_limit inv s lo hi ≡ some (inv', rest)
      → get_elem? inv'.slots i ≡ get_elem? inv.slots i
  insert_into_range-outside g out e = elim (insert_cases stack_limit inv s lo hi e) [
    | inl (same, _) ↦ rw same
    | inr (_, _, le, same) ↦
        subst (λ (r : Inventory × Slot). get_elem? r.0.slots i ≡ get_elem? inv.slots i) same
          (insert_slice-outside le g out)
  ]
