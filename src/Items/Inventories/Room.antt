-- ===== src/Items/Inventories/Room.antt =====
-- `can_insert` foresees what an insertion leaves over.
use fallingsand.Prelude.{
  take_all, le→leb, ℕ, ◌+◌, ◌-◌, ◌<◌, ◌≡◌, ◌↔◌, refl, inl, inr, arith, true, Bool-cases, ◌==◌, ◌||◌,
  if◌then◌else◌, none, some, List, [], ◌∷◌, length,
}
use native.Mathlib.Nat.{le_refl}
use fallingsand.Items.Types.{ItemId, ItemStack, Slot, Inventory}
use fallingsand.Items.Inventories.Slots.{
  merge_slot, open_slot, pour, insert_slots, leftover, insert_slice, insert_into_range,
  insert_first_fit, capacity_for, can_insert_from, can_insert,
}

abbrev pub total : (Slot → ℕ) → List Slot → ℕ
total room [] = 0
total room (s ∷ ss) = room s + total room ss

-- The room for an item beside its own kind, and in empty slots.
abbrev same_room : ℕ → ItemId → Slot → ℕ
same_room limit item none = 0
same_room limit item (some s) = if s.item == item then limit - s.count else 0

abbrev free_room : ℕ → Slot → ℕ
free_room limit none = limit
free_room limit (some s) = 0

-- What `pour` leaves in hand, where each round moves what the slot has room for.
pour_left :
    (round : Slot → ℕ → Slot × ℕ) (room : Slot → ℕ)
    → ((s : Slot) (n : ℕ) → (round s n).1 ≡ n - room s)
    → (ss : List Slot) (n : ℕ) → (pour round ss n).1 ≡ n - total room ss
unfolding pour
pour_left round room law [] n = omega arith
pour_left round room law (s ∷ ss) n =
    ground (arith, law s n, pour_left round room law ss (round s n).1)

merge_slot_left :
    (limit item : ℕ) (s : Slot) (n : ℕ) → (merge_slot limit item s n).1 ≡ n - same_room limit item s
unfolding merge_slot
merge_slot_left limit item none n = omega arith
merge_slot_left limit item (some s) n = ground arith

open_slot_left :
    (limit item : ℕ) (s : Slot) (n : ℕ) → (open_slot limit item s n).1 ≡ n - free_room limit s
unfolding open_slot
open_slot_left limit item none n = ground arith
open_slot_left limit item (some s) n = ground arith

merge_slot-free :
    (limit item : ℕ) (s : Slot) (n : ℕ)
    → free_room limit (merge_slot limit item s n).0 ≡ free_room limit s
unfolding merge_slot
merge_slot-free limit item none n = refl
merge_slot-free limit item (some s) n = ground arith

-- Merging opens no slot and fills none.
merge-free :
    (limit item : ℕ) (ss : List Slot) (n : ℕ)
    → total (free_room limit) (pour (merge_slot limit item) ss n).0 ≡ total (free_room limit) ss
unfolding pour
merge-free limit item [] n = refl
merge-free limit item (s ∷ ss) n =
    ground (
      arith,
      merge_slot-free limit item s n,
      merge-free limit item ss (merge_slot limit item s n).1,
    )

module _ (stack_limit : ItemId → ℕ) where
  capacity_split :
      (item : ItemId) (ss : List Slot)
      → total (capacity_for stack_limit item) ss
        ≡ total (same_room (stack_limit item) item) ss + total (free_room (stack_limit item)) ss
  capacity_split item [] = refl
  capacity_split item (none ∷ ss) = omega (arith, capacity_split item ss)
  capacity_split item (some s ∷ ss) = ground (arith, capacity_split item ss)

  pub insert_slots_left :
      (item : ItemId) (ss : List Slot) (n : ℕ)
      → (insert_slots (stack_limit item) item ss n).1 ≡ n - total (capacity_for stack_limit item) ss
  unfolding insert_slots
  insert_slots_left item ss n =
      let limit = stack_limit item in
      let (merged, left) = pour (merge_slot limit item) ss n in
      ground (
        arith,
        capacity_split item ss,
        pour_left (merge_slot limit item) (same_room limit item) (merge_slot_left limit item) ss n,
        pour_left (open_slot limit item) (free_room limit) (open_slot_left limit item) merged left,
        merge-free limit item ss n,
      )

  can_insert_from_lem :
      (item : ItemId) (ss : List Slot) (n : ℕ)
      → 0 < n
      → can_insert_from stack_limit item ss n ≡ (n - total (capacity_for stack_limit item) ss == 0)
  unfolding can_insert_from
  can_insert_from_lem item [] n h = ground arith
  can_insert_from_lem item (s ∷ ss) n h =
      ground (arith, can_insert_from_lem item ss (n - capacity_for stack_limit item s))

  insert_slice_rest :
      (inv : Inventory) (s : ItemStack)
      → (insert_slice stack_limit inv s 0 (length inv.slots)).1
        ≡ leftover s.item (s.count - total (capacity_for stack_limit s.item) inv.slots)
  unfolding insert_slice
  insert_slice_rest inv s =
      let e : length inv.slots - 0 ≡ length inv.slots = omega arith in
      rw (e, take_all, insert_slots_left s.item inv.slots s.count)

  -- An insertion into the whole inventory always returns, and `can_insert` holds exactly when it
  -- leaves nothing over.
  pub can_insert_iff :
      (inv : Inventory) (s : ItemStack)
      → (inv' : Inventory) × (rest : Slot) × (insert_first_fit stack_limit inv s
          ≡ some (inv', rest))
        × ((can_insert stack_limit inv s ≡ true) ↔ (rest ≡ none))
  unfolding insert_first_fit insert_into_range can_insert
  can_insert_iff inv s = elim (Bool-cases (s.item == 0 || s.count == 0)) [
    | inl e ↦ (inv, none, rw e, (λ _. refl, λ _. rw e))
    | inr e ↦
        let (inv', rest) = insert_slice stack_limit inv s 0 (length inv.slots) in
        (
          inv',
          rest,
          rw (
            e,
            le→leb 0 (length inv.slots) (omega arith),
            le→leb _ _ (le_refl (length inv.slots)),
          ),
          ground (arith, insert_slice_rest inv s, can_insert_from_lem s.item inv.slots s.count),
        )
  ]
