-- ===== src/Items/Inventories/Insert.antt =====
-- Insertion neither makes nor loses items.
use fallingsand.Prelude.{
  ℕ, ◌+◌, ◌-◌, ◌≤◌, ◌≡◌, ◌≢◌, refl, inl, inr, ap, arith, Bool-cases, le→leb, ◌==◌, ◌||◌,
  if◌then◌else◌, none, some, List, [], ◌∷◌, ◌++◌, length, take, drop, slice_parts,
}
use fallingsand.Items.Types.{ItemId, ItemStack, Slot, Inventory}
use fallingsand.Items.Inventories.Slots.{
  count_slot, count_slots, count_item, merge_slot, open_slot, pour, insert_slots, leftover,
  insert_slice, insert_into_range,
}

-- `n` items in hand, seen as items `k`.
abbrev pub held : ItemId → ItemId → ℕ → ℕ
held k item n = if item == k then n else 0

-- A round over a slot keeps the items in the slot and in hand together.
abbrev Keeps : (Slot → ℕ → Slot × ℕ) → ItemId → ItemId → Type 0
Keeps round k item =
    (s : Slot) (n : ℕ)
    → count_slot k (round s n).0 + held k item (round s n).1 ≡ count_slot k s + held k item n

merge_slot-Keeps : (limit k item : ℕ) → Keeps (merge_slot limit item) k item
unfolding merge_slot
merge_slot-Keeps limit k item none n = refl
merge_slot-Keeps limit k item (some s) n = ground arith

open_slot-Keeps : (limit k item : ℕ) → Keeps (open_slot limit item) k item
unfolding open_slot
open_slot-Keeps limit k item none n = ground arith
open_slot-Keeps limit k item (some s) n = refl

pour-Keeps :
    (round : Slot → ℕ → Slot × ℕ) (k item : ItemId)
    → Keeps round k item
    → (ss : List Slot) (n : ℕ)
    → count_slots k (pour round ss n).0 + held k item (pour round ss n).1
      ≡ count_slots k ss + held k item n
unfolding pour
pour-Keeps round k item keeps [] n = refl
pour-Keeps round k item keeps (s ∷ ss) n =
    ground (arith, keeps s n, pour-Keeps round k item keeps ss (round s n).1)

insert_slots-Keeps :
    (limit k item : ℕ) (ss : List Slot) (n : ℕ)
    → count_slots k (insert_slots limit item ss n).0 + held k item (insert_slots limit item ss n).1
      ≡ count_slots k ss + held k item n
unfolding insert_slots
insert_slots-Keeps limit k item ss n =
    let (merged, left) = pour (merge_slot limit item) ss n in
    ground (
      arith,
      pour-Keeps (merge_slot limit item) k item (merge_slot-Keeps limit k item) ss n,
      pour-Keeps (open_slot limit item) k item (open_slot-Keeps limit k item) merged left,
    )

count_slots-append :
    (k : ItemId) (xs ys : List Slot)
    → count_slots k (xs ++ ys) ≡ count_slots k xs + count_slots k ys
count_slots-append k [] ys = omega arith
count_slots-append k (x ∷ xs) ys = omega (arith, count_slots-append k xs ys)

count_slots-slice :
    (k : ItemId) (ss : List Slot) (lo hi : ℕ)
    → lo ≤ hi
    → count_slots k (take lo ss)
        + count_slots k (take (hi - lo) (drop lo ss))
        + count_slots k (drop hi ss)
      ≡ count_slots k ss
count_slots-slice k ss lo hi h = omega (
  arith,
  ap (count_slots k) (slice_parts ss lo hi h),
  count_slots-append k (take lo ss ++ take (hi - lo) (drop lo ss)) (drop hi ss),
  count_slots-append k (take lo ss) (take (hi - lo) (drop lo ss)),
)

count_slot-leftover : (k item n : ℕ) → count_slot k (leftover item n) ≡ held k item n
count_slot-leftover k item n = ground arith

module _ (stack_limit : ItemId → ℕ) where
  insert_slice-Keeps :
      (inv : Inventory) (s : ItemStack) (lo hi : ℕ) (k : ItemId)
      → lo ≤ hi
      → let r = insert_slice stack_limit inv s lo hi in
        count_item r.0 k + count_slot k r.1 ≡ count_item inv k + held k s.item s.count
  unfolding insert_slice count_item
  insert_slice-Keeps inv s lo hi k h =
      let slice = take (hi - lo) (drop lo inv.slots) in
      let (poured, left) = insert_slots (stack_limit s.item) s.item slice s.count in
      omega (
        arith,
        count_slot-leftover k s.item left,
        insert_slots-Keeps (stack_limit s.item) k s.item slice s.count,
        count_slots-slice k inv.slots lo hi h,
        count_slots-append k (take lo inv.slots ++ poured) (drop hi inv.slots),
        count_slots-append k (take lo inv.slots) poured,
      )

  -- An insertion of a real item that returns keeps the number of every item in the slots, what is
  -- left over included.
  pub insert_into_range-Keeps :
      (inv : Inventory) (s : ItemStack) (lo hi : ℕ) {inv' : Inventory} {rest : Slot}
      → s.item ≢ 0
      → insert_into_range stack_limit inv s lo hi ≡ some (inv', rest)
      → (k : ItemId)
      → count_item inv' k + count_slot k rest ≡ count_item inv k + count_slot k (some s)
  unfolding insert_into_range
  insert_into_range-Keeps inv s lo hi {inv'} {rest} real e k =
      ground (arith, insert_slice-Keeps inv s lo hi k)

  -- An insertion into a range in bounds does not panic.
  pub insert_into_range_total :
      (inv : Inventory) (s : ItemStack) (lo hi : ℕ)
      → lo ≤ hi
      → hi ≤ length inv.slots
      → (r : Inventory × Slot) × (insert_into_range stack_limit inv s lo hi ≡ some r)
  unfolding insert_into_range
  insert_into_range_total inv s lo hi h g = elim (Bool-cases (s.item == 0 || s.count == 0)) [
    | inl e ↦ ((inv, none), rw e)
    | inr e ↦ (insert_slice stack_limit inv s lo hi, rw (e, le→leb _ _ h, le→leb _ _ g))
  ]
