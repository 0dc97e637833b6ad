-- ===== src/Items/Inventories/Limits.antt =====
-- Insertion and removal keep all stacks within their limits.
use fallingsand.Prelude.{
  ℕ, ◌-◌, ◌≤◌, ◌<◌, ◌≡◌, ◌≢◌, refl, inl, inr, arith, Bool-cases, ◌==◌, none, some, List, [], ◌∷◌,
  ◌++◌, All, All-append, All-take, All-drop, take, drop, length, slice_parts, length-append, ap,
  ◌⊎◌,
}
use mathlib.Core.Path.{subst}
use fallingsand.Items.Types.{ItemId, ItemStack, Slot, Inventory, IsStack}
use fallingsand.Items.Inventories.Slots.{
  merge_slot, open_slot, pour, insert_slots, insert_slice, insert_into_range,
}
use fallingsand.Items.Inventories.Room.{insert_slots_left}
use fallingsand.Items.Inventories.Remove.{take_from, take_slots, remove_item}

pour-length :
    (round : Slot → ℕ → Slot × ℕ) (ss : List Slot) (n : ℕ) → length (pour round ss n).0 ≡ length ss
unfolding pour
pour-length round [] n = refl
pour-length round (s ∷ ss) n = ground (arith, pour-length round ss (round s n).1)

pub insert_slots-length :
    (limit item : ℕ) (ss : List Slot) (n : ℕ) → length (insert_slots limit item ss n).0 ≡ length ss
unfolding insert_slots
insert_slots-length limit item ss n =
    let (merged, left) = pour (merge_slot limit item) ss n in
    ground (
      arith,
      pour-length (merge_slot limit item) ss n,
      pour-length (open_slot limit item) merged left,
    )

pub insert_slice-length :
    (stack_limit : ItemId → ℕ) (inv : Inventory) (s : ItemStack) (lo hi : ℕ)
    → lo ≤ hi
    → length (insert_slice stack_limit inv s lo hi).0.slots ≡ length inv.slots
unfolding insert_slice
insert_slice-length stack_limit inv s lo hi h =
    let slice = take (hi - lo) (drop lo inv.slots) in
    let poured = (insert_slots (stack_limit s.item) s.item slice s.count).0 in
    omega (
      arith,
      ap length (slice_parts inv.slots lo hi h),
      length-append (take lo inv.slots ++ slice) (drop hi inv.slots),
      length-append (take lo inv.slots) slice,
      length-append (take lo inv.slots ++ poured) (drop hi inv.slots),
      length-append (take lo inv.slots) poured,
      insert_slots-length (stack_limit s.item) s.item slice s.count,
    )

-- An insertion that returns did nothing, for nothing to insert, or worked on a slice in bounds.
pub insert_cases :
    (stack_limit : ItemId → ℕ) (inv : Inventory) (s : ItemStack) (lo hi : ℕ) {inv' : Inventory}
    {rest : Slot}
    → insert_into_range stack_limit inv s lo hi ≡ some (inv', rest)
    → (inv ≡ inv') × (rest ≡ none)
      ⊎ (s.item ≢ 0)
        × (0 < s.count)
        × (lo ≤ hi)
        × (insert_slice stack_limit inv s lo hi ≡ (inv', rest))
unfolding insert_into_range
insert_cases stack_limit inv s lo hi e = ground arith

-- Insertion changes no number of slots.
pub insert_into_range-length :
    (stack_limit : ItemId → ℕ) (inv : Inventory) (s : ItemStack) (lo hi : ℕ) {inv' : Inventory}
    {rest : Slot}
    → insert_into_range stack_limit inv s lo hi ≡ some (inv', rest)
    → length inv'.slots ≡ length inv.slots
insert_into_range-length stack_limit inv s lo hi e = elim (insert_cases stack_limit inv s lo hi e) [
  | inl (same, _) ↦ rw same
  | inr (_, _, le, same) ↦
      subst (λ (r : Inventory × Slot). length r.0.slots ≡ length inv.slots) same
        (insert_slice-length stack_limit inv s lo hi le)
]

take_slots-length :
    (item : ItemId) (ss : List Slot) (n : ℕ) → length (take_slots item ss n).0 ≡ length ss
unfolding take_slots
take_slots-length item [] n = refl
take_slots-length item (s ∷ ss) n = ground (arith, take_slots-length item ss (take_from item s n).1)

pub remove_item-length :
    (inv : Inventory) (item : ItemId) (n : ℕ)
    → length (remove_item inv item n).0.slots ≡ length inv.slots
unfolding remove_item
remove_item-length inv item n = ground (arith, take_slots-length item inv.slots n)

module _ (stack_limit : ItemId → ℕ) where
  -- A round that is given something to move keeps a stack within its limit.
  abbrev KeepsStack : (Slot → ℕ → Slot × ℕ) → Type 0
  KeepsStack round =
      (s : Slot) (n : ℕ) → 0 < n → IsStack stack_limit s → IsStack stack_limit (round s n).0

  abbrev AllStacks : List Slot → Type 0
  AllStacks = All (IsStack stack_limit)

  merge_slot-KeepsStack : (item : ItemId) → KeepsStack (merge_slot (stack_limit item) item)
  unfolding merge_slot
  merge_slot-KeepsStack item none n h v = tt
  merge_slot-KeepsStack item (some s) n h v = ground arith

  open_slot-KeepsStack :
      (item : ItemId) → 0 < stack_limit item → KeepsStack (open_slot (stack_limit item) item)
  unfolding open_slot
  open_slot-KeepsStack item p none n h v = ground arith
  open_slot-KeepsStack item p (some s) n h v = v

  pour-KeepsStack :
      (round : Slot → ℕ → Slot × ℕ)
      → KeepsStack round
      → (ss : List Slot) (n : ℕ) → 0 < n
      → AllStacks ss
      → AllStacks (pour round ss n).0
  unfolding pour
  pour-KeepsStack round keep [] n h v = tt
  pour-KeepsStack round keep (s ∷ ss) n h v = elim (Bool-cases ((round s n).1 == 0)) [
    | inl e ↦ rw e (keep s n h v.0, v.1)
    | inr e ↦ rw e (keep s n h v.0, pour-KeepsStack round keep ss (round s n).1 (ground arith) v.1)
  ]

  insert_slots-KeepsStack :
      (item : ItemId) (ss : List Slot) (n : ℕ)
      → 0 < stack_limit item
      → 0 < n
      → AllStacks ss
      → AllStacks (insert_slots (stack_limit item) item ss n).0
  unfolding insert_slots
  insert_slots-KeepsStack item ss n p h v =
      let limit = stack_limit item in
      let (merged, left) = pour (merge_slot limit item) ss n in
      let vm = pour-KeepsStack (merge_slot limit item) (merge_slot-KeepsStack item) ss n h v in
      elim (Bool-cases (left == 0)) [
        | inl e ↦ rw e vm
        | inr e ↦ rw e (
            pour-KeepsStack (open_slot limit item) (open_slot-KeepsStack item p) merged left
              (ground arith) vm)
      ]

  insert_slice-IsStack :
      (inv : Inventory) (s : ItemStack) (lo hi : ℕ)
      → 0 < stack_limit s.item
      → 0 < s.count
      → AllStacks inv.slots
      → AllStacks (insert_slice stack_limit inv s lo hi).0.slots
  unfolding insert_slice
  insert_slice-IsStack inv s lo hi p h v =
      let slice = take (hi - lo) (drop lo inv.slots) in
      let poured = (insert_slots (stack_limit s.item) s.item slice s.count).0 in
      let P = IsStack stack_limit in
      let vslice = All-take P (hi - lo) (drop lo inv.slots) (All-drop P lo inv.slots v) in
      All-append P (take lo inv.slots ++ poured) (drop hi inv.slots)
        (All-append P (take lo inv.slots) poured (All-take P lo inv.slots v)
          (insert_slots-KeepsStack s.item slice s.count p h vslice))
        (All-drop P hi inv.slots v)

  insert_slice-rest :
      (inv : Inventory) (s : ItemStack) (lo hi : ℕ)
      → IsStack stack_limit (some s)
      → IsStack stack_limit (insert_slice stack_limit inv s lo hi).1
  unfolding insert_slice
  insert_slice-rest inv s lo hi h =
      ground
        (arith, insert_slots_left stack_limit s.item (take (hi - lo) (drop lo inv.slots)) s.count)

  -- Where the limit of the inserted item is positive, an insertion that returns leaves every stack
  -- within its limit, if every stack was before.
  pub insert_into_range-IsStack :
      (inv : Inventory) (s : ItemStack) (lo hi : ℕ) {inv' : Inventory} {rest : Slot}
      → (s.item ≢ 0 → 0 < stack_limit s.item)
      → insert_into_range stack_limit inv s lo hi ≡ some (inv', rest)
      → AllStacks inv.slots
      → AllStacks inv'.slots
  insert_into_range-IsStack inv s lo hi {inv'} {rest} p e v =
      elim (insert_cases stack_limit inv s lo hi e) [
        | inl (same, _) ↦ rw (← same) v
        | inr (real, some_left, _, same) ↦
            subst (λ (r : Inventory × Slot). AllStacks r.0.slots) same
              (insert_slice-IsStack inv s lo hi (p real) some_left v)
      ]

  -- So is what it leaves over of a stack within them.
  pub insert_into_range-rest :
      (inv : Inventory) (s : ItemStack) (lo hi : ℕ) {inv' : Inventory} {rest : Slot}
      → IsStack stack_limit (some s)
      → insert_into_range stack_limit inv s lo hi ≡ some (inv', rest)
      → IsStack stack_limit rest
  insert_into_range-rest inv s lo hi {inv'} {rest} h e =
      elim (insert_cases stack_limit inv s lo hi e) [
        | inl (_, same) ↦ rw same tt
        | inr (_, _, _, same) ↦
            subst (λ (r : Inventory × Slot). IsStack stack_limit r.1) same
              (insert_slice-rest inv s lo hi h)
      ]

  take_from-IsStack :
      (item : ItemId) (s : Slot) (n : ℕ)
      → IsStack stack_limit s
      → IsStack stack_limit (take_from item s n).0
  unfolding take_from
  take_from-IsStack item none n v = tt
  take_from-IsStack item (some s) n v = ground arith

  take_slots-IsStack :
      (item : ItemId) (ss : List Slot) (n : ℕ) → AllStacks ss → AllStacks (take_slots item ss n).0
  unfolding take_slots
  take_slots-IsStack item [] n v = tt
  take_slots-IsStack item (s ∷ ss) n v =
      let now = take_from-IsStack item s n v.0 in
      let rest = take_slots-IsStack item ss (take_from item s n).1 v.1 in
      elim (Bool-cases ((take_from item s n).1 == 0)) [
        | inl e ↦ rw e (now, v.1)
        | inr e ↦ rw e (now, rest)
      ]

  -- So is what a removal leaves.
  pub remove_item-IsStack :
      (inv : Inventory) (item : ItemId) (n : ℕ)
      → AllStacks inv.slots
      → AllStacks (remove_item inv item n).0.slots
  unfolding remove_item
  remove_item-IsStack inv item n v = elim (Bool-cases (n == 0)) [
    | inl e ↦ rw e v
    | inr e ↦ rw e (take_slots-IsStack item inv.slots n v)
  ]
