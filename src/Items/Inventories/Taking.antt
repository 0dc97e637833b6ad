-- ===== src/Items/Inventories/Taking.antt =====
-- What removal takes, what clicks move, and that every operation keeps stacks within their limits.
use fallingsand.Prelude.{
  ℕ, ◌+◌, ◌-◌, ◌≤◌, ◌<◌, ◌≡◌, ◌≢◌, refl, inl, inr, arith, true, false, Option-cases, leb, ◌==◌,
  if◌then◌else◌, none, some, List, [], ◌∷◌, ◌++◌, get_elem?, All, All-set, All-get_elem?, zero, suc,
  length, length-set,
}
use fallingsand.Prelude as Prelude
use fallingsand.Items.Types.{ItemId, Slot, Inventory, IsStack}
use fallingsand.Items.Inventories.Slots.{count_slot, count_slots, count_item}
use fallingsand.Items.Inventories.Remove.{take_from, take_slots, remove_item}
use fallingsand.Items.Inventories.Click.{left_slot, right_slot, left_click, right_click}

take_from_count :
    (item k : ItemId) (s : Slot) (n : ℕ)
    → (count_slot k (take_from item s n).0
        ≡ (if item == k then count_slot k s - n else count_slot k s))
      × ((take_from item s n).1 ≡ n - count_slot item s)
unfolding take_from
take_from_count item k none n = ground arith
take_from_count item k (some s) n = ground arith

take_slots_count :
    (item k : ItemId) (ss : List Slot) (n : ℕ)
    → (count_slots k (take_slots item ss n).0
        ≡ (if item == k then count_slots k ss - n else count_slots k ss))
      × ((take_slots item ss n).1 ≡ n - count_slots item ss)
unfolding take_slots
take_slots_count item k [] n = ground arith
take_slots_count item k (s ∷ ss) n =
    ground (arith, take_from_count item k s n, take_slots_count item k ss (take_from item s n).1)

-- Removal succeeds exactly when the inventory holds enough; it takes that many of the item, or all
-- of them where there are too few, and nothing else.
pub remove_item_count :
    (inv : Inventory) (item : ItemId) (n : ℕ)
    → ((remove_item inv item n).1 ≡ leb n (count_item inv item))
      × ((k : ItemId)
          → count_item (remove_item inv item n).0 k
            ≡ (if item == k then count_item inv k - n else count_item inv k))
unfolding remove_item count_item
remove_item_count inv item n = (
  ground (arith, take_slots_count item item inv.slots n),
  λ k. ground (arith, take_slots_count item k inv.slots n),
)

pub count_slots-set :
    (k : ItemId) (ss : List Slot) (i : ℕ) (s' : Slot) {s : Slot}
    → get_elem? ss i ≡ some s
    → count_slots k (Prelude.set ss i s') + count_slot k s ≡ count_slots k ss + count_slot k s'
count_slots-set k [] i s' e = cc
count_slots-set k (x ∷ ss) zero s' {s} e = let same : x ≡ s = cc in rw same (omega arith)
count_slots-set k (x ∷ ss) (suc i) s' e = omega (arith, count_slots-set k ss i s' e)

module _ (stack_limit : ItemId → ℕ) where
  left_slot_count :
      (k : ItemId) (s c : Slot)
      → let r = left_slot stack_limit s c in
        count_slot k r.0 + count_slot k r.1 ≡ count_slot k s + count_slot k c
  unfolding left_slot
  left_slot_count k none none = refl
  left_slot_count k none (some c) = omega arith
  left_slot_count k (some s) none = omega arith
  left_slot_count k (some s) (some c) = ground arith

  right_slot_count :
      (k : ItemId) (s c : Slot)
      → IsStack stack_limit c
      → let r = right_slot stack_limit s c in
        count_slot k r.0 + count_slot k r.1 ≡ count_slot k s + count_slot k c
  unfolding right_slot
  right_slot_count k none none h = refl
  right_slot_count k none (some c) h = ground arith
  right_slot_count k (some s) none h = ground arith
  right_slot_count k (some s) (some c) h = ground arith

  left_slot-IsStack :
      (s c : Slot)
      → IsStack stack_limit s
      → IsStack stack_limit c
      → let r = left_slot stack_limit s c in IsStack stack_limit r.0 × IsStack stack_limit r.1
  unfolding left_slot
  left_slot-IsStack none none hs hc = (tt, tt)
  left_slot-IsStack none (some c) hs hc = (hc, tt)
  left_slot-IsStack (some s) none hs hc = (tt, hs)
  left_slot-IsStack (some s) (some c) hs hc = ground arith

  right_slot-IsStack :
      (s c : Slot)
      → IsStack stack_limit s
      → IsStack stack_limit c
      → let r = right_slot stack_limit s c in IsStack stack_limit r.0 × IsStack stack_limit r.1
  unfolding right_slot
  right_slot-IsStack none none hs hc = (tt, tt)
  right_slot-IsStack none (some c) hs hc = ground arith
  right_slot-IsStack (some s) none hs hc = ground arith
  right_slot-IsStack (some s) (some c) hs hc = ground arith

  -- The stacks of an inventory and the cursor are within their limits.
  abbrev pub IsValid : Inventory → Slot → Type 0
  IsValid inv cursor = All (IsStack stack_limit) inv.slots × IsStack stack_limit cursor

  -- With stacks within their limits, a left click on any slot, in bounds or not, moves items
  -- between the slot and the cursor: it makes or loses none, and keeps all stacks within their
  -- limits.
  pub left_click_moves :
      (inv : Inventory) (i : ℕ) (cursor : Slot)
      → IsValid inv cursor
      → let (inv', cursor') = left_click stack_limit inv i cursor in
        IsValid inv' cursor'
        × ((k : ItemId)
            → count_item inv' k + count_slot k cursor' ≡ count_item inv k + count_slot k cursor)
  unfolding left_click count_item
  left_click_moves inv i cursor (vs, vc) = elim (Option-cases (get_elem? inv.slots i)) [
    | inl e ↦ rw (e, left_click) ((vs, vc), λ k. refl)
    | inr (s, e) ↦
        let (s', c') = left_slot stack_limit s cursor in
        let ok =
          left_slot-IsStack s cursor (All-get_elem? (IsStack stack_limit) inv.slots i vs e) vc in
        rw (e, left_click)
          (
            (All-set (IsStack stack_limit) inv.slots i s' vs ok.0, ok.1),
            λ k. omega (arith, count_slots-set k inv.slots i s' e, left_slot_count k s cursor),
          )
  ]

  -- With stacks within their limits, a right click on any slot, in bounds or not, moves items
  -- between the slot and the cursor: it makes or loses none, and keeps all stacks within their
  -- limits.
  pub right_click_moves :
      (inv : Inventory) (i : ℕ) (cursor : Slot)
      → IsValid inv cursor
      → let (inv', cursor') = right_click stack_limit inv i cursor in
        IsValid inv' cursor'
        × ((k : ItemId)
            → count_item inv' k + count_slot k cursor' ≡ count_item inv k + count_slot k cursor)
  unfolding right_click count_item
  right_click_moves inv i cursor (vs, vc) = elim (Option-cases (get_elem? inv.slots i)) [
    | inl e ↦ rw (e, right_click) ((vs, vc), λ k. refl)
    | inr (s, e) ↦
        let (s', c') = right_slot stack_limit s cursor in
        let ok =
          right_slot-IsStack s cursor (All-get_elem? (IsStack stack_limit) inv.slots i vs e) vc in
        rw (e, right_click)
          (
            (All-set (IsStack stack_limit) inv.slots i s' vs ok.0, ok.1),
            λ k. omega (arith, count_slots-set k inv.slots i s' e, right_slot_count k s cursor vc),
          )
  ]

  pub left_click-length :
      (inv : Inventory) (i : ℕ) (cursor : Slot)
      → length (left_click stack_limit inv i cursor).0.slots ≡ length inv.slots
  unfolding left_click
  left_click-length inv i cursor = elim (Option-cases (get_elem? inv.slots i)) [
    | inl e ↦ rw (e, left_click)
    | inr (s, e) ↦ rw (e, left_click) (length-set inv.slots i (left_slot stack_limit s cursor).0)
  ]

  pub right_click-length :
      (inv : Inventory) (i : ℕ) (cursor : Slot)
      → length (right_click stack_limit inv i cursor).0.slots ≡ length inv.slots
  unfolding right_click
  right_click-length inv i cursor = elim (Option-cases (get_elem? inv.slots i)) [
    | inl e ↦ rw (e, right_click)
    | inr (s, e) ↦ rw (e, right_click) (length-set inv.slots i (right_slot stack_limit s cursor).0)
  ]
