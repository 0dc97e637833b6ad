-- ===== src/Actions/QuickMove.antt =====
-- A quick move returns, moves items and makes or loses none, and keeps stacks within their limits.
use fallingsand.Prelude.{
  ℕ, zero, suc, ◌+◌, ◌≤◌, ◌<◌, ◌≡◌, ◌≢◌, ◌⊎◌, refl, sym, ◌∙◌, ap, inl, inr, arith, Bool, true,
  false, Bool-cases, Option-cases, ltb, ltb→ge, ltb→lt, not, ◌&&◌, ◌==◌, if◌then◌else◌, Option,
  none, some, List, [], ◌∷◌, length, get_elem?, All, All-set, All-get_elem?, length-set,
  get_elem?-set_self, get_elem?-some-lt,
}
use fallingsand.Prelude as Prelude
use fallingsand.Items.{ItemId, ItemStack, Slot, Inventory, IsStack}
use fallingsand.Items.Inventories
use fallingsand.Items.Inventories.{count_item, count_slot, non_empty, insert_into_range}
use fallingsand.Items.Inventories.Insert.{insert_into_range-Keeps, insert_into_range_total}
use fallingsand.Items.Inventories.Outside.{insert_into_range-outside}
use fallingsand.Items.Inventories.Limits.{
  insert_into_range-IsStack, insert_into_range-rest, insert_into_range-length,
}
use fallingsand.Items.Inventories.Taking.{count_slots-set}
use fallingsand.Actions.Apply.{quick_move_slot, destination}

count-non_empty : (k : ItemId) (s : Slot) → count_slot k (non_empty s) ≡ count_slot k s
count-non_empty k none = refl
count-non_empty k (some s) = ground arith

non_empty-IsStack :
    (stack_limit : ItemId → ℕ) (s : Slot)
    → IsStack stack_limit s
    → IsStack stack_limit (non_empty s)
non_empty-IsStack stack_limit none v = v
non_empty-IsStack stack_limit (some s) v = ground arith

module _ (stack_limit : ItemId → ℕ) where
  abbrev pub AllStacks : Inventory → Type 0
  AllStacks inv = All (IsStack stack_limit) inv.slots

  -- The parts of a quick move that did something.
  pub record Moved (inv : Inventory) (i : ℕ) (inv' : Inventory) : Type 0 where
    pub s : ItemStack
    pub moved : Inventory
    pub rest : Slot
    pub found : get_elem? inv.slots i ≡ some (some s)
    pub inserted :
        insert_into_range stack_limit
          (record { slots = Prelude.set inv.slots i none })
          s
          (destination i).0
          (destination i).1
        ≡ some (moved, rest)
    pub put_back : Inventories.set moved i rest ≡ inv'

  quick_move-Moved :
      (inv : Inventory) (i : ℕ) {inv' : Inventory}
      → Moved inv i inv'
      → quick_move_slot stack_limit inv i ≡ some inv'
  unfolding quick_move_slot Inventories.take_slot
  quick_move-Moved inv i m =
      rw (Inventories.get-eq inv i m.found, quick_move_slot, m.inserted, m.put_back)

  destination_fits :
      (i : ℕ)
      → ((destination i).0 ≤ (destination i).1)
        × ((destination i).1 ≤ 30)
        × ((i < (destination i).0) ⊎ ((destination i).1 ≤ i))
  unfolding destination
  destination_fits i = ground arith

  -- With the 30 slots of a player, a quick move returns: it did nothing, or moved a stack.
  pub quick_move_total :
      (inv : Inventory) (i : ℕ)
      → length inv.slots ≡ 30
      → (inv' : Inventory) × (quick_move_slot stack_limit inv i ≡ some inv')
        × ((inv ≡ inv') ⊎ Moved inv i inv')
  quick_move_total inv i len = by_slot (get_elem? inv.slots i) refl
    where
      emptied : Inventory
      emptied = record { slots = Prelude.set inv.slots i none }

      by_slot :
          (o : Option Slot)
          → get_elem? inv.slots i ≡ o
          → (inv' : Inventory) × (quick_move_slot stack_limit inv i ≡ some inv')
            × ((inv ≡ inv') ⊎ Moved inv i inv')
      by_slot none f = (
        inv,
        unfold quick_move_slot Inventories.take_slot in
            rw (Inventories.get-eq_none inv i f, quick_move_slot),
        inl refl,
      )
      by_slot (some none) f = (
        inv,
        unfold quick_move_slot Inventories.take_slot in
            rw (Inventories.get-eq inv i f, quick_move_slot),
        inl refl,
      )
      by_slot (some (some s)) f =
          let (lo, hi) = destination i in
          let ((moved, rest), g) =
            insert_into_range_total stack_limit emptied s lo hi (destination_fits i).0
              (omega (arith, destination_fits i, length-set {0} inv.slots i none)) in
          let m = moved_by s moved rest f g in
          (Inventories.set moved i rest, quick_move-Moved inv i m, inr m)
        where
          moved_by :
              (s : ItemStack) (moved : Inventory) (rest : Slot)
              → get_elem? inv.slots i ≡ some (some s)
              → insert_into_range stack_limit emptied s (destination i).0 (destination i).1
                ≡ some (moved, rest)
              → Moved inv i (Inventories.set moved i rest)
          moved_by s moved rest f g = record {
            s = s;
            moved = moved;
            rest = rest;
            found = f;
            inserted = g;
            put_back = refl;
          }

  module _ (inv : Inventory) (i : ℕ) {inv' : Inventory} (len : length inv.slots ≡ 30)
      (m : Moved inv i inv') (v : AllStacks inv) where
    open m use {s, moved, rest}

    abbrev emptied : Inventory
    emptied = record { slots = Prelude.set inv.slots i none }

    pub s_valid : IsStack stack_limit (some s)
    s_valid = All-get_elem? (IsStack stack_limit) inv.slots i v m.found

    emptied_length : length emptied.slots ≡ 30
    emptied_length = omega (arith, length-set {0} inv.slots i none)

    moved_empty : get_elem? moved.slots i ≡ some none
    moved_empty =
        insert_into_range-outside stack_limit emptied s (destination i).0 (destination i).1 i
          (omega (arith, emptied_length, destination_fits i)) (destination_fits i).2 m.inserted
        ∙ get_elem?-set_self inv.slots i none (get_elem?-some-lt inv.slots i m.found)

    pub Moved-length : length inv'.slots ≡ 30
    unfolding Inventories.set
    Moved-length = rw (← m.put_back) (
        omega (
          arith,
          length-set {0} moved.slots i (non_empty rest),
          insert_into_range-length stack_limit emptied s (destination i).0 (destination i).1
              m.inserted,
          emptied_length,
        ))

    pub Moved-AllStacks : (s.item ≢ 0 → 0 < stack_limit s.item) → AllStacks inv'
    unfolding Inventories.set
    Moved-AllStacks p =
        let P = IsStack stack_limit in
        let (lo, hi) = destination i in
        rw (← m.put_back) (
          All-set P moved.slots i (non_empty rest)
            (insert_into_range-IsStack stack_limit emptied s lo hi p m.inserted
              (All-set P inv.slots i none v tt))
            (non_empty-IsStack stack_limit rest
              (insert_into_range-rest stack_limit emptied s lo hi s_valid m.inserted)))

    pub Moved-count : s.item ≢ 0 → (k : ItemId) → count_item inv' k ≡ count_item inv k
    unfolding Inventories.set count_item
    Moved-count real k = rw (← m.put_back) (
        omega (
          arith,
          count_slots-set k moved.slots i (non_empty rest) moved_empty,
          count_slots-set k inv.slots i none m.found,
          count-non_empty k rest,
          insert_into_range-Keeps stack_limit emptied s (destination i).0 (destination i).1 real
              m.inserted k,
        ))
