-- ===== src/Actions/Safety.antt =====
-- Every slot action returns and keeps a player's inventory well formed.
use fallingsand.Prelude.{
  ℕ, zero, suc, ◌+◌, ◌<◌, ◌≡◌, ◌≢◌, refl, sym, ap, ◌∙◌, inl, inr, arith, Bool, true, false,
  Bool-cases, Option-cases, ltb, not, ◌&&◌, ◌==◌, Option, some, none, List, get_elem?, All,
  All-get_elem?,
}
use mathlib.Core.Path.{subst}
use fallingsand.Items.{ItemId, ItemStack, Recipe, Slot, Inventory, IsStack}
use fallingsand.Items.Inventories.{count_item, count_slot}
use fallingsand.Items.Inventories.Taking.{
  left_click_moves, right_click_moves, left_click-length, right_click-length,
}
use fallingsand.Actions.Apply.{
  SlotAction, left_click, right_click, quick_move, trash, craft, creative_grab, PlayerInventory,
  craft_loop, quick_move_slot, apply_action,
}
use fallingsand.Actions.Crafting.{Distinct, Asks, craft_one, craft_all}
use fallingsand.Actions.Full.{some_inv, IsFull, craft_loop-IsFull}
use fallingsand.Actions.QuickMove.{
  quick_move_total, Moved-length, Moved-AllStacks, Moved-count, s_valid,
}

module _ (stack_limit : ItemId → ℕ) where
  -- A recipe that can be crafted until it runs out: no item twice among the inputs, a real output,
  -- and an input that the output does not give back.
  abbrev pub RunsOut : Recipe → Type 0
  RunsOut r =
      (k : ItemId) × Distinct r.inputs × (r.output.0 ≢ 0) × Asks k r.inputs × (k ≢ r.output.0)

  pub record IsPlayer (p : PlayerInventory) : Type 0 where
    pub full : IsFull stack_limit p.inner
    pub cursor_stack : IsStack stack_limit p.cursor
    pub trash_stack : IsStack stack_limit p.trash

  -- The action returns, and leaves a well-formed player.
  abbrev pub Returns : Option PlayerInventory → Type 0
  Returns o = (p : PlayerInventory) × (o ≡ some p) × IsPlayer p

  -- The limits that the build generates are positive for every item but `NONE`.
  module _ (pos_limit : (k : ItemId) → k ≢ 0 → 0 < stack_limit k) (recipes : List Recipe)
      (item_count : ℕ) where
    grab-IsStack :
        (item : ItemId) (creative : Bool)
        → (creative && not (item == 0) && ltb item item_count) ≡ true
        → IsStack stack_limit (some (record { item = item; count = stack_limit item }))
    grab-IsStack item creative e = ground (arith, pos_limit item)

    trash_lem :
        (fuel : ℕ) (creative : Bool) (inner : Inventory) (c t : Slot)
        → IsFull stack_limit inner
        → IsStack stack_limit c
        → IsStack stack_limit t
        → Returns (
            apply_action stack_limit recipes item_count fuel trash creative
              (record { inner = inner; cursor = c; trash = t }))
    unfolding apply_action
    trash_lem fuel creative inner (some c) t f hc ht =
        (_, refl, record { full = f; cursor_stack = tt; trash_stack = hc })
    trash_lem fuel creative inner none (some t) f hc ht =
        (_, refl, record { full = f; cursor_stack = ht; trash_stack = tt })
    trash_lem fuel creative inner none none f hc ht =
        (_, refl, record { full = f; cursor_stack = tt; trash_stack = tt })

    craft_runs :
        (fuel : ℕ) (r : Recipe) (all : Bool) (inv : Inventory)
        → RunsOut r
        → ((k : ItemId) → count_item inv k < fuel)
        → (inv' : Inventory) × (craft_loop stack_limit fuel r all inv ≡ some inv')
    craft_runs zero r all inv good enough = absurd (omega (arith, enough 0))
    craft_runs (suc fuel) r true inv (k, d, real, a, ne) enough =
        let (inv', _, run, _, _) =
          craft_all stack_limit r (suc fuel) inv k d real a ne (enough k) in
        (inv', run)
    craft_runs (suc fuel) r false inv (k, d, real, a, ne) enough =
        let (inv', _, run, _, _) = craft_one stack_limit r fuel inv d real in (inv', run)

    craft_lem :
        (fuel i : ℕ) (all creative : Bool) (p : PlayerInventory)
        → IsPlayer p
        → All RunsOut recipes
        → ((k : ItemId) → count_item p.inner k < fuel)
        → Returns (apply_action stack_limit recipes item_count fuel (craft i all) creative p)
    unfolding apply_action
    craft_lem fuel i all creative p v good enough = elim (Option-cases (get_elem? recipes i)) [
      | inl e ↦ (p, rw (e, apply_action), v)
      | inr (r, e) ↦
          let (inner, run) =
            craft_runs fuel r all p.inner (All-get_elem? RunsOut recipes i good e) enough in
          (
            record p { inner = inner },
            rw (e, apply_action, run),
            record {
              full =
                  craft_loop-IsFull stack_limit r (pos_limit r.output.0) fuel all p.inner v.full
                    run;
              cursor_stack = v.cursor_stack;
              trash_stack = v.trash_stack;
            },
          )
    ]

    -- Where every item but `NONE` has a positive limit, every slot action of a well-formed player
    -- returns and leaves a well-formed player, if the fuel exceeds the number of each item and
    -- every recipe runs out.
    pub apply_action_total :
        (fuel : ℕ) (a : SlotAction) (creative : Bool) (p : PlayerInventory)
        → IsPlayer p
        → All RunsOut recipes
        → ((k : ItemId) → count_item p.inner k < fuel)
        → Returns (apply_action stack_limit recipes item_count fuel a creative p)
    unfolding apply_action
    apply_action_total fuel (left_click i) creative p v good enough =
        let (full, ok) =
          (left_click_moves stack_limit p.inner i p.cursor (v.full.0, v.cursor_stack)).0 in
        (
          _,
          refl,
          record {
            full = (full, left_click-length stack_limit p.inner i p.cursor ∙ v.full.1);
            cursor_stack = ok;
            trash_stack = v.trash_stack;
          },
        )
    apply_action_total fuel (right_click i) creative p v good enough =
        let (full, ok) =
          (right_click_moves stack_limit p.inner i p.cursor (v.full.0, v.cursor_stack)).0 in
        (
          _,
          refl,
          record {
            full = (full, right_click-length stack_limit p.inner i p.cursor ∙ v.full.1);
            cursor_stack = ok;
            trash_stack = v.trash_stack;
          },
        )
    apply_action_total fuel (quick_move i) creative p v good enough =
        let (inner, e, what) = quick_move_total stack_limit p.inner i v.full.1 in
        (
          record p { inner = inner },
          rw (e, apply_action),
          record {
            full = elim what [
              | inl same ↦ subst (IsFull stack_limit) same v.full
              | inr m ↦ (
                Moved-AllStacks stack_limit p.inner i v.full.1 m v.full.0 (pos_limit m.s.item),
                Moved-length stack_limit p.inner i v.full.1 m v.full.0,
              )
            ];
            cursor_stack = v.cursor_stack;
            trash_stack = v.trash_stack;
          },
        )
    apply_action_total fuel trash creative p v good enough =
        trash_lem fuel creative p.inner p.cursor p.trash v.full v.cursor_stack v.trash_stack
    apply_action_total fuel (craft i all) creative p v good enough =
        craft_lem fuel i all creative p v good enough
    apply_action_total fuel (creative_grab item) creative p v good enough =
        elim (Bool-cases (creative && not (item == 0) && ltb item item_count)) [
          | inl e ↦ (
            record p { cursor = some (record { item = item; count = stack_limit item }) },
            rw (e, apply_action),
            record {
              full = v.full;
              cursor_stack = grab-IsStack item creative e;
              trash_stack = v.trash_stack;
            },
          )
          | inr e ↦ (p, rw (e, apply_action), v)
        ]

  -- The items of a player, wherever they are.
  abbrev pub owned : ItemId → PlayerInventory → ℕ
  owned k p = count_item p.inner k + count_slot k p.cursor + count_slot k p.trash

  -- The actions that only move items.
  abbrev pub IsMove : SlotAction → Type 0
  IsMove (left_click i) = Unit
  IsMove (right_click i) = Unit
  IsMove (quick_move i) = Unit
  IsMove _ = ⊥

  s_real : (s : ItemStack) → stack_limit 0 ≡ 0 → IsStack stack_limit (some s) → s.item ≢ 0
  s_real s z v e = omega (arith, v, z, ap stack_limit e)

  -- A click or a quick move of a well-formed player that returns makes and loses no item: the
  -- slots, the cursor and the trash together hold as many of each as before, where `NONE` has the
  -- limit 0.
  pub moves_keep_items :
      (recipes : List Recipe) (item_count fuel : ℕ) (a : SlotAction) (creative : Bool)
      (p : PlayerInventory) {p' : PlayerInventory}
      → stack_limit 0 ≡ 0
      → IsMove a
      → IsPlayer p
      → apply_action stack_limit recipes item_count fuel a creative p ≡ some p'
      → (k : ItemId) → owned k p' ≡ owned k p
  unfolding apply_action
  moves_keep_items recipes item_count fuel (left_click i) creative p z m v e k =
      ground
        (arith, (left_click_moves stack_limit p.inner i p.cursor (v.full.0, v.cursor_stack)).1 k)
  moves_keep_items recipes item_count fuel (right_click i) creative p z m v e k =
      ground
        (arith, (right_click_moves stack_limit p.inner i p.cursor (v.full.0, v.cursor_stack)).1 k)
  moves_keep_items recipes item_count fuel (quick_move i) creative p {p'} z m v e k =
      let (inner, run, what) = quick_move_total stack_limit p.inner i v.full.1 in
      let same : record p { inner = inner } ≡ p' = some_inv (sym (eq inner run) ∙ e) in
      rw (← same) (elim what [
        | inl kept ↦
            ap (λ t. count_item t k + count_slot k p.cursor + count_slot k p.trash) (sym kept)
        | inr moved ↦ omega (
          arith,
          Moved-count stack_limit p.inner i v.full.1 moved v.full.0
              (s_real moved.s z (s_valid stack_limit p.inner i v.full.1 moved v.full.0)) k,
        )
      ])
    where
      eq :
          (inner : Inventory)
          → quick_move_slot stack_limit p.inner i ≡ some inner
          → apply_action stack_limit recipes item_count fuel (quick_move i) creative p
            ≡ some (record p { inner = inner })
      eq inner run = rw (run, apply_action)
  moves_keep_items recipes item_count fuel trash creative p z m v e k = absurd m
  moves_keep_items recipes item_count fuel (craft i all) creative p z m v e k = absurd m
  moves_keep_items recipes item_count fuel (creative_grab item) creative p z m v e k = absurd m
