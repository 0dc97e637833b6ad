-- ===== src/Actions/Full.antt =====
-- A player's slots stay thirty stacks within their limits.
use fallingsand.Prelude.{
  ℕ, zero, suc, ◌<◌, ◌≡◌, ◌≢◌, refl, sym, ◌∙◌, Bool, true, false, some, List, [], ◌∷◌, length,
}
use mathlib.Core.Path.{subst}
use fallingsand.Items.{ItemId, Recipe, Inventory}
use fallingsand.Items.Inventories
use fallingsand.Items.Inventories.{count_item, count_slot, remove_item}
use fallingsand.Items.Inventories.Limits.{
  insert_into_range-IsStack, insert_into_range-length, remove_item-IsStack, remove_item-length,
}
use fallingsand.Actions.Apply.{
  Round, stop, crafted, panic, remove_inputs, craft_round, craft_loop, output_stack,
}
use fallingsand.Actions.Crafting.{crafted_cases, craft_round-ne-panic}
use fallingsand.Actions.QuickMove.{AllStacks}

pub some_inv {ℓ} : {A : Type ℓ} {a b : A} → some a ≡ some b → a ≡ b
some_inv e = cc

remove_inputs-length :
    (inputs : List (ItemId × ℕ)) (inv : Inventory)
    → length (remove_inputs inputs inv).slots ≡ length inv.slots
unfolding remove_inputs
remove_inputs-length [] inv = refl
remove_inputs-length ((item, n) ∷ rest) inv =
    remove_inputs-length rest (remove_item inv item n).0 ∙ remove_item-length inv item n

module _ (stack_limit : ItemId → ℕ) where
  remove_inputs-AllStacks :
      (inputs : List (ItemId × ℕ)) (inv : Inventory)
      → AllStacks stack_limit inv
      → AllStacks stack_limit (remove_inputs inputs inv)
  unfolding remove_inputs
  remove_inputs-AllStacks [] inv v = v
  remove_inputs-AllStacks ((item, n) ∷ rest) inv v =
      remove_inputs-AllStacks rest (remove_item inv item n).0
        (remove_item-IsStack stack_limit inv item n v)

  -- An inventory of a player: 30 slots, with stacks within their limits.
  abbrev pub IsFull : Inventory → Type 0
  IsFull inv = AllStacks stack_limit inv × (length inv.slots ≡ 30)

  module _ (r : Recipe) (pos_limit : r.output.0 ≢ 0 → 0 < stack_limit r.output.0) where
    craft_round-IsFull :
        (inv : Inventory) {inv' : Inventory}
        → IsFull inv
        → craft_round stack_limit r inv ≡ crafted inv'
        → IsFull inv'
    unfolding Inventories.insert_first_fit output_stack
    craft_round-IsFull inv (v, len) e =
        let trial = remove_inputs r.inputs inv in
        let (_, ins) = crafted_cases stack_limit r inv e in
        (
          insert_into_range-IsStack stack_limit trial (output_stack r) 0 (length trial.slots)
              pos_limit ins (remove_inputs-AllStacks r.inputs inv v),
          insert_into_range-length stack_limit trial (output_stack r) 0 (length trial.slots) ins
              ∙ remove_inputs-length r.inputs inv
              ∙ len,
        )

    craft_loop_stop :
        (fuel : ℕ) (all : Bool) (inv : Inventory)
        → craft_round stack_limit r inv ≡ stop
        → craft_loop stack_limit (suc fuel) r all inv ≡ some inv
    unfolding craft_loop
    craft_loop_stop fuel all inv g = rw (g, craft_loop)

    craft_loop_one :
        (fuel : ℕ) (inv : Inventory) {next : Inventory}
        → craft_round stack_limit r inv ≡ crafted next
        → craft_loop stack_limit (suc fuel) r false inv ≡ some next
    unfolding craft_loop
    craft_loop_one fuel inv g = rw (g, craft_loop)

    craft_loop_more :
        (fuel : ℕ) (inv : Inventory) {next : Inventory}
        → craft_round stack_limit r inv ≡ crafted next
        → craft_loop stack_limit (suc fuel) r true inv ≡ craft_loop stack_limit fuel r true next
    unfolding craft_loop
    craft_loop_more fuel inv g = rw (g, craft_loop)

    pub craft_loop-IsFull :
        (fuel : ℕ) (all : Bool) (inv : Inventory) {inv' : Inventory}
        → IsFull inv
        → craft_loop stack_limit fuel r all inv ≡ some inv'
        → IsFull inv'
    unfolding craft_loop
    craft_loop-IsFull zero all inv f e = cc
    craft_loop-IsFull (suc fuel) all inv {inv'} f e =
        round (craft_round stack_limit r inv) refl all (λ next. craft_loop-IsFull fuel true next) e
      where
        round :
            (o : Round)
            → craft_round stack_limit r inv ≡ o
            → (all : Bool)
            → ((next : Inventory)
                → IsFull next
                → craft_loop stack_limit fuel r true next ≡ some inv'
                → IsFull inv')
            → craft_loop stack_limit (suc fuel) r all inv ≡ some inv'
            → IsFull inv'
        round stop g all more run =
            let same : inv ≡ inv' = some_inv (sym (craft_loop_stop fuel all inv g) ∙ run) in
            subst IsFull same f
        round panic g all more run = absurd (craft_round-ne-panic stack_limit r inv g)
        round (crafted next) g false more run =
            let same : next ≡ inv' = some_inv (sym (craft_loop_one fuel inv g) ∙ run) in
            subst IsFull same (craft_round-IsFull inv f g)
        round (crafted next) g true more run =
            more next (craft_round-IsFull inv f g) (sym (craft_loop_more fuel inv g) ∙ run)
