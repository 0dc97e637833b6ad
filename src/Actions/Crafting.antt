-- ===== src/Actions/Crafting.antt =====
-- What crafting takes and makes, and that the craft loop ends.
use fallingsand.Prelude.{
  ℕ, zero, suc, ◌+◌, ◌*◌, ◌≤◌, ◌<◌, ◌≡◌, ◌≢◌, ◌⊎◌, refl, inl, inr, arith, true, false, none, some,
  List, [], ◌∷◌, length, All,
}
use native.Mathlib.Nat.{le_refl}
use fallingsand.Items.{ItemId, Recipe, Inventory}
use fallingsand.Items.Inventories.{count_item, has_all, can_craft, remove_item, insert_first_fit}
use fallingsand.Items.Inventories.Insert.{held, insert_into_range-Keeps, insert_into_range_total}
use fallingsand.Items.Inventories.Taking.{remove_item_count}
use fallingsand.Actions.Apply.{
  Round, stop, crafted, panic, remove_inputs, output_stack, craft_round, craft_loop,
}

-- How many of an item the inputs ask for.
unfoldable pub need : ItemId → List (ItemId × ℕ) → ℕ
need k [] = 0
need k ((item, count) ∷ rest) = held k item count + need k rest

-- No item stands twice among the inputs.
abbrev pub Distinct : List (ItemId × ℕ) → Type 0
Distinct [] = Unit
Distinct ((item, count) ∷ rest) = All (λ e. item ≢ e.0) rest × Distinct rest

-- Some input asks for a positive number of the item.
abbrev pub Asks : ItemId → List (ItemId × ℕ) → Type 0
Asks k [] = ⊥
Asks k ((item, count) ∷ rest) = (k ≡ item) × (0 < count) ⊎ Asks k rest

has_all-remove :
    (inv : Inventory) (item n : ℕ) (rest : List (ItemId × ℕ))
    → All (λ e. item ≢ e.0) rest
    → has_all inv rest ≡ true
    → has_all (remove_item inv item n).0 rest ≡ true
unfolding count_item
has_all-remove inv item n [] d h = refl
has_all-remove inv item n ((k, c) ∷ rest) d h =
    ground (arith, d.0, (remove_item_count inv item n).1 k, has_all-remove inv item n rest d.1)

-- With everything at hand, the inputs are taken exactly.
remove_inputs_count :
    (inputs : List (ItemId × ℕ)) (inv : Inventory) (k : ItemId)
    → Distinct inputs
    → has_all inv inputs ≡ true
    → count_item (remove_inputs inputs inv) k + need k inputs ≡ count_item inv k
unfolding remove_inputs need
remove_inputs_count [] inv k d h = omega arith
remove_inputs_count ((item, n) ∷ rest) inv k d h =
    let inv' = (remove_item inv item n).0 in
    ground (
      arith,
      first h,
      (remove_item_count inv item n).1 k,
      has_all-remove inv item n rest d.0,
      remove_inputs_count rest inv' k d.1,
    )
  where
    first : has_all inv ((item, n) ∷ rest) ≡ true → n ≤ count_item inv item
    first e = unfold count_item in ground arith

remove_inputs-le :
    (inputs : List (ItemId × ℕ)) (inv : Inventory) (k : ItemId)
    → count_item (remove_inputs inputs inv) k ≤ count_item inv k
unfolding remove_inputs
remove_inputs-le [] inv k = omega arith
remove_inputs-le ((item, n) ∷ rest) inv k =
    ground (
      arith,
      (remove_item_count inv item n).1 k,
      remove_inputs-le rest (remove_item inv item n).0 k,
    )

-- An input that is asked for becomes less.
remove_inputs-lt :
    (inputs : List (ItemId × ℕ)) (inv : Inventory) (k : ItemId)
    → Asks k inputs
    → 0 < count_item inv k
    → count_item (remove_inputs inputs inv) k < count_item inv k
unfolding remove_inputs
remove_inputs-lt [] inv k a h = absurd a
remove_inputs-lt ((item, n) ∷ rest) inv k a h =
    let inv' = (remove_item inv item n).0 in
    ground (
      arith,
      (remove_item_count inv item n).1 k,
      remove_inputs-le rest inv' k,
      remove_inputs-lt rest inv' k,
    )

Asks-count :
    (inputs : List (ItemId × ℕ)) (inv : Inventory) (k : ItemId)
    → Asks k inputs
    → has_all inv inputs ≡ true
    → 0 < count_item inv k
unfolding count_item
Asks-count [] inv k a h = absurd a
Asks-count ((item, n) ∷ rest) inv k (inl (e, p)) h = ground arith
Asks-count ((item, n) ∷ rest) inv k (inr a) h = ground (arith, Asks-count rest inv k a)

module _ (stack_limit : ItemId → ℕ) (r : Recipe) where
  -- A round that crafts found every input, and the output found room.
  pub crafted_cases :
      (inv : Inventory) {inv' : Inventory}
      → craft_round stack_limit r inv ≡ crafted inv'
      → (has_all inv r.inputs ≡ true)
        × (insert_first_fit stack_limit (remove_inputs r.inputs inv) (output_stack r)
            ≡ some (inv', none))
  unfolding craft_round can_craft
  crafted_cases inv e = ground arith

  -- A round never panics.
  pub craft_round-ne-panic : (inv : Inventory) → craft_round stack_limit r inv ≢ panic
  unfolding craft_round insert_first_fit
  craft_round-ne-panic inv e =
      let trial = remove_inputs r.inputs inv in
      let total =
        insert_into_range_total stack_limit trial (output_stack r) 0 (length trial.slots)
          (omega arith) (le_refl (length trial.slots)) in
      ground (arith, total)

  -- What one round changes.
  craft_round_count :
      (inv : Inventory) {inv' : Inventory} (k : ItemId)
      → Distinct r.inputs
      → r.output.0 ≢ 0
      → craft_round stack_limit r inv ≡ crafted inv'
      → count_item inv' k + need k r.inputs ≡ count_item inv k + held k r.output.0 r.output.1
  unfolding insert_first_fit output_stack
  craft_round_count inv k d real e =
      let (all, ins) = crafted_cases inv e in
      ground (
        arith,
        remove_inputs_count r.inputs inv k d all,
        insert_into_range-Keeps stack_limit (remove_inputs r.inputs inv) (output_stack r) 0 _ real
            ins k,
      )

  -- An input other than the output becomes less in every round.
  craft_round-lt :
      (inv : Inventory) {inv' : Inventory} (k : ItemId)
      → Asks k r.inputs
      → k ≢ r.output.0
      → r.output.0 ≢ 0
      → craft_round stack_limit r inv ≡ crafted inv'
      → count_item inv' k < count_item inv k
  unfolding insert_first_fit output_stack
  craft_round-lt inv k a ne real e =
      let (all, ins) = crafted_cases inv e in
      ground (
        arith,
        remove_inputs-lt r.inputs inv k a (Asks-count r.inputs inv k a all),
        insert_into_range-Keeps stack_limit (remove_inputs r.inputs inv) (output_stack r) 0 _ real
            ins k,
      )

  -- `m` rounds lead from one inventory to the other: each takes the inputs and makes the output.
  abbrev pub Made : ℕ → Inventory → Inventory → Type 0
  Made m inv inv' =
      (j : ItemId)
      → count_item inv' j + m * need j r.inputs
        ≡ count_item inv j + m * held j r.output.0 r.output.1

  -- For a recipe that names no input twice and makes a real item, a single craft ends after one
  -- round or none, and each item changes by what those rounds take and make.
  pub craft_one :
      (fuel : ℕ) (inv : Inventory)
      → Distinct r.inputs
      → r.output.0 ≢ 0
      → (inv' : Inventory) × (m : ℕ) × (craft_loop stack_limit (suc fuel) r false inv ≡ some inv')
        × (m ≤ 1)
        × Made m inv inv'
  craft_one fuel inv d real = round (craft_round stack_limit r inv) refl
    where
      round :
          (o : Round)
          → craft_round stack_limit r inv ≡ o
          → (inv' : Inventory) × (m : ℕ) × (craft_loop stack_limit (suc fuel) r false inv
              ≡ some inv')
            × (m ≤ 1)
            × Made m inv inv'
      round stop e =
          (inv, 0, unfold craft_loop in rw (e, craft_loop), omega arith, λ j. omega arith)
      round panic e = absurd (craft_round-ne-panic inv e)
      round (crafted next) e = (
        next,
        1,
        unfold craft_loop in rw (e, craft_loop),
        omega arith,
        λ j. omega (arith, craft_round_count inv j d real e),
      )

  -- What crafting all comes to: some number of rounds, after which no further one is possible.
  abbrev pub CraftsAll : ℕ → Inventory → Type 0
  CraftsAll fuel inv =
      (inv' : Inventory) × (m : ℕ) × (craft_loop stack_limit fuel r true inv ≡ some inv')
      × (craft_round stack_limit r inv' ≡ stop)
      × Made m inv inv'

  CraftsAll-round :
      (fuel : ℕ) (inv next : Inventory)
      → Distinct r.inputs
      → r.output.0 ≢ 0
      → craft_round stack_limit r inv ≡ crafted next
      → CraftsAll fuel next
      → CraftsAll (suc fuel) inv
  CraftsAll-round fuel inv next d real e (inv', m, run, done, made) = (
    inv',
    suc m,
    unfold craft_loop in rw (e, craft_loop) run,
    done,
    λ j. omega (arith, made j, craft_round_count inv j d real e),
  )

  -- For a recipe that names no input twice, makes a real item and asks for some item other than its
  -- output, crafting all ends within more fuel than there are such items. No further round is
  -- possible then, and each item changed by what the rounds take and make.
  pub craft_all :
      (fuel : ℕ) (inv : Inventory) (k : ItemId)
      → Distinct r.inputs
      → r.output.0 ≢ 0
      → Asks k r.inputs
      → k ≢ r.output.0
      → count_item inv k < fuel
      → CraftsAll fuel inv
  craft_all zero inv k d real a ne h = absurd (omega arith)
  craft_all (suc fuel) inv k d real a ne h =
      round (craft_round stack_limit r inv) refl (λ next. craft_all fuel next k d real a ne)
    where
      round :
          (o : Round)
          → craft_round stack_limit r inv ≡ o
          → ((next : Inventory) → count_item next k < fuel → CraftsAll fuel next)
          → CraftsAll (suc fuel) inv
      round stop e more = (inv, 0, unfold craft_loop in rw (e, craft_loop), e, λ j. omega arith)
      round panic e more = absurd (craft_round-ne-panic inv e)
      round (crafted next) e more =
          CraftsAll-round fuel inv next d real e
            (more next (omega (arith, craft_round-lt inv k a ne real e)))
