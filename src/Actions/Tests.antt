-- ===== src/Actions/Tests.antt =====
-- A player with forty logs and a recipe that makes four planks of one log.
use fallingsand.Prelude.{
  ℕ, zero, suc, ◌<◌, ◌≡◌, ◌≢◌, refl, arith, inl, true, false, ◌==◌, if◌then◌else◌, none, some, [],
  ◌∷◌, All, replicate,
}
use fallingsand.Items.{ItemId, Recipe, Inventory, IsStack}
use fallingsand.Items.Inventories
use fallingsand.Items.Inventories.{count_item, count_slot}
use fallingsand.Actions.Apply.{PlayerInventory, left_click, craft, apply_action}
use fallingsand.Actions.Crafting.{CraftsAll, craft_all}
use fallingsand.Actions.Safety.{
  IsPlayer, Returns, RunsOut, owned, apply_action_total, moves_keep_items,
}

abbrev limits : ItemId → ℕ
limits k = if k == 0 then 0 else 99

abbrev planks : Recipe
planks = record { inputs = (1, 1) ∷ []; output = (2, 4) }

abbrev logs : Inventory
logs = record { slots = some (record { item = 1; count = 40 }) ∷ replicate 29 none }

abbrev player : PlayerInventory
player = record { inner = logs; cursor = none; trash = none }

craft_all_example : CraftsAll limits planks 41 logs
unfolding count_item
craft_all_example =
    craft_all limits planks 41 logs 1 (tt, tt) (omega arith) (inl (refl, omega arith)) (omega arith)
      (omega arith)

player-IsPlayer : IsPlayer limits player
player-IsPlayer = record {
  full = (((omega arith, omega arith), all_none 29), refl);
  cursor_stack = tt;
  trash_stack = tt;
}
  where
    all_none : (n : ℕ) → All (IsStack limits) (replicate n none)
    all_none zero = tt
    all_none (suc n) = (tt, all_none n)

limits_real : (k : ItemId) → k ≢ 0 → 0 < limits k
limits_real k h = ground arith

planks-RunsOut : All (RunsOut limits) (planks ∷ [])
planks-RunsOut = ((1, (tt, tt), omega arith, inl (refl, omega arith), omega arith), tt)

few : (k : ItemId) → count_item logs k < 41
unfolding count_item
few k = ground arith

apply_action_total_example :
    Returns limits (apply_action limits (planks ∷ []) 3 41 (craft 0 true) false player)
apply_action_total_example =
    apply_action_total limits limits_real (planks ∷ []) 3 41 (craft 0 true) false player
      player-IsPlayer planks-RunsOut few

-- The player after a click on the logs.
abbrev taken : PlayerInventory
taken = record {
  inner = record { slots = replicate 30 none };
  cursor = some (record { item = 1; count = 40 });
  trash = none;
}

click_run : apply_action limits (planks ∷ []) 3 1 (left_click 0) false player ≡ some taken
unfolding apply_action Inventories.left_click Inventories.left_slot
click_run = refl

moves_keep_items_example : owned limits 1 taken ≡ owned limits 1 player
moves_keep_items_example =
    moves_keep_items limits (planks ∷ []) 3 1 (left_click 0) false player {p' = taken} refl tt
      player-IsPlayer click_run 1
