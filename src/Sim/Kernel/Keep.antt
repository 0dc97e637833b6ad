-- ===== src/Sim/Kernel/Keep.antt =====
-- A pass over a window with a rule that keeps matter (crates/fallingsand_sim/src/kernel.rs).
use fallingsand.Prelude.{ℕ, ◌≡◌, refl, Bool, Option, some, List, [], ◌∷◌}
use fallingsand.Coords.{CellPos, ChunkPos}
use fallingsand.Sim.Content.{Content}
use fallingsand.Sim.Window.{Window}
use fallingsand.Sim.Window.Keep.{Keeps, Keeps-refl, Keeps-trans}
use fallingsand.Sim.Rules
use fallingsand.Sim.Rules.Keep as RulesKeep
use fallingsand.Sim.Kernel.Block.{each_cell, simulate_block}

each_cell-Keeps :
    (rule : Window → CellPos → Option Window)
    (keeps : (w : Window) (p : CellPos) → (v : Window) × (rule w p ≡ some v) × Keeps w v)
    (ps : List CellPos) (w : Window)
    → (v : Window) × (each_cell rule ps w ≡ some v) × Keeps w v
unfolding each_cell
each_cell-Keeps rule keeps [] w = (w, refl, Keeps-refl w)
each_cell-Keeps rule keeps (p ∷ ps) w =
    let (u, e, h) = keeps w p in
    let (v, f, k) = each_cell-Keeps rule keeps ps u in rw (each_cell, e) (v, f, Keeps-trans h k)

-- The movement pass over a window always returns. The window then shows as many cells of each
-- material and shade as before, from the same place.
pub simulate_block-Keeps :
    (content : Content) (tick : ℕ) (simulate : ChunkPos → Bool) (w : Window)
    → (v : Window) × (simulate_block (λ u p. Rules.move_cell content u p tick) tick simulate w
        ≡ some v)
      × Keeps w v
unfolding simulate_block
simulate_block-Keeps content tick simulate w =
    each_cell-Keeps (λ u p. Rules.move_cell content u p tick)
      (λ u p. RulesKeep.move_cell-Keeps content u p tick) _ w
