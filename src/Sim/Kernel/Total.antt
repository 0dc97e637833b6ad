-- ===== src/Sim/Kernel/Total.antt =====
-- A tick of the simulation always ends with a result (crates/fallingsand_sim/src/kernel.rs).
use fallingsand.Prelude.{ℕ, ◌≡◌, refl, arith, Bool, Option, some, List, [], ◌∷◌}
use fallingsand.Coords.{CellPos, ChunkPos}
use fallingsand.Chunk.State.{Chunk}
use fallingsand.Chunk.Tick.{IsChunk, begin_tick_clears}
use fallingsand.Math.{salt}
use fallingsand.Math.Range.{choose_total}
use fallingsand.Math.Hashes.{salt-lt}
use fallingsand.Sim.Salts.{phase_order_salt}
use fallingsand.Sim.Content.{Content}
use fallingsand.Sim.Window.{Window}
use fallingsand.Sim.World
use fallingsand.Sim.World.{CellWorld, advance_tick}
use fallingsand.Sim.Known.Pass.{IsKnown, IsClosed, effect_cell-AllSeen}
use fallingsand.Sim.Known.Phases.{AllKnown, each_cell-AllSeen, run_phases-AllKnown}
use fallingsand.Sim.Known.Start.{begin_tick-AllCells}
use fallingsand.Cell.{MaterialId}
use fallingsand.Sim.Rules
use fallingsand.Sim.Rules.Keep as RulesKeep
use fallingsand.Sim.Kernel.Block.{each_cell, simulate_block, random_tick_block}
use fallingsand.Sim.Kernel.Phase.{
  KernelEffects, origins, hand_out, empty_windows, each_window, run_phase,
}
use fallingsand.Sim.Kernel.Step.{
  phase_order, run_phases, run_sim, is_ready, begin_all, awake, phase_orders, step_scoped,
}

Some {ℓ} : {A : Type ℓ} → Option A → Type ℓ
Some {A = A} o = (a : A) × (o ≡ some a)

each_cell-Some :
    (rule : Window → CellPos → Option Window) (total : (w : Window) (p : CellPos) → Some (rule w p))
    (ps : List CellPos) (w : Window)
    → Some (each_cell rule ps w)
unfolding each_cell Some
each_cell-Some rule total [] w = (w, refl)
each_cell-Some rule total (p ∷ ps) w =
    let (u, e) = total w p in rw (each_cell, e) (each_cell-Some rule total ps u)

simulate_block-Some :
    (rule : Window → CellPos → Option Window) (total : (w : Window) (p : CellPos) → Some (rule w p))
    (tick : ℕ) (simulate : ChunkPos → Bool) (w : Window)
    → Some (simulate_block rule tick simulate w)
unfolding simulate_block
simulate_block-Some rule total tick simulate w = each_cell-Some rule total _ w

random_tick_block-Some :
    (rule : Window → CellPos → Option Window) (total : (w : Window) (p : CellPos) → Some (rule w p))
    (tick : ℕ) (simulate : ChunkPos → Bool) (w : Window)
    → Some (random_tick_block rule tick simulate w)
unfolding random_tick_block
random_tick_block-Some rule total tick simulate w = each_cell-Some rule total _ w

each_window-Some :
    (kernel : Window → Option Window) (total : (w : Window) → Some (kernel w)) (ws : List Window)
    → Some (each_window kernel ws)
unfolding each_window Some
each_window-Some kernel total [] = ([], refl)
each_window-Some kernel total (w ∷ ws) =
    let (u, e) = total w in
    let (us, f) = each_window-Some kernel total ws in rw (each_window, e, f) (u ∷ us, refl)

phase_order-Some : (tick : ℕ) → Some (phase_order tick)
unfolding phase_order Some
phase_order-Some tick =
    choose_total (salt tick phase_order_salt) phase_orders (salt-lt tick phase_order_salt)
      (omega arith) (omega arith)

module _ (schedule : ChunkPos → Chunk → Bool) (kernel : Window → Option Window)
    (total : (w : Window) → Some (kernel w)) where
  run_phase-Some :
      (phase : ℕ) (s : World.Chunks × KernelEffects) → Some (run_phase phase schedule kernel s)
  unfolding run_phase Some
  run_phase-Some phase (cs, effects) =
      let os = origins phase schedule cs in
      let (ws, e) = each_window-Some kernel total (hand_out os cs (empty_windows os)) in
      rw (run_phase, e) (_, refl)

  run_phases-Some :
      (order : List ℕ) (s : World.Chunks × KernelEffects)
      → Some (run_phases order schedule kernel s)
  unfolding run_phases Some
  run_phases-Some [] s = (s, refl)
  run_phases-Some (phase ∷ rest) s =
      let (s', e) = run_phase-Some phase s in rw (run_phases, e) (run_phases-Some rest s')

  run_sim-Some :
      (tick : ℕ) (s : World.Chunks × KernelEffects) → Some (run_sim tick schedule kernel s)
  unfolding run_sim Some
  run_sim-Some tick s =
      let (order, e) = phase_order-Some tick in rw (run_sim, e) (run_phases-Some order s)

-- Every chunk of the map is well formed.
abbrev pub AllChunks : World.Chunks → Type 0
AllChunks [] = Unit
AllChunks ((c, chunk) ∷ rest) = IsChunk chunk × AllChunks rest

begin_all-AllKnown :
    (K : MaterialId → Type 0) (simulate : ChunkPos → Bool) (all cs : World.Chunks)
    → AllChunks cs
    → AllKnown K cs
    → (cs' : World.Chunks) × (begin_all simulate all cs ≡ some cs') × AllKnown K cs'
unfolding begin_all
begin_all-AllKnown K simulate all [] h k = ([], refl, tt)
begin_all-AllKnown K simulate all ((c, chunk) ∷ rest) (h, hs) (k, ks) =
    let (chunk', e, _, _, _, _, _, _) =
      begin_tick_clears chunk (is_ready simulate all c) (record { x = 0; y = 0 }) h
        (omega arith, omega arith) in
    let (rest', f, ks') = begin_all-AllKnown K simulate all rest hs ks in
    rw (begin_all, e, f)
      (
        (c, chunk') ∷ rest',
        refl,
        (begin_tick-AllCells K chunk chunk' (is_ready simulate all c) e k, ks'),
      )

-- The pass of the effects.
effects-Some :
    (content : Content) (simulate : ChunkPos → Bool) (tick : ℕ) (s : World.Chunks × KernelEffects)
    → IsClosed content
    → AllKnown (IsKnown content) s.0
    → Some (
        run_sim tick
          (awake simulate)
          (simulate_block (λ v p. Rules.effect_cell content v p tick) tick simulate)
          s)
unfolding run_sim simulate_block Some
effects-Some content simulate tick s closed k =
    let effect = λ (v : Window) (p : CellPos). Rules.effect_cell content v p tick in
    let (order, e) = phase_order-Some tick in
    let (s', f, _) =
      run_phases-AllKnown (IsKnown content) (awake simulate) (simulate_block effect tick simulate)
        (λ w kw.
          each_cell-AllSeen (IsKnown content) effect
            (λ v p kv. effect_cell-AllSeen content closed v p tick kv) _ w kw)
        order s k in
    rw (run_sim, e) (s', f)

-- A tick of a world of well-formed chunks always ends with a result, whichever chunks are chosen, if every
-- material of which the world has cells has a specification, with a positive density where it is a powder,
-- and so have steam, fire, and all that burning, ignition, decay and reactions make of a material that has
-- a specification.
pub step_scoped_returns :
    (content : Content) (simulate random_tick : ChunkPos → Bool) (w : CellWorld)
    → IsClosed content
    → AllChunks w.chunks
    → AllKnown (IsKnown content) w.chunks
    → (r : CellWorld × KernelEffects) × (step_scoped content simulate random_tick w ≡ some r)
unfolding step_scoped advance_tick Some
step_scoped_returns content simulate random_tick w closed h k =
    let tick = (advance_tick w).tick in
    let movement = λ (v : Window) (p : CellPos). Rules.move_cell content v p tick in
    let sample = λ (v : Window) (p : CellPos). some (Rules.random_tick v p tick) in
    let (cs, e, kcs) = begin_all-AllKnown (IsKnown content) simulate w.chunks w.chunks h k in
    let (s1, e1) =
      effects-Some content simulate tick (cs, record { impulses = []; unseated = [] }) closed kcs in
    let (s2, e2) =
      run_sim-Some (awake simulate) (simulate_block movement tick simulate)
        (simulate_block-Some movement
          (λ u p. let (x, f, _) = RulesKeep.move_cell-Keeps content u p tick in (x, f)) tick
          simulate)
        tick s1 in
    let (s3, e3) =
      run_sim-Some (λ c chunk. random_tick c) (random_tick_block sample tick random_tick)
        (random_tick_block-Some sample (λ u p. (Rules.random_tick u p tick, refl)) tick random_tick)
        tick s2 in
    rw (step_scoped, e, e1, e2, e3) (_, refl)
