-- ===== src/Sim/Kernel/Step.antt =====
-- A tick (crates/fallingsand_sim/src/kernel.rs): `step_scoped` and `run_sim`. The measured times are
-- left out. `none` is a panic, or a rule that ran out of fuel.
use fallingsand.Prelude.{ℕ, Bool, true, not, ◌&&◌, Option, none, some, is_some, List, [], ◌∷◌}
use fallingsand.Coords.{ChunkPos}
use fallingsand.Coords.Chunks
use fallingsand.Chunk.State.{Chunk, sim_rect, begin_tick}
use fallingsand.Chunk.Rect.Defs.{is_empty}
use fallingsand.Math.{salt, choose}
use fallingsand.Sim.Content.{Content}
use fallingsand.Sim.Salts.{phase_order_salt}
use fallingsand.Sim.Window.{Window, around}
use fallingsand.Sim.World as World
use fallingsand.Sim.World.{CellWorld, lookup, advance_tick}
use fallingsand.Sim.Kernel.Phase.{KernelEffects, run_phase}
use fallingsand.Sim.Kernel.Block.{simulate_block, random_tick_block}
use fallingsand.Sim.Rules

-- `PHASE_ORDERS`.
abbrev pub phase_orders : List (List ℕ)
phase_orders =
    (0 ∷ 1 ∷ 2 ∷ 3 ∷ [])
    ∷ (0 ∷ 1 ∷ 3 ∷ 2 ∷ [])
    ∷ (0 ∷ 2 ∷ 1 ∷ 3 ∷ [])
    ∷ (0 ∷ 2 ∷ 3 ∷ 1 ∷ [])
    ∷ (0 ∷ 3 ∷ 1 ∷ 2 ∷ [])
    ∷ (0 ∷ 3 ∷ 2 ∷ 1 ∷ [])
    ∷ (1 ∷ 0 ∷ 2 ∷ 3 ∷ [])
    ∷ (1 ∷ 0 ∷ 3 ∷ 2 ∷ [])
    ∷ (1 ∷ 2 ∷ 0 ∷ 3 ∷ [])
    ∷ (1 ∷ 2 ∷ 3 ∷ 0 ∷ [])
    ∷ (1 ∷ 3 ∷ 0 ∷ 2 ∷ [])
    ∷ (1 ∷ 3 ∷ 2 ∷ 0 ∷ [])
    ∷ (2 ∷ 0 ∷ 1 ∷ 3 ∷ [])
    ∷ (2 ∷ 0 ∷ 3 ∷ 1 ∷ [])
    ∷ (2 ∷ 1 ∷ 0 ∷ 3 ∷ [])
    ∷ (2 ∷ 1 ∷ 3 ∷ 0 ∷ [])
    ∷ (2 ∷ 3 ∷ 0 ∷ 1 ∷ [])
    ∷ (2 ∷ 3 ∷ 1 ∷ 0 ∷ [])
    ∷ (3 ∷ 0 ∷ 1 ∷ 2 ∷ [])
    ∷ (3 ∷ 0 ∷ 2 ∷ 1 ∷ [])
    ∷ (3 ∷ 1 ∷ 0 ∷ 2 ∷ [])
    ∷ (3 ∷ 1 ∷ 2 ∷ 0 ∷ [])
    ∷ (3 ∷ 2 ∷ 0 ∷ 1 ∷ [])
    ∷ (3 ∷ 2 ∷ 1 ∷ 0 ∷ [])
    ∷ []

-- `Hash::seed(tick).salt(PHASE_ORDER_SALT)`.
unfoldable pub phase_order : ℕ → Option (List ℕ)
unfolding salt phase_order_salt choose
phase_order tick = choose (salt tick phase_order_salt) phase_orders

unfoldable pub run_phases :
    List ℕ
    → (ChunkPos → Chunk → Bool)
    → (Window → Option Window)
    → World.Chunks × KernelEffects
    → Option (World.Chunks × KernelEffects)
unfolding run_phase
run_phases [] schedule kernel s = some s
run_phases (phase ∷ rest) schedule kernel s = elim (run_phase phase schedule kernel s) [
  | none ↦ none
  | some s' ↦ run_phases rest schedule kernel s'
]

unfoldable pub run_sim :
    ℕ
    → (ChunkPos → Chunk → Bool)
    → (Window → Option Window)
    → World.Chunks × KernelEffects
    → Option (World.Chunks × KernelEffects)
unfolding phase_order run_phases
run_sim tick schedule kernel s = elim (phase_order tick) [
  | none ↦ none
  | some order ↦ run_phases order schedule kernel s
]

-- The chunk is loaded, and so are those around it.
unfoldable pub all_loaded : World.Chunks → ChunkPos → List (ℕ × ℕ) → Bool
unfolding lookup Chunks.translated
all_loaded cs c [] = true
all_loaded cs c ((dx, dy) ∷ ds) =
    is_some (lookup cs (Chunks.translated c dx dy)) && all_loaded cs c ds

-- `ready.contains(pos)`, for a position of the map.
unfoldable pub is_ready : (ChunkPos → Bool) → World.Chunks → ChunkPos → Bool
unfolding all_loaded
is_ready simulate cs c = simulate c && all_loaded cs c around

-- `begin_tick` on every chunk of the second map, under the readiness in the first.
unfoldable pub begin_all : (ChunkPos → Bool) → World.Chunks → World.Chunks → Option World.Chunks
unfolding is_ready begin_tick
begin_all simulate cs [] = some []
begin_all simulate cs ((c, chunk) ∷ rest) = elim (begin_tick chunk (is_ready simulate cs c)) [
  | none ↦ none
  | some chunk' ↦ elim (begin_all simulate cs rest) [
    | none ↦ none
    | some rest' ↦ some ((c, chunk') ∷ rest')
  ]
]

-- The chunk has something to simulate.
unfoldable pub awake : (ChunkPos → Bool) → ChunkPos → Chunk → Bool
unfolding sim_rect is_empty
awake simulate c chunk = simulate c && not (is_empty (sim_rect chunk))

unfoldable pub step_scoped :
    Content → (ChunkPos → Bool) → (ChunkPos → Bool) → CellWorld → Option (CellWorld × KernelEffects)
unfolding advance_tick begin_all awake run_sim simulate_block random_tick_block Rules.effect_cell
    Rules.move_cell Rules.random_tick
step_scoped content simulate random_tick w =
    let w' = advance_tick w in
    let tick = w'.tick in
    let effect = simulate_block (λ v p. Rules.effect_cell content v p tick) tick simulate in
    let movement = simulate_block (λ v p. Rules.move_cell content v p tick) tick simulate in
    let sample = random_tick_block (λ v p. some (Rules.random_tick v p tick)) tick random_tick in
    elim (begin_all simulate w'.chunks w'.chunks) [
      | none ↦ none
      | some cs ↦
          elim (run_sim tick (awake simulate) effect
            (cs, record { impulses = []; unseated = [] })) [
              | none ↦ none
              | some s ↦ elim (run_sim tick (awake simulate) movement s) [
                | none ↦ none
                | some s' ↦ elim (run_sim tick (λ c chunk. random_tick c) sample s') [
                  | none ↦ none
                  | some (cs', effects) ↦ some (record w' { chunks = cs' }, effects)
                ]
              ]
            ]
    ]
