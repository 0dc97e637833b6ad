-- ===== src/Sim/Tests.antt =====
-- A window of sixteen chunks with one falling grain of powder over air, and a world of one chunk.
use fallingsand.Prelude.{
  ℕ, suc, zero, ◌≡◌, ◌∙◌, ◌≤◌, ◌<◌, refl, arith, true, false, Option, none, some, is_some, length,
  replicate, Bool, ◌&&◌, inl, inr, subst, ap, Bool-cases, List, [], ◌∷◌, length-replicate,
  length-set, ◌==◌, ltb, if◌then◌else◌,
}
use fallingsand.Prelude as Prelude
use fallingsand.Prelude.Int.{pos}
use fallingsand.Coords.{CellPos, ChunkPos}
use fallingsand.Cell.State.{Cell, MaterialId, air}
use fallingsand.Chunk.State.{Chunk}
use fallingsand.Chunk.State as Chunk
use fallingsand.Chunk.Tick.{IsChunk}
use fallingsand.Material.{powder_phase, empty_phase, no_dynamics, powder, PowderDynamics}
use fallingsand.Sim.Content.{Content, MatSpec}
use fallingsand.Sim.Window.{Window, get, find, slot_of, set, swap}
use fallingsand.Sim.Window.Cells.{view, written}
use fallingsand.Sim.Window.Writes.{set-view}
use fallingsand.Sim.Window.Keep.{Keeps, swap-Keeps}
use fallingsand.Sim.Motion.Exchange
use fallingsand.Sim.Motion.Traverse.{Walk, traverse}
use fallingsand.Sim.Motion.Reach.{WithinReach, traverse-WithinReach}
use fallingsand.Sim.Rules
use fallingsand.Sim.Known.{AllCells}
use fallingsand.Sim.Known.Burning.{ProductsKnown}
use fallingsand.Sim.Known.Pass.{IsKnown, IsClosed}
use fallingsand.Sim.Rules.Effects.{IsWeighty, drive-Keeps}
use fallingsand.Coords.Cells
use fallingsand.Coords.Offsets.Cell.{index}
use fallingsand.Sim.World.{CellWorld}
use fallingsand.Chunk.Rect.Defs.{DirtyRect, InBounds}
use fallingsand.Chunk.Rect.Defs as Rect
use fallingsand.Sim.Kernel.Visits.{visits, cell_at, in_rect, block_visits}
use fallingsand.Sim.Kernel.Block.{simulate_block, block_rows}
use fallingsand.Sim.Kernel.Phase.{KernelEffects, origin_of, in_phase, slot_in}
use fallingsand.Sim.Kernel.Step.{phase_order, step_scoped}
use fallingsand.Sim.Kernel.Keep.{simulate_block-Keeps}
use fallingsand.Sim.Kernel.Split.{phase_windows_apart}
use fallingsand.Sim.Kernel.Order.{occurrences, phase_order_runs_each}
use fallingsand.Sim.Kernel.Total.{step_scoped_returns}

abbrev falling : PowderDynamics
falling = record {
  air_drag_keep = 65_000;
  submerged_drag_keep = 60_000;
  ground_friction_keep = 50_000;
  deflect_keep = 30_000;
  topple_start_threshold = 9;
  topple_keep_threshold = 9;
  cohesion_threshold = 9;
}

-- The specification of a material.
abbrev spec_of : MaterialId → MatSpec
spec_of m = record {
  density_milli = if m == 7 then pos 1600 else pos 1;
  ignition = none;
  burning = none;
  decay = none;
  is_reactive = false;
  dynamics = if m == 7 then powder falling else no_dynamics;
  reactions = λ n. record { threshold = 0; becomes = 0; other_becomes = 0 };
}

abbrev or_spec : MaterialId → Option MatSpec → MatSpec
or_spec m none = spec_of m
or_spec m (some spec) = spec

-- Of the eight materials number 7 is a powder, and every other one is empty.
abbrev content : Content
content = record {
  phase = λ m. if m == 7 then powder_phase else empty_phase;
  density_milli = λ m. if m == 7 then pos 1600 else pos 1;
  bond_group = λ m. 0;
  flow_threshold = λ m. 0;
  liquid_exchange_threshold = λ m n. 0;
  liquid_impact = λ m. 0;
  restitution = λ m. 6554;
  repose_layers = λ m. 2;
  tags = λ m. 0;
  spec = λ m. if ltb m 8 then some (spec_of m) else none;
  water = 1;
  steam = 2;
  fire = 3;
}

-- It falls by a quarter of a cell in a tick.
abbrev grain : Cell
grain = record { material = 7; payload = (0, 0, 0, 255); shade = 9; flags = 0 }

abbrev with_grain : Chunk
with_grain = record Chunk.new {
  cells = Prelude.set Chunk.new.cells 66 grain;
  sim = record { min_x = 1; min_y = 0; max_x = 3; max_y = 2 };
}

abbrev window : Window
window = record {
  origin = record { x = 1; y = 1 };
  slots = replicate 16 (some with_grain);
  impulses = [];
  unseated = [];
}

abbrev above : CellPos
above = record { x = 130; y = 129 }

abbrev under : CellPos
under = record { x = 130; y = 128 }

set-view_example :
    (view (set content window above grain) ≡ written window.origin (view window) above grain)
    × ((set content window above grain).origin ≡ window.origin)
set-view_example = set-view content window above grain

swap-Keeps_example : Keeps window (swap content window above under)
swap-Keeps_example = swap-Keeps content window above under

simulate_block-Keeps_example :
    (v : Window) × (simulate_block (λ u p. Rules.move_cell content u p 5) 5 (λ c. true) window
      ≡ some v)
    × Keeps window v
simulate_block-Keeps_example = simulate_block-Keeps content 5 (λ c. true) window

abbrev here : ChunkPos
here = record { x = 2; y = 2 }

abbrev right : ChunkPos
right = record { x = 3; y = 2 }

abbrev near : ChunkPos
near = record { x = 4; y = 4 }

here_phase : in_phase 3 here ≡ true
unfolding in_phase
here_phase = refl

right_phase : in_phase 3 right ≡ true
unfolding in_phase
right_phase = refl

here_slot : is_some (slot_in (origin_of here) near) ≡ true
unfolding slot_in origin_of
here_slot = refl

right_slot : is_some (slot_in (origin_of right) near) ≡ true
unfolding slot_in origin_of
right_slot = refl

phase_windows_apart_example : origin_of here ≡ origin_of right
phase_windows_apart_example =
    phase_windows_apart 3 here right near (omega arith, omega arith) (omega arith, omega arith)
      (omega arith, omega arith) here_phase right_phase here_slot right_slot

phase_order_runs_each_example :
    (order : List ℕ) × (phase_order 5 ≡ some order) × (occurrences 3 order ≡ 1)
phase_order_runs_each_example = phase_order_runs_each 5 3 (omega arith)

abbrev world : CellWorld
world = record { chunks = (here, with_grain) ∷ []; tick = 4; unseated = [] }

with_grain-IsChunk : IsChunk with_grain
unfolding Chunk.new air
with_grain-IsChunk = (
  length-set (replicate 4096 air) 66 grain ∙ length-replicate 4096 air,
  (omega arith, omega arith),
  (omega arith, omega arith),
)

known : (m : ℕ) → m < 8 → IsKnown content m
known m lt =
    let there : ltb m 8 ≡ true = ground arith in
    (
      spec_of m,
      rw there refl,
      elim (Bool-cases (m == 7)) [
        | inl e ↦ λ h. rw e refl
        | inr e ↦ λ h. let bad : false ≡ true = rw e at h in cc
      ],
    )

content-IsClosed : IsClosed content
content-IsClosed = record {
  steam = known 2 (omega arith);
  fire = known 3 (omega arith);
  products = λ m spec e. elim (Bool-cases (ltb m 8)) [
    | inl h ↦
        let same : some (spec_of m) ≡ some spec = rw h at e in
        subst (ProductsKnown content (IsKnown content))
          (ap (λ (o : Option MatSpec). or_spec m o) same)
          (record { burning = tt; ignition = tt; decay = tt; reactions = λ n k. absurd (cc k) })
    | inr h ↦ let bad : none ≡ some spec = rw h at e in absurd (cc bad)
  ];
}

abbrev all_below : List Cell → Bool
all_below [] = true
all_below (c ∷ cs) = ltb c.material 8 && all_below cs

below_8 : (cs : List Cell) → all_below cs ≡ true → AllCells (IsKnown content) cs
below_8 [] h l lt = absurd (omega (arith, lt))
below_8 (c ∷ cs) h l lt = elim (Bool-cases (c.material == l.0)) [
  | inl e ↦ known l.0 (ground arith)
  | inr e ↦ below_8 cs (ground arith) l (ground arith)
]

with_grain-below : all_below with_grain.cells ≡ true
unfolding Chunk.new air
with_grain-below = refl

step_scoped_returns_example :
    (r : CellWorld × KernelEffects) × (step_scoped content (λ c. true) (λ c. true) world ≡ some r)
step_scoped_returns_example =
    step_scoped_returns content (λ c. true) (λ c. true) world content-IsClosed
      (with_grain-IsChunk, tt) (below_8 with_grain.cells with_grain-below, tt)

abbrev rects : ℕ → ℕ → DirtyRect
rects ox oy = if ox == 0 then with_grain.sim else Rect.empty

rects-InBounds : (ox oy : ℕ) → InBounds (rects ox oy)
rects-InBounds zero oy = (omega arith, omega arith)
rects-InBounds (suc ox) oy = ground arith

block_visits_example :
    visits (cell_at under 2 1) (block_rows rects under 5 0 128)
    ≡ (if in_rect (rects 0 0) 2 1 then 1 else 0)
block_visits_example =
    block_visits rects rects-InBounds under 5 2 1 (omega arith) (omega arith) (omega arith)
      (omega arith)

traverse-WithinReach_example :
    (t : Walk) × (traverse
        (λ u dir target. Exchange.entry content u 7 dir.1 target)
        (λ u from to. Exchange.swap_dynamic content 5 u from to)
        window
        above
        (pos 31_744)
        (pos 0)
        5
      ≡ some t)
    × WithinReach 62 above t.at
traverse-WithinReach_example =
    traverse-WithinReach (λ u dir target. Exchange.entry content u 7 dir.1 target)
      (λ u from to. Exchange.swap_dynamic content 5 u from to) window above (pos 31_744) (pos 0) 5
      (omega arith) (omega arith) (omega arith) (omega arith)

grain_there : get window above ≡ some grain
unfolding get find slot_of Cells.chunk Cells.offset index Chunk.get Chunk.new air
grain_there = refl

heavy : IsWeighty (spec_of 7)
heavy h = refl

drive-Keeps_example :
    (v : Window) × (Rules.drive content (spec_of 7) window above grain 5 ≡ some v) × Keeps window v
drive-Keeps_example = drive-Keeps content (spec_of 7) window above grain 5 heavy grain_there
