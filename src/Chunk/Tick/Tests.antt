-- ===== src/Chunk/Tick/Tests.antt =====
-- A chunk with one grain of sand, over two ticks.
use fallingsand.Prelude.{
  ℕ, suc, zero, ◌≡◌, ◌≢◌, ◌⊎◌, refl, ◌∙◌, arith, true, false, Option, none, some, length, replicate,
  List, length-replicate, length-set,
}
use fallingsand.Prelude as Prelude
use fallingsand.Coords.{CellOffset}
use fallingsand.Coords.Offsets.Cell.{index}
use fallingsand.Cell.State.{Cell, air}
use fallingsand.Chunk.Rect.Defs.{Covers, mark, mark_neighbourhood}
use fallingsand.Chunk.State.{Chunk, get, set, shows, change_rect, begin_tick}
use fallingsand.Chunk.State as Chunk
use fallingsand.Chunk.Cover.{done, then_set}
use fallingsand.Chunk.Tick.{IsChunk, Begun, appearance, begin_tick_clears, differences_found}

abbrev place : CellOffset
place = record { x = 2; y = 0 }

abbrev sand : Cell
sand = record { material = 7; payload = (0, 0, 0, 0); shade = 9; flags = 0 }

abbrev with_sand : Chunk
with_sand = record Chunk.new {
  cells = Prelude.set Chunk.new.cells 2 sand;
  counts = record { writes = 1; visible = 1 };
  change = record { min_x = 2; min_y = 0; max_x = 2; max_y = 0 };
  sim = record { min_x = 1; min_y = 0; max_x = 3; max_y = 1 };
}

set_run : set Chunk.new place sand ≡ some with_sand
unfolding set index mark mark_neighbourhood shows Chunk.new air
set_run = refl

with_sand-IsChunk : IsChunk with_sand
unfolding Chunk.new air
with_sand-IsChunk = (
  length-set (replicate 4096 air) 2 sand ∙ length-replicate 4096 air,
  (omega arith, omega arith),
  (omega arith, omega arith),
)

begin_tick_clears_example : Begun with_sand true place (begin_tick with_sand true)
begin_tick_clears_example = begin_tick_clears with_sand true place with_sand-IsChunk (omega arith)

rolled : Chunk
rolled = (begin_tick_clears with_sand true place with_sand-IsChunk (omega arith)).0

rolled_run : begin_tick with_sand true ≡ some rolled
unfolding rolled
rolled_run = (begin_tick_clears with_sand true place with_sand-IsChunk (omega arith)).1

differences_found_example :
    (appearance (get rolled place) ≡ appearance (get Chunk.new place))
    ⊎ Covers (change_rect rolled) place
differences_found_example =
    differences_found Chunk.new with_sand rolled rolled place with_sand-IsChunk (omega arith)
      (then_set place sand done (omega arith) set_run) rolled_run done
