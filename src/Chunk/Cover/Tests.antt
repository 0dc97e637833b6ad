-- ===== src/Chunk/Cover/Tests.antt =====
-- A chunk with one grain of sand.
use fallingsand.Prelude.{◌≡◌, ◌⊎◌, refl, arith, some}
use fallingsand.Coords.{CellOffset}
use fallingsand.Coords.Offsets.Cell.{index}
use fallingsand.Prelude as Prelude
use fallingsand.Cell.State.{Cell, air}
use fallingsand.Chunk.Rect.Defs.{mark, mark_neighbourhood}
use fallingsand.Chunk.State.{Chunk, get, set, shows}
use fallingsand.Chunk.State as Chunk
use fallingsand.Chunk.Cover.{Writes, done, then_set, Marked, Writes-covered}

abbrev place : CellOffset
place = record { x = 2; y = 0 }

abbrev beside : CellOffset
beside = record { x = 3; y = 1 }

abbrev sand : Cell
sand = record { material = 7; payload = (0, 0, 0, 0); shade = 9; flags = 0 }

-- A new chunk after the grain was set: shown, and one write.
abbrev with_sand : Chunk
with_sand = record Chunk.new {
  cells = Prelude.set Chunk.new.cells 2 sand;
  counts = record { writes = 1; visible = 1 };
  change = record { min_x = 2; min_y = 0; max_x = 2; max_y = 0 };
  sim = record { min_x = 1; min_y = 0; max_x = 3; max_y = 1 };
}

set_run : set Chunk.new place sand ≡ some with_sand
unfolding set index mark mark_neighbourhood shows Chunk.new air
set_run = refl

sand_written : Writes Chunk.new with_sand
sand_written = then_set place sand done (omega arith) set_run

Writes-covered_example : (get with_sand place ≡ get Chunk.new place) ⊎ Marked with_sand place beside
Writes-covered_example =
    Writes-covered Chunk.new with_sand place beside sand_written (omega arith) (omega arith)
      (omega arith)
