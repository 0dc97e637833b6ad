-- ===== src/Coords/Rects/Tests.antt =====
-- Rectangles of cells on concrete inputs.
use fallingsand.Prelude.{◌≡◌, arith, if◌then◌else◌}
use fallingsand.Coords.Types.{CellPos, CellRect}
use fallingsand.Coords.Rects.{cells, contains, times_in, cells_once}

-- From (-1, 2) to (1, 3).
abbrev rect : CellRect
rect = record { min = record { x = 4_294_967_295; y = 2 }; max = record { x = 1; y = 3 } }

abbrev origin : CellPos
origin = record { x = 0; y = 3 }

cells_once_example : times_in origin (cells rect) ≡ (if contains rect origin then 1 else 0)
cells_once_example =
    cells_once rect origin (omega arith, omega arith) (omega arith, omega arith)
      (omega arith, omega arith)
