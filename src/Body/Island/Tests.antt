-- ===== src/Body/Island/Tests.antt =====
-- Two bonded cells of stone in the air, on concrete inputs.
use fallingsand.Prelude.{
  ◌≡◌, refl, ◌==◌, if◌then◌else◌, Bool, false, Option, none, some, List, [], ◌∷◌, set,
}
use fallingsand.Prelude.Int.{pos}
use fallingsand.Coords.{CellPos}
use fallingsand.Cell.{Cell, MaterialId}
use fallingsand.Chunk.State as Chunk
use fallingsand.Material.{solid, empty_phase, no_dynamics}
use fallingsand.Sim.Content.{Content}
use fallingsand.Sim.World.{CellWorld}
use fallingsand.Body.Island.Defs.{detect_detached_island}
use fallingsand.Body.Island.Decides.{Explains, detect_detached_island-Explains}

abbrev content : Content
content = record {
  phase = λ m. if m == 9 then solid else empty_phase;
  density_milli = λ m. pos 1;
  bond_group = λ m. if m == 9 then 1 else 255;
  flow_threshold = λ m. 0;
  liquid_exchange_threshold = λ m n. 0;
  liquid_impact = λ m. 0;
  restitution = λ m. 0;
  repose_layers = λ m. 0;
  tags = λ m. 0;
  spec = λ m. some (record {
    density_milli = pos 1;
    ignition = none;
    burning = none;
    decay = none;
    is_reactive = false;
    dynamics = no_dynamics;
    reactions = λ n. record { threshold = 0; becomes = 0; other_becomes = 0 };
  });
  water = 1;
  steam = 2;
  fire = 3;
}

abbrev hard : MaterialId → Bool
hard m = m == 9

abbrev stone : Cell
stone = record { material = 9; payload = (0, 0, 0, 0); shade = 0; flags = 0 }

-- The cells (1, 1) and (2, 1).
world : CellWorld
world = record {
  chunks =
      (
        record { x = 0; y = 0 },
        record Chunk.new { cells = set (set Chunk.new.cells 65 stone) 66 stone },
      )
      ∷ [];
  tick = 0;
  unseated = [];
}

abbrev seed : CellPos
seed = record { x = 2; y = 1 }

abbrev other : CellPos
other = record { x = 1; y = 1 }

detached_pair :
    detect_detached_island content hard world seed []
    ≡ some (some (other ∷ seed ∷ []), other ∷ seed ∷ [])
unfolding detect_detached_island world Chunk.new
detached_pair = refl

detect_detached_island-Explains_example :
    (island : Option (List CellPos)) × (seen : List CellPos) × (detect_detached_island content hard
        world seed []
      ≡ some (island, seen))
    × Explains content hard world seed island
detect_detached_island-Explains_example = detect_detached_island-Explains content hard world seed []
