-- ===== src/Chunk/Fog/Bits/Tests.antt =====
-- Concrete masks.
use fallingsand.Prelude.{◌≡◌, arith, false, none, some}
use fallingsand.Chunk.Fog.Mask.{full, get, assign, full-IsMask}
use fallingsand.Chunk.Fog.Bits.{get-assign}

get-assign_example : elim (assign full 77 false) [ none ↦ none | some m' ↦ get m' 77 ] ≡ some false
get-assign_example = get-assign full 77 77 false full-IsMask (omega arith) (omega arith)
