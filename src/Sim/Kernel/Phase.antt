-- ===== src/Sim/Kernel/Phase.antt =====
-- One phase (crates/fallingsand_sim/src/kernel.rs): the blocks of its parity that have a chunk to run,
-- the window around each, and the chunks handed to the windows and back.
use fallingsand.Prelude.{
  ℕ, zero, suc, ◌+◌, ◌*◌, ◌/◌, ◌%◌, Bool, true, false, not, ◌&&◌, ◌||◌, ltb, ◌==◌, if◌then◌else◌,
  Option, none, some, List, [], ◌∷◌, ◌++◌, get_or, replicate, length,
}
use fallingsand.Prelude as Prelude
use fallingsand.Prelude.Words.{sub_i32, shr_i32, shl_i32, lt_i32}
use fallingsand.Coords.{ChunkPos, CellPos}
use fallingsand.Chunk.State.{Chunk}
use fallingsand.Sim.Window.{Window, BodyImpulse, set_slot, chunk_at, same_chunk}
use fallingsand.Sim.World.{Chunks}

-- `((pos.x >> 1) << 1) - 1`, and so for `y`.
unfoldable pub origin_of : ChunkPos → ChunkPos
origin_of c = record {
  x = sub_i32 (shl_i32 (shr_i32 c.x 1) 1) 1;
  y = sub_i32 (shl_i32 (shr_i32 c.y 1) 1) 1;
}

-- The phase of the block of a chunk: the parities of `pos >> 1`.
unfoldable pub in_phase : ℕ → ChunkPos → Bool
in_phase phase c = (shr_i32 c.x 1 % 2 == phase % 2) && (shr_i32 c.y 1 % 2 == phase / 2 % 2)

-- The order of positions: by `x`, then by `y`.
abbrev pub before : ChunkPos → ChunkPos → Bool
before a b = lt_i32 a.x b.x || (a.x == b.x && lt_i32 a.y b.y)

-- `sort_unstable` and `dedup`, one origin at a time.
unfoldable pub insert_origin : ChunkPos → List ChunkPos → List ChunkPos
insert_origin c [] = c ∷ []
insert_origin c (d ∷ ds) =
    if same_chunk c d then d ∷ ds else if before c d then c ∷ d ∷ ds else d ∷ insert_origin c ds

unfoldable pub origins : ℕ → (ChunkPos → Chunk → Bool) → Chunks → List ChunkPos
unfolding in_phase origin_of insert_origin
origins phase schedule [] = []
origins phase schedule ((c, chunk) ∷ rest) =
    let more = origins phase schedule rest in
    if in_phase phase c && schedule c chunk then insert_origin (origin_of c) more else more

-- The slot of a chunk in the window at an origin.
unfoldable pub slot_in : ChunkPos → ChunkPos → Option (ℕ × ℕ)
slot_in origin c =
    let sx = sub_i32 c.x origin.x in
    let sy = sub_i32 c.y origin.y in if ltb sx 4 && ltb sy 4 then some (sx, sy) else none

-- `members.get(&pos)`: the window and slot inserted last, with the windows counted from an index.
unfoldable pub member : List ChunkPos → ℕ → ChunkPos → Option (ℕ × (ℕ × ℕ))
unfolding slot_in
member [] i c = none
member (o ∷ os) i c = elim (member os (i + 1) c) [
  | some m ↦ some m
  | none ↦ elim (slot_in o c) [ none ↦ none | some s ↦ some (i, s) ]
]

abbrev pub empty_window : ChunkPos → Window
empty_window o = record { origin = o; slots = replicate 16 none; impulses = []; unseated = [] }

-- `windows[index].set_slot(sx, sy, chunk)`.
unfoldable pub set_in : List Window → ℕ → ℕ × ℕ → Chunk → List Window
unfolding set_slot
set_in [] i s chunk = []
set_in (w ∷ ws) zero (sx, sy) chunk = set_slot w sx sy chunk ∷ ws
set_in (w ∷ ws) (suc i) s chunk = w ∷ set_in ws i s chunk

-- The loop that hands the chunks to the windows.
unfoldable pub hand_out : List ChunkPos → Chunks → List Window → List Window
unfolding member set_in
hand_out os [] ws = ws
hand_out os ((c, chunk) ∷ rest) ws = elim (member os 0 c) [
  | none ↦ hand_out os rest ws
  | some (i, s) ↦ hand_out os rest (set_in ws i s chunk)
]

-- A kernel on every window; `none` where a rule panicked or ran out of fuel.
unfoldable pub each_window : (Window → Option Window) → List Window → Option (List Window)
each_window kernel [] = some []
each_window kernel (w ∷ ws) = elim (kernel w) [
  | none ↦ none
  | some w' ↦ elim (each_window kernel ws) [ none ↦ none | some ws' ↦ some (w' ∷ ws') ]
]

-- The windows write through their references: the chunk of a position as its window left it.
unfoldable pub written_back : List Window → Option (ℕ × (ℕ × ℕ)) → Chunk → Chunk
unfolding chunk_at
written_back ws none chunk = chunk
written_back ws (some (i, (sx, sy))) chunk = elim (Prelude.get_elem? ws i) [
  | none ↦ chunk
  | some w ↦ elim (chunk_at w sx sy) [ none ↦ chunk | some chunk' ↦ chunk' ]
]

unfoldable pub hand_back : List ChunkPos → List Window → Chunks → Chunks
unfolding member written_back
hand_back os ws [] = []
hand_back os ws ((c, chunk) ∷ rest) =
    (c, written_back ws (member os 0 c) chunk) ∷ hand_back os ws rest

abbrev pub all_impulses : List Window → List BodyImpulse
all_impulses [] = []
all_impulses (w ∷ ws) = w.impulses ++ all_impulses ws

abbrev pub all_unseated : List Window → List CellPos
all_unseated [] = []
all_unseated (w ∷ ws) = w.unseated ++ all_unseated ws

abbrev pub empty_windows : List ChunkPos → List Window
empty_windows [] = []
empty_windows (o ∷ os) = empty_window o ∷ empty_windows os

-- `KernelEffects`.
pub record KernelEffects : Type 0 where
  pub impulses : List BodyImpulse
  pub unseated : List CellPos

unfoldable pub run_phase :
    ℕ
    → (ChunkPos → Chunk → Bool)
    → (Window → Option Window)
    → Chunks × KernelEffects
    → Option (Chunks × KernelEffects)
unfolding origins hand_out each_window hand_back
run_phase phase schedule kernel (cs, effects) =
    let os = origins phase schedule cs in
    elim (each_window kernel (hand_out os cs (empty_windows os))) [
      | none ↦ none
      | some ws ↦ some (
        hand_back os ws cs,
        record {
          impulses = effects.impulses ++ all_impulses ws;
          unseated = effects.unseated ++ all_unseated ws;
        },
      )
    ]
