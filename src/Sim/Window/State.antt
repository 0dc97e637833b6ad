-- ===== src/Sim/Window/State.antt =====
-- The window and its operations (crates/fallingsand_sim/src/window.rs). Its chunks are 16 slots; the
-- references to them are the chunks themselves. A debug build asserts that no access leaves the window;
-- a release build ignores such an access, and so does this model. The offset of a cell has six bits
-- each way, so the accesses to a chunk are in bounds.
use fallingsand.Prelude.{
  ℕ, zero, suc, ◌+◌, ◌-◌, ◌*◌, Bool, true, false, not, ◌&&◌, ◌||◌, ltb, ◌==◌, if◌then◌else◌, Option,
  none, some, List, [], ◌∷◌, ◌++◌, get_or,
}
use fallingsand.Prelude as Prelude
use fallingsand.Prelude.Int.{ℤ, max_ℤ, pos}
use fallingsand.Prelude.Words.{sub_i32, minus_one}
use fallingsand.Coords.{CellPos, CellOffset, ChunkPos}
use fallingsand.Coords.Cells
use fallingsand.Cell.{Cell, MaterialId}
use fallingsand.Cell as Cell
use fallingsand.Material.{solid, powder_phase}
use fallingsand.Chunk.State.{Chunk}
use fallingsand.Chunk.State as Chunk
use fallingsand.Chunk.Rect.Defs as Rect
use fallingsand.Sim.Content.{Content}

pub data BodyImpulse : Type 0 where
  strike : ℕ → CellPos → CellPos → ℤ → BodyImpulse
  load : ℕ → CellPos → ℤ → BodyImpulse

pub record Window : Type 0 where
  pub origin : ChunkPos
  pub slots : List (Option Chunk)
  pub impulses : List BodyImpulse
  pub unseated : List CellPos

unfoldable pub new : ChunkPos → List (Option Chunk) → Window
new origin slots = record { origin = origin; slots = slots; impulses = []; unseated = [] }

unfoldable pub set_slot : Window → ℕ → ℕ → Chunk → Window
set_slot w sx sy chunk = record w { slots = Prelude.set w.slots (sy * 4 + sx) (some chunk) }

-- `sx` and `sy` as patterns: a negative number is out of range as well.
unfoldable pub chunk_at : Window → ℕ → ℕ → Option Chunk
chunk_at w sx sy = if ltb sx 4 && ltb sy 4 then get_or w.slots (sy * 4 + sx) none else none

-- `wrapping_sub`, and the test that both differences are from 0 to 3.
unfoldable pub slot_of : ChunkPos → CellPos → Option ℕ
unfolding Cells.chunk
slot_of origin p =
    let sx = sub_i32 (Cells.chunk p).x origin.x in
    let sy = sub_i32 (Cells.chunk p).y origin.y in
    if ltb sx 4 && ltb sy 4 then some (sy * 4 + sx) else none

-- The slot of a position and the chunk in it.
unfoldable pub find : Window → CellPos → Option (ℕ × Chunk)
unfolding slot_of
find w p = elim (slot_of w.origin p) [
  | none ↦ none
  | some slot ↦ elim (get_or w.slots slot none) [ none ↦ none | some chunk ↦ some (slot, chunk) ]
]

unfoldable pub get : Window → CellPos → Option Cell
unfolding find Cells.offset Chunk.get
get w p = elim (find w p) [ none ↦ none | some (slot, chunk) ↦ Chunk.get chunk (Cells.offset p) ]

-- A write through the reference to the chunk in a slot.
unfoldable pub put : Window → ℕ → Chunk → Window
put w slot chunk = record w { slots = Prelude.set w.slots slot (some chunk) }

unfoldable pub mark : Window → CellPos → Window
unfolding find put Cells.offset Rect.mark
mark w p = elim (find w p) [
  | none ↦ w
  | some (slot, chunk) ↦ put w slot (record chunk { sim = Rect.mark chunk.sim (Cells.offset p) })
]

abbrev pub same_chunk : ChunkPos → ChunkPos → Bool
same_chunk a b = a.x == b.x && a.y == b.y

-- One round of the loops of `mark_sim_border`.
unfoldable pub mark_across : CellPos → Window → ℕ × ℕ → Window
unfolding mark Cells.translated Cells.chunk
mark_across p w (dx, dy) =
    let n = Cells.translated p dx dy in
    if same_chunk (Cells.chunk n) (Cells.chunk p) then w else mark w n

unfoldable pub mark_all_across : CellPos → List (ℕ × ℕ) → Window → Window
unfolding mark_across
mark_all_across p [] w = w
mark_all_across p (d ∷ ds) w = mark_all_across p ds (mark_across p w d)

-- `dy` and `dx` from -1 to 1.
abbrev pub around : List (ℕ × ℕ)
around =
    (minus_one, minus_one)
    ∷ (0, minus_one)
    ∷ (1, minus_one)
    ∷ (minus_one, 0)
    ∷ (0, 0)
    ∷ (1, 0)
    ∷ (minus_one, 1)
    ∷ (0, 1)
    ∷ (1, 1)
    ∷ []

abbrev pub on_border : CellOffset → Bool
on_border o = o.x == 0 || o.x == 63 || o.y == 0 || o.y == 63

unfoldable pub mark_sim_border : Window → CellPos → Window
unfolding mark_all_across Cells.offset
mark_sim_border w p = if on_border (Cells.offset p) then mark_all_across p around w else w

-- The cell read and written in a chunk, with the cell that stood there before.
unfoldable pub exchange : Chunk → CellOffset → Cell → Option (Cell × Chunk)
unfolding Chunk.get Chunk.set
exchange chunk o cell = elim (Chunk.get chunk o) [
  | none ↦ none
  | some old ↦ elim (Chunk.set chunk o cell) [ none ↦ none | some chunk' ↦ some (old, chunk') ]
]

-- A cell comes loose.
unfoldable pub unseat : Window → CellPos → Window
unseat w p = record w { unseated = w.unseated ++ (p ∷ []) }

-- `load_body`.
unfoldable pub load_body : Window → ℕ → CellPos → ℤ → Window
load_body w id body_cell jy = record w { impulses = w.impulses ++ (load id body_cell jy ∷ []) }

-- The mover as it arrives, and so the cell that it displaces: moved, and no more stressed.
abbrev pub stirred : Cell → Cell
stirred c = Cell.clear_stressed (Cell.set_moved c)

module _ (content : Content) where
  -- `obstructs` (crates/fallingsand_sim/src/world.rs).
  unfoldable pub obstructs : MaterialId → Bool
  obstructs m = elim (content.phase m) [ solid ↦ true | powder_phase ↦ true | _ ↦ false ]

  unfoldable pub set : Window → CellPos → Cell → Window
  unfolding find put exchange mark_sim_border unseat obstructs Cells.offset
  set w p cell = elim (find w p) [
    | none ↦ w
    | some (slot, chunk) ↦ elim (exchange chunk (Cells.offset p) cell) [
      | none ↦ w
      | some (old, chunk') ↦
          let written = put w slot chunk' in
          let loose =
            if obstructs old.material && not (obstructs cell.material)
            then unseat written p
            else written in
          mark_sim_border loose p
    ]
  ]

  -- The mass of a cell as an impulse counts it.
  abbrev pub mass_of : MaterialId → ℤ
  mass_of m = max_ℤ (content.density_milli m) (pos 1)

  unfoldable pub struck_body : Window → Cell → CellPos → CellPos → Window × Bool
  unfolding get Cell.body_id
  struck_body w mover grain body_cell = elim (get w body_cell) [
    | none ↦ (w, false)
    | some cell ↦ elim (Cell.body_id cell) [
      | none ↦ (w, false)
      | some id ↦ (
        record w {
          impulses = w.impulses ++ (strike id body_cell grain (mass_of mover.material) ∷ []);
        },
        true,
      )
    ]
  ]

  -- `content::bond_group(cell.material) != u8::MAX`.
  abbrev pub bondable : MaterialId → Bool
  bondable m = not (content.bond_group m == 255)

  abbrev pub xor : Bool → Bool → Bool
  xor true b = not b
  xor false b = b

  unfoldable pub loosens : MaterialId → MaterialId → Bool
  unfolding obstructs
  loosens old new =
      not (old == new) && (xor (obstructs old) (obstructs new) || bondable old || bondable new)

  -- The body that the cell in place belongs to keeps the cell.
  unfoldable pub in_body_of : Cell → Cell → Cell
  unfolding Cell.body_id Cell.set_body Cell.clear_body
  in_body_of old cell = elim (Cell.body_id old) [
    | some id ↦ Cell.set_body cell id
    | none ↦ Cell.clear_body cell
  ]

  unfoldable pub transform : Window → CellPos → Cell → Window
  unfolding find put exchange mark_sim_border unseat loosens in_body_of Cells.offset Chunk.get
      Chunk.set
  transform w p cell = elim (find w p) [
    | none ↦ w
    | some (slot, chunk) ↦ elim (Chunk.get chunk (Cells.offset p)) [
      | none ↦ w
      | some old ↦
          let placed = in_body_of old cell in
          elim (Chunk.set chunk (Cells.offset p) placed) [
            | none ↦ w
            | some chunk' ↦
                let marked = mark_sim_border (put w slot chunk') p in
                if loosens old.material placed.material then unseat marked p else marked
          ]
    ]
  ]

  unfoldable pub swap : Window → CellPos → CellPos → Window
  unfolding get set Cell.clear_stressed Cell.set_moved
  swap w mover target = elim (get w mover) [
    | none ↦ w
    | some moving ↦ elim (get w target) [
      | none ↦ w
      | some displaced ↦ set (set w mover (stirred displaced)) target (stirred moving)
    ]
  ]
