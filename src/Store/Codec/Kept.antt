-- ===== src/Store/Codec/Kept.antt =====
-- What a region is after it was stored and loaded.
use fallingsand.Prelude.{
  ℕ, suc, ◌+◌, ◌*◌, ◌/◌, ◌%◌, ◌<◌, ◌≡◌, refl, ap, ◌∙◌, arith, inl, inr, leb, Bool-cases, true,
  false, eq→==, is_some, List, [], ◌∷◌, length, All, replicate, length-replicate,
}
use fallingsand.Cell.{Cell, MaterialId, IsCell, signed16, pattern16, clamp_i16}
use fallingsand.Cell as Cell
use fallingsand.Material.{Tags}
use fallingsand.Material as Material
use fallingsand.Chunk.State.{Chunk}
use fallingsand.Chunk.State as Chunk
use fallingsand.Chunk.Rect.Defs as Rect
use fallingsand.Store.Region.{Region}
use fallingsand.Store.Codec.Defs.{
  ok, CellRecord, ChunkRecord, settled, to_record, to_records, restore, restore_cells,
  restore_chunk, restore_chunks, all_known, chunk_record, chunk_records,
}

bytes_back :
    (a b : ℕ)
    → a < 256
    → b < 256
    → (pattern16 (clamp_i16 (signed16 (a + 256 * b))) % 256 ≡ a)
      × (pattern16 (clamp_i16 (signed16 (a + 256 * b))) / 256 ≡ b)
bytes_back a b h k = ground arith

pub new_long : length Chunk.new.cells ≡ 4096
unfolding Chunk.new
new_long = length-replicate 4096 Cell.air

module _ (tags : MaterialId → Tags) where
  -- The cell as it is stored, without flags.
  abbrev pub kept_cell : Cell → Cell
  kept_cell c = record (settled tags c) { flags = 0 }

  abbrev pub kept_cells : List Cell → List Cell
  kept_cells [] = []
  kept_cells (c ∷ cs) = kept_cell c ∷ kept_cells cs

  -- A new chunk with these cells and the fog, all of it to be simulated.
  abbrev pub kept_chunk : Chunk → Chunk
  kept_chunk c = record Chunk.new { cells = kept_cells c.cells; fog = c.fog; sim = Rect.full }

  abbrev pub kept_chunks : List Chunk → List Chunk
  kept_chunks [] = []
  kept_chunks (c ∷ cs) = kept_chunk c ∷ kept_chunks cs

  abbrev pub kept_region : Region → Region
  kept_region r = record { chunks = kept_chunks r.chunks }

  abbrev pub recorded : Chunk → ChunkRecord
  recorded c = record { cells = to_records tags c.cells; fog = c.fog.bytes }

  abbrev pub all_recorded : List Chunk → List ChunkRecord
  all_recorded [] = []
  all_recorded (c ∷ cs) = recorded c ∷ all_recorded cs

  pub length-all_recorded : (cs : List Chunk) → length (all_recorded cs) ≡ length cs
  length-all_recorded [] = refl
  length-all_recorded (c ∷ cs) = ap suc (length-all_recorded cs)

module _ (mc : ℕ) where
  abbrev pub IsKnown : Cell → Type 0
  IsKnown c = IsCell c × (c.material < mc)

  abbrev pub IsStored : Chunk → Type 0
  IsStored c = (length c.cells ≡ 4096) × All IsKnown c.cells × (length c.fog.bytes ≡ 32)

  abbrev Fits : Cell → Type 0
  Fits c =
      ((c.payload.0 < 256) × (c.payload.1 < 256) × (c.payload.2 < 256) × (c.payload.3 < 256))
      × (c.material < mc)

  unrecord : (c : Cell) → CellRecord
  unfolding Cell.vel
  unrecord c = record {
    material = c.material;
    vx = (Cell.vel c).0;
    vy = (Cell.vel c).1;
    shade = c.shade;
  }

  restore-unrecord : (c : Cell) → Fits c → restore mc (unrecord c) ≡ ok (record c { flags = 0 })
  unfolding unrecord restore Cell.vel Cell.new Cell.set_vel
  restore-unrecord c (h, k) =
      let x = bytes_back c.payload.0 c.payload.1 h.0 h.1 in
      let y = bytes_back c.payload.2 c.payload.3 h.2 h.3 in
      let known : leb mc c.material ≡ false = ground arith in
      rw (restore, known, x.0, x.1, y.0, y.1) refl

  module _ (tags : MaterialId → Tags) (some_material : 0 < mc) where
    clear_body-Fits : (c : Cell) → Fits c → Fits (Cell.clear_body c)
    unfolding Cell.clear_body
    clear_body-Fits c h = elim (Bool-cases (Cell.flag Cell.body_bit c)) [
      | inl e ↦ rw (Cell.clear_body, e) ((omega arith, omega arith, omega arith, omega arith), h.1)
      | inr e ↦ rw (Cell.clear_body, e) h
    ]

    settled-Fits : (c : Cell) → Fits c → Fits (settled tags c)
    unfolding settled Cell.air
    settled-Fits c h = elim (Bool-cases (is_some (Cell.body_id c))) [
      | inr e ↦ rw (settled, e) h
      | inl e ↦ elim (Bool-cases (Material.contains (tags c.material) Material.body_tag)) [
        | inl k ↦
            rw (settled, e, k) ((omega arith, omega arith, omega arith, omega arith), some_material)
        | inr k ↦ rw (settled, e, k) (clear_body-Fits c h)
      ]
    ]

    restore-to_record :
        (c : Cell) → IsKnown c → restore mc (to_record tags c) ≡ ok (kept_cell tags c)
    unfolding to_record unrecord
    restore-to_record c h = restore-unrecord (settled tags c) (settled-Fits c (h.0.1, h.1))

    restore_cells-to_records :
        (olds cs : List Cell)
        → length olds ≡ length cs
        → All IsKnown cs
        → restore_cells mc olds (to_records tags cs) ≡ ok (kept_cells tags cs)
    unfolding restore_cells
    restore_cells-to_records [] [] e h = refl
    restore_cells-to_records [] (c ∷ cs) e h = absurd (omega (arith, e))
    restore_cells-to_records (o ∷ os) [] e h = absurd (omega (arith, e))
    restore_cells-to_records (o ∷ os) (c ∷ cs) e h =
        rw
          (
            restore_cells,
            restore-to_record c h.0,
            restore_cells-to_records os cs (omega (arith, e)) h.1,
          )
          refl

    to_record-material : (c : Cell) → IsKnown c → (to_record tags c).material < mc
    unfolding to_record
    to_record-material c h = (settled-Fits c (h.0.1, h.1)).1

    all_known-to_records :
        (cs : List Cell) → All IsKnown cs → all_known mc (to_records tags cs) ≡ true
    all_known-to_records [] h = refl
    all_known-to_records (c ∷ cs) h =
        let known : leb mc (to_record tags c).material ≡ false =
          ground (arith, to_record-material c h.0) in
        rw (known) (all_known-to_records cs h.1)

    length-to_records : (cs : List Cell) → length (to_records tags cs) ≡ length cs
    length-to_records [] = refl
    length-to_records (c ∷ cs) = ap suc (length-to_records cs)

    pub chunk_records_lem :
        (cs : List Chunk) → All IsStored cs → chunk_records mc tags cs ≡ ok (all_recorded tags cs)
    unfolding chunk_records chunk_record
    chunk_records_lem [] h = refl
    chunk_records_lem (c ∷ cs) h =
        rw
          (
            chunk_records,
            chunk_record,
            all_known-to_records c.cells h.0.1,
            chunk_records_lem cs h.1,
          )
          refl

    restore_chunk-recorded :
        (c : Chunk)
        → IsStored c
        → restore_chunk mc Chunk.new (recorded tags c) ≡ ok (kept_chunk tags c)
    unfolding restore_chunk Chunk.restore_fog
    restore_chunk-recorded c (long, known, fog) =
        rw
          (
            restore_chunk,
            eq→== (length (to_records tags c.cells)) 4096 (length-to_records c.cells ∙ long),
            restore_cells-to_records Chunk.new.cells c.cells (omega (arith, long, new_long)) known,
            fog,
          )
          refl

    pub restore_chunks-all_recorded :
        (cs : List Chunk)
        → All IsStored cs
        → restore_chunks mc (replicate (length cs) Chunk.new) (all_recorded tags cs)
          ≡ ok (kept_chunks tags cs)
    unfolding restore_chunks
    restore_chunks-all_recorded [] h = refl
    restore_chunks-all_recorded (c ∷ cs) h =
        rw (restore_chunks, restore_chunk-recorded c h.0, restore_chunks-all_recorded cs h.1) refl
