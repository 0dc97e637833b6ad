-- ===== src/Store/Codec/Defs.antt =====
-- `encode_region` and `decode_region`. The serializer, the compressor and the tables of the content come
-- from elsewhere: parameters. The texts of the errors are left out.
use fallingsand.Prelude.{
  ℕ, leb, ltb, not, ◌==◌, if◌then◌else◌, Bool, Option, none, some, is_some, List, [], ◌∷◌, length,
}
use fallingsand.Prelude.Int.{ℤ}
use fallingsand.Cell.{Cell, MaterialId, signed16, pattern16}
use fallingsand.Cell as Cell
use fallingsand.Material.{Tags, Tag}
use fallingsand.Material as Material
use fallingsand.Chunk.State.{Chunk, restore_fog}
use fallingsand.Chunk.Rect.Defs as Rect
use fallingsand.Store.Region.{Region}
use fallingsand.Store.Region as Region

-- `StoreError`, as far as the codec returns it.
pub data StoreError : Type 0 where
  corrupt_region corrupt_record : StoreError
  unsupported_region : ℕ → StoreError

pub data StoreResult (A : Type 0) : Type 0 where
  ok : A → StoreResult A
  err : StoreError → StoreResult A

-- One more element before the elements of a result.
abbrev pub prepend : {A : Type 0} → A → StoreResult (List A) → StoreResult (List A)
prepend a (ok items) = ok (a ∷ items)
prepend a (err e) = err e

-- A velocity component is the `i16` that it stands for.
pub record CellRecord : Type 0 where
  pub material : ℕ
  pub vx : ℤ
  pub vy : ℤ
  pub shade : ℕ

pub record ChunkRecord : Type 0 where
  pub cells : List CellRecord
  pub fog : List ℕ

pub record RegionRecord : Type 0 where
  pub chunks : List ChunkRecord

abbrev pub region_format_version : ℕ
region_format_version = 28

abbrev pub max_raw_region_bytes : ℕ
max_raw_region_bytes = 67_108_864

-- The cell that `From<Cell>` stores, in place of one that belongs to a body.
module _ (tags : MaterialId → Tags) where
  unfoldable pub settled : Cell → Cell
  unfolding Cell.body_id Material.contains Cell.clear_body Cell.air
  settled cell =
      if is_some (Cell.body_id cell)
      then (if Material.contains (tags cell.material) Material.body_tag
          then Cell.air
          else Cell.clear_body cell)
      else cell

  -- `as i16` keeps the value of an `i16`.
  unfoldable pub to_record : Cell → CellRecord
  unfolding settled Cell.vel
  to_record cell =
      let c = settled cell in
      record { material = c.material; vx = (Cell.vel c).0; vy = (Cell.vel c).1; shade = c.shade }

abbrev pub to_records : (MaterialId → Tags) → List Cell → List CellRecord
to_records tags [] = []
to_records tags (c ∷ cs) = to_record tags c ∷ to_records tags cs

module _ (material_count : ℕ) where
  unfoldable pub restore : CellRecord → StoreResult Cell
  unfolding Cell.new Cell.set_vel
  restore r =
      let fresh : Cell = Cell.new r.material 0 in
      let shaded : Cell = record fresh { shade = r.shade } in
      if leb material_count r.material
      then err corrupt_region
      else ok (Cell.set_vel shaded r.vx r.vy)

  -- The loop over the cells of a chunk, `iter_mut().zip(..)`.
  unfoldable pub restore_cells : List Cell → List CellRecord → StoreResult (List Cell)
  unfolding restore
  restore_cells [] rs = ok []
  restore_cells (c ∷ cs) [] = ok (c ∷ cs)
  restore_cells (c ∷ cs) (r ∷ rs) = elim (restore r) [
    | err e ↦ err e
    | ok cell ↦ prepend cell (restore_cells cs rs)
  ]

  -- The body of the loop over the chunks.
  unfoldable pub restore_chunk : Chunk → ChunkRecord → StoreResult Chunk
  unfolding restore_cells restore_fog
  restore_chunk chunk stored =
      if not (length stored.cells == 4096)
      then err corrupt_region
      else (elim (restore_cells chunk.cells stored.cells) [
        | err e ↦ err e
        | ok cells ↦
            let filled : Chunk = record chunk { cells = cells } in
            let seen : Chunk = restore_fog filled (record { bytes = stored.fog }) in
            if not (length stored.fog == 32)
            then err corrupt_region
            else ok (record seen { sim = Rect.full })
      ])

  unfoldable pub restore_chunks : List Chunk → List ChunkRecord → StoreResult (List Chunk)
  unfolding restore_chunk
  restore_chunks [] rs = ok []
  restore_chunks (c ∷ cs) [] = ok (c ∷ cs)
  restore_chunks (c ∷ cs) (r ∷ rs) = elim (restore_chunk c r) [
    | err e ↦ err e
    | ok chunk ↦ prepend chunk (restore_chunks cs rs)
  ]

  abbrev pub all_known : List CellRecord → Bool
  all_known [] = Bool.true
  all_known (r ∷ rs) = if leb material_count r.material then Bool.false else all_known rs

  unfoldable pub chunk_record : (MaterialId → Tags) → Chunk → StoreResult ChunkRecord
  unfolding to_record
  chunk_record tags chunk =
      let cells = to_records tags chunk.cells in
      if all_known cells
      then ok (record { cells = cells; fog = chunk.fog.bytes })
      else err corrupt_region

  unfoldable pub chunk_records : (MaterialId → Tags) → List Chunk → StoreResult (List ChunkRecord)
  unfolding chunk_record
  chunk_records tags [] = ok []
  chunk_records tags (c ∷ cs) = elim (chunk_record tags c) [
    | err e ↦ err e
    | ok r ↦ prepend r (chunk_records tags cs)
  ]

-- `postcard::to_allocvec` and `from_bytes`; `compress_prepend_size`, `uncompressed_size` and
-- `decompress` of lz4_flex.
module _ (material_count : ℕ) (to_bytes : RegionRecord → Option (List ℕ))
    (from_bytes : List ℕ → Option RegionRecord) (compress : List ℕ → List ℕ)
    (uncompressed_size : List ℕ → Option (ℕ × List ℕ))
    (decompress : List ℕ → ℕ → Option (List ℕ)) where
  unfoldable pub encode_region : (MaterialId → Tags) → Region → StoreResult (List ℕ)
  unfolding chunk_records
  encode_region tags region = elim (chunk_records material_count tags region.chunks) [
    | err e ↦ err e
    | ok chunks ↦ elim (to_bytes (record { chunks = chunks })) [
      | none ↦ err corrupt_record
      | some raw ↦ ok (region_format_version ∷ compress raw)
    ]
  ]

  -- What follows the serialized record.
  unfoldable pub restore_region : RegionRecord → StoreResult Region
  unfolding restore_chunks Region.new
  restore_region stored =
      if not (length stored.chunks == 64)
      then err corrupt_region
      else (elim (restore_chunks material_count Region.new.chunks stored.chunks) [
        | err e ↦ err e
        | ok chunks ↦ ok (record { chunks = chunks })
      ])

  -- From the size and the body of the compressed bytes.
  unfoldable pub decode_body : ℕ → List ℕ → StoreResult Region
  unfolding restore_region
  decode_body raw_len body =
      if ltb max_raw_region_bytes raw_len
      then err corrupt_region
      else (elim (decompress body raw_len) [
        | none ↦ err corrupt_region
        | some raw ↦ elim (from_bytes raw) [
          | none ↦ err corrupt_record
          | some stored ↦ restore_region stored
        ]
      ])

  unfoldable pub decode_region : List ℕ → StoreResult Region
  unfolding decode_body
  decode_region [] = err corrupt_region
  decode_region (version ∷ compressed) =
      if not (version == region_format_version)
      then err (unsupported_region version)
      else (elim (uncompressed_size compressed) [
        | none ↦ err corrupt_region
        | some (raw_len, body) ↦ decode_body raw_len body
      ])
