-- ===== src/Store/Codec/Accepted.antt =====
-- What `decode_region` accepts.
use fallingsand.Prelude.{
  ℕ, suc, ◌<◌, ◌≡◌, refl, ap, arith, inl, inr, leb, leb→lt, ltb, ◌==◌, ==_iff, Bool-cases, Option,
  Option-cases, List, [], ◌∷◌, length, All, replicate, subst, ◌∙◌, ◌⊎◌,
}
use fallingsand.Cell.{Cell, MaterialId}
use fallingsand.Cell as Cell
use fallingsand.Chunk.State.{Chunk}
use fallingsand.Chunk.State as Chunk
use fallingsand.Chunk.Rect.Defs as Rect
use fallingsand.Store.Region.{Region}
use fallingsand.Store.Region as Region
use fallingsand.Store.Codec.Defs.{
  StoreResult, StoreError, ok, err, prepend, CellRecord, ChunkRecord, RegionRecord, restore,
  restore_cells, restore_chunk, restore_chunks, restore_region, decode_body, decode_region,
  max_raw_region_bytes, region_format_version,
}
use fallingsand.Store.Codec.Kept.{new_long}

-- An error, or what the predicate says.
abbrev pub Holds : {A : Type 0} → (A → Type 0) → StoreResult A → Type 0
Holds P (ok a) = P a
Holds P (err e) = Unit

Result-cases :
    {A : Type 0} (r : StoreResult A) → ((e : StoreError) × (r ≡ err e)) ⊎ ((a : A) × (r ≡ ok a))
Result-cases (err e) = inl (e, refl)
Result-cases (ok a) = inr (a, refl)

module _ (mc : ℕ) where
  abbrev pub IsMade : Cell → Type 0
  IsMade c = c.material < mc

  abbrev pub IsLoadedChunk : Chunk → Type 0
  IsLoadedChunk c =
      (length c.cells ≡ 4096) × All IsMade c.cells × (length c.fog.bytes ≡ 32) × (c.sim ≡ Rect.full)

  -- 64 chunks with 4096 cells of materials that exist, all to be simulated, and 32 bytes of fog.
  abbrev pub IsLoaded : Region → Type 0
  IsLoaded r = (length r.chunks ≡ 64) × All IsLoadedChunk r.chunks

  restore-IsMade : (r : CellRecord) → Holds IsMade (restore mc r)
  unfolding restore Cell.set_vel Cell.new
  restore-IsMade r = elim (Bool-cases (leb mc r.material)) [
    | inl h ↦ rw (restore, h) tt
    | inr h ↦ rw (restore, h) (leb→lt mc r.material h)
  ]

  abbrev AllMade : ℕ → List Cell → Type 0
  AllMade n cs = (length cs ≡ n) × All IsMade cs

  prepend_made :
      (n : ℕ) (c : Cell) (r : StoreResult (List Cell))
      → IsMade c
      → Holds (AllMade n) r
      → Holds (AllMade (suc n)) (prepend c r)
  prepend_made n c (err e) h k = tt
  prepend_made n c (ok cs) h (k, ks) = (ap suc k, (h, ks))

  restore_cells_made :
      (olds : List Cell) (rs : List CellRecord)
      → length olds ≡ length rs
      → Holds (AllMade (length rs)) (restore_cells mc olds rs)
  unfolding restore_cells
  restore_cells_made [] [] e = (refl, tt)
  restore_cells_made [] (r ∷ rs) e = absurd (omega (arith, e))
  restore_cells_made (o ∷ os) [] e = absurd (omega (arith, e))
  restore_cells_made (o ∷ os) (r ∷ rs) e =
      let rest = restore_cells_made os rs (omega (arith, e)) in
      elim (restore mc r)
          as (λ x.
            Holds IsMade x
            → Holds (AllMade (suc (length rs)))
                (elim x [ err e ↦ err e | ok cell ↦ prepend cell (restore_cells mc os rs) ])) [
                  | err x ↦ λ k. tt
                  | ok c ↦ λ k. prepend_made (length rs) c (restore_cells mc os rs) k rest
                ]
        (restore-IsMade r)

  restore_chunk_made :
      (stored : ChunkRecord) → Holds IsLoadedChunk (restore_chunk mc Chunk.new stored)
  unfolding restore_chunk Chunk.restore_fog
  restore_chunk_made stored =
      let made = λ (h : length stored.cells ≡ 4096).
        restore_cells_made Chunk.new.cells stored.cells (omega (arith, new_long, h)) in
      elim (Bool-cases (length stored.cells == 4096)) [
        | inr h ↦ rw (restore_chunk, h) tt
        | inl h ↦ elim (Result-cases (restore_cells mc Chunk.new.cells stored.cells)) [
          | inl (x, e) ↦ rw (restore_chunk, h, e) tt
          | inr (cs, e) ↦ elim (Bool-cases (length stored.fog == 32)) [
            | inr k ↦ rw (restore_chunk, h, e, k) tt
            | inl k ↦
                let long = (==_iff (length stored.cells) 4096).0 h in
                let known = subst (Holds (AllMade (length stored.cells))) e (made long) in
                rw (restore_chunk, h, e, k)
                  (known.0 ∙ long, known.1, (==_iff (length stored.fog) 32).0 k, refl)
          ]
        ]
      ]

  prepend_loaded :
      (n : ℕ) (c : Chunk) (r : StoreResult (List Chunk))
      → IsLoadedChunk c
      → Holds (λ cs. (length cs ≡ n) × All IsLoadedChunk cs) r
      → Holds (λ cs. (length cs ≡ suc n) × All IsLoadedChunk cs) (prepend c r)
  prepend_loaded n c (err e) h k = tt
  prepend_loaded n c (ok cs) h (k, ks) = (ap suc k, (h, ks))

  restore_chunks_loaded :
      (rs : List ChunkRecord)
      → Holds
          (λ cs. (length cs ≡ length rs) × All IsLoadedChunk cs)
          (restore_chunks mc (replicate (length rs) Chunk.new) rs)
  unfolding restore_chunks
  restore_chunks_loaded [] = (refl, tt)
  restore_chunks_loaded (r ∷ rs) =
      let rest = restore_chunks_loaded rs in
      elim (Result-cases (restore_chunk mc Chunk.new r)) [
        | inl (x, e) ↦ rw (restore_chunks, e) tt
        | inr (c, e) ↦
            let made = subst (Holds IsLoadedChunk) e (restore_chunk_made r) in
            rw (restore_chunks, e)
              (prepend_loaded (length rs) c (restore_chunks mc (replicate (length rs) Chunk.new) rs)
                made rest)
      ]

  module _ (to_bytes : RegionRecord → Option (List ℕ)) (from_bytes : List ℕ → Option RegionRecord)
      (compress : List ℕ → List ℕ) (uncompressed_size : List ℕ → Option (ℕ × List ℕ))
      (decompress : List ℕ → ℕ → Option (List ℕ)) where
    restore_region-IsLoaded :
        (r : RegionRecord)
        → Holds IsLoaded
            (restore_region mc to_bytes from_bytes compress uncompressed_size decompress r)
    unfolding restore_region Region.new
    restore_region-IsLoaded r = elim (Bool-cases (length r.chunks == 64)) [
      | inr h ↦ rw (restore_region, h) tt
      | inl h ↦
          let long = (==_iff (length r.chunks) 64).0 h in
          let made : Holds (λ cs. (length cs ≡ 64) × All IsLoadedChunk cs)
              (restore_chunks mc (replicate 64 Chunk.new) r.chunks) =
            subst
              (λ n.
                Holds (λ cs. (length cs ≡ n) × All IsLoadedChunk cs)
                  (restore_chunks mc (replicate n Chunk.new) r.chunks))
              long (restore_chunks_loaded r.chunks) in
          elim (Result-cases (restore_chunks mc (replicate 64 Chunk.new) r.chunks)) [
            | inl (x, e) ↦ rw (restore_region, h, e) tt
            | inr (cs, e) ↦
                rw (restore_region, h, e)
                  (subst (Holds (λ cs. (length cs ≡ 64) × All IsLoadedChunk cs)) e made)
          ]
    ]

    -- Whatever bytes stand in the world file, and whatever the decompressor and the deserializer make of
    -- them, `decode_region` returns an error, or a region of 64 chunks, each with 4096 cells of materials
    -- that exist, with 32 bytes of fog, and all to be simulated.
    pub decode_region-IsLoaded :
        (blob : List ℕ)
        → Holds IsLoaded
            (decode_region mc to_bytes from_bytes compress uncompressed_size decompress blob)
    unfolding decode_region decode_body
    decode_region-IsLoaded [] = tt
    decode_region-IsLoaded (version ∷ packed) =
        elim (Bool-cases (version == region_format_version)) [
          | inr h ↦ rw (decode_region, h) tt
          | inl h ↦ elim (Option-cases (uncompressed_size packed)) [
            | inl e ↦ rw (decode_region, h, e) tt
            | inr ((n, body), e) ↦ elim (Bool-cases (ltb max_raw_region_bytes n)) [
              | inl k ↦ rw (decode_region, h, e, decode_body, k) tt
              | inr k ↦ elim (Option-cases (decompress body n)) [
                | inl d ↦ rw (decode_region, h, e, decode_body, k, d) tt
                | inr (raw, d) ↦ elim (Option-cases (from_bytes raw)) [
                  | inl f ↦ rw (decode_region, h, e, decode_body, k, d, f) tt
                  | inr (r, f) ↦
                      rw (decode_region, h, e, decode_body, k, d, f) (restore_region-IsLoaded r)
                ]
              ]
            ]
          ]
        ]
