-- ===== src/Store/Codec/RoundTrip.antt =====
-- A stored region loads again.
use fallingsand.Prelude.{
  ℕ, ◌<◌, ◌≤◌, ◌≡◌, refl, subst, ◌∙◌, ge→ltb, eq→==, Option, some, List, ◌∷◌, length, All,
  replicate,
}
use fallingsand.Cell.{MaterialId}
use fallingsand.Material.{Tags}
use fallingsand.Chunk.State.{Chunk}
use fallingsand.Chunk.State as Chunk
use fallingsand.Store.Region.{Region}
use fallingsand.Store.Region as Region
use fallingsand.Store.Codec.Defs.{
  ok, RegionRecord, encode_region, restore_region, decode_body, decode_region, max_raw_region_bytes,
  restore_chunks, region_format_version,
}
use fallingsand.Store.Codec.Kept.{
  IsStored, kept_region, kept_chunks, all_recorded, length-all_recorded, chunk_records_lem,
  restore_chunks-all_recorded,
}

-- Its 64 chunks have their 4096 cells, of materials that exist, and 32 bytes of fog.
abbrev pub IsWhole : ℕ → Region → Type 0
IsWhole mc r = (length r.chunks ≡ 64) × All (IsStored mc) r.chunks

abbrev pub region_record : (MaterialId → Tags) → Region → RegionRecord
region_record tags r = record { chunks = all_recorded tags r.chunks }

module _ (mc : ℕ) (to_bytes : RegionRecord → Option (List ℕ))
    (from_bytes : List ℕ → Option RegionRecord) (compress : List ℕ → List ℕ)
    (uncompressed_size : List ℕ → Option (ℕ × List ℕ)) (decompress : List ℕ → ℕ → Option (List ℕ))
    (tags : MaterialId → Tags) where
  restore_region-record :
      (region : Region)
      → 0 < mc
      → IsWhole mc region
      → restore_region mc to_bytes from_bytes compress uncompressed_size decompress
          (region_record tags region)
        ≡ ok (kept_region tags region)
  unfolding restore_region Region.new
  restore_region-record region some_material (long, whole) =
      let back : restore_chunks mc (replicate 64 Chunk.new) (all_recorded tags region.chunks)
          ≡ ok (kept_chunks tags region.chunks) =
        subst
          (λ n.
            restore_chunks mc (replicate n Chunk.new) (all_recorded tags region.chunks)
            ≡ ok (kept_chunks tags region.chunks))
          long (restore_chunks-all_recorded mc tags some_material region.chunks whole) in
      rw
        (
          restore_region,
          eq→== (length (all_recorded tags region.chunks)) 64
              (length-all_recorded tags region.chunks ∙ long),
          back,
        )
        refl

  -- A region of 64 chunks with their 4096 cells of existing materials is stored, and loads as
  -- `kept_region` has it: cells keep their material, shade and velocity, those of bodies become air or
  -- lose their tag, flags are dropped, the fog stays, and all of each chunk is to be simulated. The
  -- serializer is to read back the bytes that it wrote for this region, at most 64 MiB, and the
  -- compressor to give back the bytes and their number.
  pub decode_region-encode_region :
      (region : Region) (raw : List ℕ)
      → 0 < mc
      → IsWhole mc region
      → to_bytes (region_record tags region) ≡ some raw
      → from_bytes raw ≡ some (region_record tags region)
      → length raw ≤ max_raw_region_bytes
      → ((bytes : List ℕ)
          → (body : List ℕ) × (uncompressed_size (compress bytes) ≡ some (length bytes, body))
            × (decompress body (length bytes) ≡ some bytes))
      → (encode_region mc to_bytes from_bytes compress uncompressed_size decompress tags region
          ≡ ok (region_format_version ∷ compress raw))
        × (decode_region mc to_bytes from_bytes compress uncompressed_size decompress
              (region_format_version ∷ compress raw)
            ≡ ok (kept_region tags region))
  unfolding encode_region decode_region decode_body
  decode_region-encode_region region raw some_material whole written read small packed =
      let (body, sized, unpacked) = packed raw in
      (
        rw (encode_region, chunk_records_lem mc tags some_material region.chunks whole.1, written)
            refl,
        rw
            (
              decode_region,
              sized,
              decode_body,
              ge→ltb max_raw_region_bytes (length raw) small,
              unpacked,
              read,
            )
            (restore_region-record region some_material whole),
      )
