-- ===== src/Store/Codec/Tests.antt =====
-- The codec of regions on concrete inputs.
use fallingsand.Prelude.{
  ℕ, ◌≡◌, refl, arith, Option, some, none, List, [], ◌∷◌, length, replicate, All-replicate,
  length-replicate,
}
use fallingsand.Cell.{Cell, MaterialId}
use fallingsand.Material.{Tags}
use fallingsand.Chunk.State.{Chunk}
use fallingsand.Chunk.State as Chunk
use fallingsand.Chunk.Fog.Mask as Fog
use fallingsand.Store.Region.{Region}
use fallingsand.Store.Codec.Defs.{
  ok, RegionRecord, encode_region, decode_region, region_format_version,
}
use fallingsand.Store.Codec.Kept.{IsStored, kept_region, IsKnown}
use fallingsand.Store.Codec.RoundTrip.{IsWhole, region_record, decode_region-encode_region}
use fallingsand.Store.Codec.Accepted.{Holds, IsLoaded, decode_region-IsLoaded}

-- A cell of body 9, stressed, with a shade.
abbrev tagged : Cell
tagged = record { material = 5; payload = (9, 0, 0, 0); shade = 3; flags = 6 }

no_tags : MaterialId → Tags
no_tags m = 0

full_chunk : Chunk
full_chunk = record Chunk.new { cells = replicate 4096 tagged }

region : Region
region = record { chunks = replicate 64 full_chunk }

tagged-IsKnown : IsKnown 10 tagged
tagged-IsKnown = (
  (omega arith, (omega arith, omega arith, omega arith, omega arith), omega arith, omega arith),
  omega arith,
)

full_chunk-IsStored : IsStored 10 full_chunk
unfolding full_chunk Chunk.new Fog.empty
full_chunk-IsStored =
    (length-replicate 4096 tagged, All-replicate (IsKnown 10) 4096 tagged tagged-IsKnown, refl)

region-IsWhole : IsWhole 10 region
unfolding region
region-IsWhole =
    (length-replicate 64 full_chunk, All-replicate (IsStored 10) 64 full_chunk full_chunk-IsStored)

-- A serializer for this one region, and a compressor that stores.
abbrev written : RegionRecord → Option (List ℕ)
written r = some (7 ∷ 7 ∷ [])

abbrev read : List ℕ → Option RegionRecord
read [] = none
read (b ∷ bs) = some (region_record no_tags region)

abbrev stored : List ℕ → List ℕ
stored raw = raw

abbrev sized : List ℕ → Option (ℕ × List ℕ)
sized packed = some (length packed, packed)

abbrev unstored : List ℕ → ℕ → Option (List ℕ)
unstored body n = some body

decode_region-encode_region_example :
    (encode_region 10 written read stored sized unstored no_tags region
      ≡ ok (region_format_version ∷ 7 ∷ 7 ∷ []))
    × (decode_region 10 written read stored sized unstored (region_format_version ∷ 7 ∷ 7 ∷ [])
        ≡ ok (kept_region no_tags region))
decode_region-encode_region_example =
    decode_region-encode_region 10 written read stored sized unstored no_tags region (7 ∷ 7 ∷ [])
      (omega arith) region-IsWhole refl refl (omega arith) (λ bytes. (bytes, refl, refl))

decode_region-IsLoaded_example :
    Holds
      (IsLoaded 10)
      (decode_region 10 written read stored sized unstored (region_format_version ∷ 1 ∷ []))
decode_region-IsLoaded_example =
    decode_region-IsLoaded 10 written read stored sized unstored (region_format_version ∷ 1 ∷ [])
