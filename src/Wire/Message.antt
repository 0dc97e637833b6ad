-- ===== src/Wire/Message.antt =====
-- `encode_message` and `decode_message`. The serializer and the compressor are libraries: parameters.
use fallingsand.Prelude.{
  ℕ, ◌+◌, ◌*◌, ◌≤◌, ◌≡◌, refl, ◌∙◌, inl, inr, arith, ltb, ge→ltb, ◌==◌, if◌then◌else◌, Bool-cases,
  Option, none, some, List, [], ◌∷◌, length, get_or,
}
use fallingsand.Wire.Result.{
  WireResult, ok, err, postcard_error, decompress_error, empty, unknown_tag, too_large,
}

-- `u32::from_le_bytes` of the first four bytes.
unfoldable pub le_u32 : List ℕ → ℕ
le_u32 b = get_or b 0 0 + 256 * get_or b 1 0 + 65_536 * get_or b 2 0 + 16_777_216 * get_or b 3 0

abbrev pub max_decompressed_len : ℕ
max_decompressed_len = 67_108_864

-- `postcard::to_allocvec` and `from_bytes`, and `compress_prepend_size` and
-- `decompress_size_prepended` of lz4_flex.
module _ {M : Type 0} (to_bytes : M → List ℕ) (from_bytes : List ℕ → Option M)
    (compress : List ℕ → List ℕ) (decompress : List ℕ → Option (List ℕ)) where
  unfoldable pub encode_message : M → List ℕ
  encode_message message =
      let raw = to_bytes message in
      let out = 1 ∷ compress raw in
      if ltb 256 (length raw)
      then (if ltb (length out) (length raw + 1) then out else 0 ∷ raw)
      else 0 ∷ raw

  -- `Ok(postcard::from_bytes(..)?)`.
  abbrev pub parsed : List ℕ → WireResult M
  parsed raw = elim (from_bytes raw) [ none ↦ err postcard_error | some m ↦ ok m ]

  unfoldable pub decode_compressed : List ℕ → WireResult M
  unfolding le_u32
  decode_compressed payload =
      let unpacked : WireResult M = elim (decompress payload) [
        | none ↦ err decompress_error
        | some raw ↦ parsed raw
      ] in
      if ltb (length payload) 4
      then unpacked
      else if ltb max_decompressed_len (le_u32 payload)
      then err (too_large (le_u32 payload))
      else unpacked

  unfoldable pub decode_message : List ℕ → WireResult M
  unfolding decode_compressed
  decode_message [] = err empty
  decode_message (tag ∷ payload) =
      if tag == 0
      then parsed payload
      else if tag == 1
      then decode_compressed payload
      else err (unknown_tag tag)

  parsed_back : {raw : List ℕ} {m : M} → from_bytes raw ≡ some m → parsed raw ≡ ok m
  parsed_back e = rw (parsed, e) refl

  packed_back :
      {payload raw : List ℕ} {m : M}
      → decompress payload ≡ some raw
      → from_bytes raw ≡ some m
      → le_u32 payload ≤ max_decompressed_len
      → decode_compressed payload ≡ ok m
  unfolding decode_compressed
  packed_back {payload = payload} e f small = elim (Bool-cases (ltb (length payload) 4)) [
    | inl h ↦ rw (decode_compressed, h, e) (parsed_back f)
    | inr h ↦
        rw (decode_compressed, h, ge→ltb max_decompressed_len (le_u32 payload) small, e)
          (parsed_back f)
  ]

  tag_plain : (payload : List ℕ) → decode_message (0 ∷ payload) ≡ parsed payload
  unfolding decode_message
  tag_plain payload = refl

  tag_packed : (payload : List ℕ) → decode_message (1 ∷ payload) ≡ decode_compressed payload
  unfolding decode_message
  tag_packed payload = refl

  -- A message whose serialization has at most 64 MiB is read back from its bytes, compressed or not, if
  -- the serializer reads back what it wrote, and the compressor, too, and begins with the length.
  pub decode_message-encode_message :
      (message : M)
      → ((m : M) → from_bytes (to_bytes m) ≡ some m)
      → ((raw : List ℕ) → decompress (compress raw) ≡ some raw)
      → ((raw : List ℕ) → length raw ≤ max_decompressed_len → le_u32 (compress raw) ≡ length raw)
      → length (to_bytes message) ≤ max_decompressed_len
      → decode_message (encode_message message) ≡ ok message
  unfolding encode_message
  decode_message-encode_message message read unpack announce small =
      let raw = to_bytes message in
      let plain : decode_message (0 ∷ raw) ≡ ok message =
        tag_plain raw ∙ parsed_back (read message) in
      let packed : decode_message (1 ∷ compress raw) ≡ ok message =
        tag_packed (compress raw)
        ∙ packed_back (unpack raw) (read message) (omega (arith, announce raw small, small)) in
      elim (Bool-cases (ltb 256 (length raw))) [
        | inr a ↦ rw (encode_message, a) plain
        | inl a ↦ elim (Bool-cases (ltb (length (1 ∷ compress raw)) (length raw + 1))) [
          | inr b ↦ rw (encode_message, a, b) plain
          | inl b ↦ rw (encode_message, a, b) packed
        ]
      ]
