-- ===== src/Wire/Result.antt =====
-- `WireError` (crates/fallingsand_protocol/src/wire.rs), without the texts that the libraries attach.
use fallingsand.Prelude.{ℕ, List, ◌∷◌}

pub data WireError : Type 0 where
  postcard_error decompress_error empty : WireError
  unknown_tag : ℕ → WireError
  too_large : ℕ → WireError
  bad_cell_payload : ℕ → WireError
  invalid_material : ℕ → WireError

pub data WireResult {ℓ} (A : Type ℓ) : Type ℓ where
  ok : A → WireResult A
  err : WireError → WireResult A

-- One more element before the elements of a result.
abbrev pub prepend {ℓ} : {A : Type ℓ} → A → WireResult (List A) → WireResult (List A)
prepend a (ok items) = ok (a ∷ items)
prepend a (err e) = err e
