-- ===== src/Sim/World/Lookup.antt =====
-- The chunks of a world as a map from positions (crates/fallingsand_sim/src/world.rs).
use fallingsand.Prelude.{
  ◌≡◌, refl, sym, ap, ◌∙◌, inl, inr, arith, true, false, Bool-cases, Option, none, some,
  Option-cases, [], ◌∷◌,
}
use fallingsand.Coords.{ChunkPos}
use fallingsand.Chunk.State.{Chunk}
use fallingsand.Sim.Window.{same_chunk}
use fallingsand.Sim.World.{Chunks, CellWorld, lookup, update, delete, insert_chunk, remove_chunk}

pub same_chunk_refl : (a : ChunkPos) → same_chunk a a ≡ true
same_chunk_refl a = ground arith

pub same_chunk_eq : (a b : ChunkPos) → same_chunk a b ≡ true → a ≡ b
same_chunk_eq a b h = ground arith

pub same_chunk_sym : (a b : ChunkPos) → same_chunk a b ≡ same_chunk b a
same_chunk_sym a b = ground arith

-- Whether `c` is `q` decides whether `k` and the one are the same as the other.
pub same_chunk_ap : (c q k : ChunkPos) → same_chunk c q ≡ true → same_chunk k c ≡ same_chunk k q
same_chunk_ap c q k h = ap (same_chunk k) (same_chunk_eq c q h)

-- Every position has one entry.
abbrev pub IsMap : Chunks → Type 0
IsMap [] = Unit
IsMap ((k, v) ∷ rest) = (lookup rest k ≡ none) × IsMap rest

pub lookup_same : (cs : Chunks) (c q : ChunkPos) → same_chunk c q ≡ true → lookup cs c ≡ lookup cs q
lookup_same cs c q h = ap (lookup cs) (same_chunk_eq c q h)

pub lookup-update_ne :
    (cs : Chunks) (c q : ChunkPos) (v : Chunk)
    → same_chunk c q ≡ false
    → lookup (update cs c v) q ≡ lookup cs q
unfolding lookup update
lookup-update_ne [] c q v h = refl
lookup-update_ne ((k, x) ∷ rest) c q v h = elim (Bool-cases (same_chunk k c)) [
  | inl e ↦ let other : same_chunk k q ≡ false = ground arith in rw (update, e, lookup, other) refl
  | inr e ↦ elim (Bool-cases (same_chunk k q)) [
    | inl f ↦ rw (update, e, lookup, f) refl
    | inr f ↦ rw (update, e, lookup, f) (lookup-update_ne rest c q v h)
  ]
]

pub lookup-update_self :
    (cs : Chunks) (c : ChunkPos) (v x : Chunk)
    → lookup cs c ≡ some x
    → lookup (update cs c v) c ≡ some v
unfolding lookup update
lookup-update_self [] c v x h = absurd (cc h)
lookup-update_self ((k, y) ∷ rest) c v x h = elim (Bool-cases (same_chunk k c)) [
  | inl e ↦ rw (update, e, lookup, e) refl
  | inr e ↦ rw (update, e, lookup, e) (lookup-update_self rest c v x (rw (lookup, e) at h))
]

-- `lookup` after `insert_chunk`: the chunk at its position, and elsewhere what was there.
pub lookup-insert_self :
    (w : CellWorld) (c : ChunkPos) (v : Chunk) → lookup (insert_chunk w c v).chunks c ≡ some v
unfolding insert_chunk lookup
lookup-insert_self w c v = elim (Option-cases (lookup w.chunks c)) [
  | inl e ↦ rw (insert_chunk, e, lookup, same_chunk_refl c) refl
  | inr (x, e) ↦ rw (insert_chunk, e) (lookup-update_self w.chunks c v x e)
]

pub lookup-insert_ne :
    (w : CellWorld) (c q : ChunkPos) (v : Chunk)
    → same_chunk c q ≡ false
    → lookup (insert_chunk w c v).chunks q ≡ lookup w.chunks q
unfolding insert_chunk lookup
lookup-insert_ne w c q v h = elim (Option-cases (lookup w.chunks c)) [
  | inl e ↦ rw (insert_chunk, e, lookup, h) refl
  | inr (x, e) ↦ rw (insert_chunk, e) (lookup-update_ne w.chunks c q v h)
]

pub lookup-delete_ne :
    (cs : Chunks) (c q : ChunkPos) → same_chunk c q ≡ false → lookup (delete cs c) q ≡ lookup cs q
unfolding lookup delete
lookup-delete_ne [] c q h = refl
lookup-delete_ne ((k, x) ∷ rest) c q h = elim (Bool-cases (same_chunk k c)) [
  | inl e ↦ let other : same_chunk k q ≡ false = ground arith in rw (delete, e, lookup, other) refl
  | inr e ↦ elim (Bool-cases (same_chunk k q)) [
    | inl f ↦ rw (delete, e, lookup, f) refl
    | inr f ↦ rw (delete, e, lookup, f) (lookup-delete_ne rest c q h)
  ]
]

pub lookup-delete_self : (cs : Chunks) (c : ChunkPos) → IsMap cs → lookup (delete cs c) c ≡ none
unfolding lookup delete
lookup-delete_self [] c h = refl
lookup-delete_self ((k, x) ∷ rest) c h = elim (Bool-cases (same_chunk k c)) [
  | inl e ↦ rw (delete, e) (ap (lookup rest) (sym (same_chunk_eq k c e)) ∙ h.0)
  | inr e ↦ rw (delete, e, lookup, e) (lookup-delete_self rest c h.1)
]

update-IsMap : (cs : Chunks) (c : ChunkPos) (v : Chunk) → IsMap cs → IsMap (update cs c v)
unfolding update
update-IsMap [] c v h = tt
update-IsMap ((k, x) ∷ rest) c v h = elim (Bool-cases (same_chunk k c)) [
  | inl e ↦ rw (update, e) h
  | inr e ↦
      let apart : same_chunk c k ≡ false = ground arith in
      rw (update, e) (lookup-update_ne rest c k v apart ∙ h.0, update-IsMap rest c v h.1)
]

delete-IsMap : (cs : Chunks) (c : ChunkPos) → IsMap cs → IsMap (delete cs c)
unfolding delete
delete-IsMap [] c h = tt
delete-IsMap ((k, x) ∷ rest) c h = elim (Bool-cases (same_chunk k c)) [
  | inl e ↦ rw (delete, e) h.1
  | inr e ↦
      let apart : same_chunk c k ≡ false = ground arith in
      rw (delete, e) (lookup-delete_ne rest c k apart ∙ h.0, delete-IsMap rest c h.1)
]

pub insert_chunk-IsMap :
    (w : CellWorld) (c : ChunkPos) (v : Chunk) → IsMap w.chunks → IsMap (insert_chunk w c v).chunks
unfolding insert_chunk
insert_chunk-IsMap w c v h = elim (Option-cases (lookup w.chunks c)) [
  | inl e ↦ rw (insert_chunk, e) (e, h)
  | inr (x, e) ↦ rw (insert_chunk, e) (update-IsMap w.chunks c v h)
]

pub remove_chunk-IsMap :
    (w : CellWorld) (c : ChunkPos) → IsMap w.chunks → IsMap (remove_chunk w c).1.chunks
unfolding remove_chunk
remove_chunk-IsMap w c h = delete-IsMap w.chunks c h

-- What a map of chunks holds at a position.
abbrev pub at : CellWorld → ChunkPos → Option Chunk
at w c = lookup w.chunks c
