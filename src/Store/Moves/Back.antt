-- ===== src/Store/Moves/Back.antt =====
-- What is extracted is what was inserted.
use fallingsand.Prelude.{
  ℕ, zero, suc, ◌+◌, ◌≡◌, refl, sym, ap, subst, ◌∙◌, arith, true, false, Option, none, some, List,
  [], ◌∷◌, ◌++◌, length, length-append, replicate, length-replicate,
}
use fallingsand.Prelude as Prelude
use fallingsand.Coords.{ChunkOffset, ChunkPos, RegionPos}
use fallingsand.Coords.Regions as Regions
use fallingsand.Coords.Offsets.Chunk.{index}
use fallingsand.Chunk.State.{Chunk}
use fallingsand.Chunk.State as Chunk
use fallingsand.Sim.Window.{same_chunk}
use fallingsand.Sim.World.{CellWorld, insert_chunk, remove_chunk}
use fallingsand.Sim.World.Lookup.{
  IsMap, lookup-insert_self, lookup-insert_ne, lookup-delete_ne, insert_chunk-IsMap,
  remove_chunk-IsMap, lookup-delete_self, at, same_chunk_sym,
}
use fallingsand.Store.Region.{Region, set_chunk}
use fallingsand.Store.Region as Region
use fallingsand.Store.Moves.{
  Places, insert_all, insert_region, gather_all, gather_region, extract_region,
}
use fallingsand.Store.Moves.Distinct.{
  Misses, Ordered, chunk_positions-Ordered, length-chunk_positions,
}

-- The places hold these chunks.
abbrev Held : CellWorld → Places → List Chunk → Type 0
Held w [] [] = Unit
Held w [] (c ∷ cs) = ⊥
Held w (p ∷ ps) [] = ⊥
Held w ((o, p) ∷ ps) (c ∷ cs) = (at w p ≡ some c) × Held w ps cs

-- The places hold nothing.
abbrev pub Gone : CellWorld → Places → Type 0
Gone w [] = Unit
Gone w ((o, p) ∷ ps) = (at w p ≡ none) × Gone w ps

removed_ne :
    (w : CellWorld) (p q : ChunkPos) → same_chunk p q ≡ false → at (remove_chunk w p).1 q ≡ at w q
unfolding remove_chunk
removed_ne w p q h = lookup-delete_ne w.chunks p q h

removed_self : (w : CellWorld) (p : ChunkPos) → IsMap w.chunks → at (remove_chunk w p).1 p ≡ none
unfolding remove_chunk
removed_self w p h = lookup-delete_self w.chunks p h

at-insert_all :
    (w : CellWorld) (ps : Places) (cs : List Chunk) (q : ChunkPos)
    → Misses q ps
    → at (insert_all w ps cs) q ≡ at w q
unfolding insert_all
at-insert_all w [] cs q h = refl
at-insert_all w ((o, p) ∷ ps) [] q h = refl
at-insert_all w ((o, p) ∷ ps) (c ∷ cs) q (h, hs) =
    at-insert_all (insert_chunk w p c) ps cs q hs ∙ lookup-insert_ne w p q c h

insert_all-Held :
    (w : CellWorld) (i : ℕ) (ps : Places) (cs : List Chunk)
    → Ordered i ps
    → length ps ≡ length cs
    → Held (insert_all w ps cs) ps cs
unfolding insert_all
insert_all-Held w i [] [] h e = tt
insert_all-Held w i [] (c ∷ cs) h e = absurd (omega (arith, e))
insert_all-Held w i (p ∷ ps) [] h e = absurd (omega (arith, e))
insert_all-Held w i ((o, p) ∷ ps) (c ∷ cs) (h, m, hs) e = (
  at-insert_all (insert_chunk w p c) ps cs p m ∙ lookup-insert_self w p c,
  insert_all-Held (insert_chunk w p c) (i + 1) ps cs hs (omega (arith, e)),
)

remove_chunk-Held :
    (w : CellWorld) (q : ChunkPos) (ps : Places) (cs : List Chunk)
    → Misses q ps
    → Held w ps cs
    → Held (remove_chunk w q).1 ps cs
unfolding remove_chunk
remove_chunk-Held w q [] [] m h = tt
remove_chunk-Held w q [] (c ∷ cs) m h = h
remove_chunk-Held w q (p ∷ ps) [] m h = h
remove_chunk-Held w q ((o, p) ∷ ps) (c ∷ cs) (m, ms) (h, hs) =
    (lookup-delete_ne w.chunks q p (same_chunk_sym q p ∙ m) ∙ h, remove_chunk-Held w q ps cs ms hs)

set-append :
    (xs ys : List Chunk) (y v : Chunk) → Prelude.set (xs ++ y ∷ ys) (length xs) v ≡ xs ++ v ∷ ys
set-append [] ys y v = refl
set-append (x ∷ xs) ys y v = ap (λ (t : List Chunk). x ∷ t) (set-append xs ys y v)

append_one : (xs ys : List Chunk) (v : Chunk) → (xs ++ v ∷ []) ++ ys ≡ xs ++ v ∷ ys
append_one [] ys v = refl
append_one (x ∷ xs) ys v = ap (λ (t : List Chunk). x ∷ t) (append_one xs ys v)

gather_step :
    (w : CellWorld) (o : ChunkOffset) (p : ChunkPos) (ps : Places) (c : Chunk) (region : Region)
    → at w p ≡ some c
    → gather_all remove_chunk w ((o, p) ∷ ps) region
      ≡ gather_all remove_chunk (remove_chunk w p).1 ps (set_chunk region o c)
unfolding gather_all remove_chunk
gather_step w o p ps c region h = rw (gather_all, remove_chunk, h) refl

-- The loop fills the region from index `i` on.
gather_all-Held :
    (w : CellWorld) (done : List Chunk) (ps : Places) (cs news : List Chunk)
    → Ordered (length done) ps
    → Held w ps cs
    → length ps ≡ length news
    → (gather_all remove_chunk w ps (record { chunks = done ++ news })).0.chunks ≡ done ++ cs
unfolding gather_all set_chunk
gather_all-Held w done [] [] [] h k e = refl
gather_all-Held w done [] [] (n ∷ ns) h k e = absurd (omega (arith, e))
gather_all-Held w done [] (c ∷ cs) ns h k e = absurd k
gather_all-Held w done (p ∷ ps) [] ns h k e = absurd k
gather_all-Held w done (p ∷ ps) (c ∷ cs) [] h k e = absurd (omega (arith, e))
gather_all-Held w done ((o, p) ∷ ps) (c ∷ cs) (n ∷ ns) (h, m, hs) (k, ks) e =
    let w' = (remove_chunk w p).1 in
    let more = done ++ c ∷ [] in
    let filled : Prelude.set (done ++ n ∷ ns) (index o) c ≡ more ++ ns =
      rw h (set-append done ns n c ∙ sym (append_one done ns c)) in
    let next : Ordered (length more) ps = rw (length-append done (c ∷ [])) hs in
    let rest =
      gather_all-Held w' more ps cs ns next (remove_chunk-Held w p ps cs m ks) (omega (arith, e)) in
    let step = gather_step w o p ps c (record { chunks = done ++ n ∷ ns }) k in
    let moved : set_chunk (record { chunks = done ++ n ∷ ns }) o c
        ≡ record { chunks = more ++ ns } =
      λ i. record { chunks = filled i } in
    ap (λ (r : Region × CellWorld). r.0.chunks) (step ∙ ap (gather_all remove_chunk w' ps) moved)
    ∙ rest
    ∙ append_one done cs c

at-gather_all :
    (w : CellWorld) (ps : Places) (region : Region) (q : ChunkPos)
    → Misses q ps
    → at (gather_all remove_chunk w ps region).1 q ≡ at w q
unfolding gather_all
at-gather_all w [] region q h = refl
at-gather_all w ((o, p) ∷ ps) region q (h, hs) =
    let found : Region = elim (remove_chunk w p).0 [
      | none ↦ region
      | some chunk ↦ set_chunk region o chunk
    ] in
    at-gather_all (remove_chunk w p).1 ps found q hs ∙ removed_ne w p q h

gone :
    (w : CellWorld) (i : ℕ) (ps : Places) (region : Region)
    → IsMap w.chunks
    → Ordered i ps
    → Gone (gather_all remove_chunk w ps region).1 ps
unfolding gather_all
gone w i [] region m h = tt
gone w i ((o, p) ∷ ps) region m (h, ms, hs) =
    let found : Region = elim (remove_chunk w p).0 [
      | none ↦ region
      | some chunk ↦ set_chunk region o chunk
    ] in
    (
      at-gather_all (remove_chunk w p).1 ps found p ms ∙ removed_self w p m,
      gone (remove_chunk w p).1 (i + 1) ps found (remove_chunk-IsMap w p m) hs,
    )

insert_all-IsMap :
    (w : CellWorld) (ps : Places) (cs : List Chunk)
    → IsMap w.chunks
    → IsMap (insert_all w ps cs).chunks
unfolding insert_all
insert_all-IsMap w [] cs h = h
insert_all-IsMap w (p ∷ ps) [] h = h
insert_all-IsMap w ((o, p) ∷ ps) (c ∷ cs) h =
    insert_all-IsMap (insert_chunk w p c) ps cs (insert_chunk-IsMap w p c h)

-- A region of 64 chunks that is inserted into a world, over whatever was there, and extracted again is
-- the same region, where the world has one entry for a position. Nothing is left at the region's places,
-- and a chunk elsewhere is as before.
pub extract_region-insert_region :
    (w : CellWorld) (r : RegionPos) (region : Region) (q : ChunkPos)
    → IsMap w.chunks
    → length region.chunks ≡ 64
    → Misses q (Regions.chunk_positions r)
    → let (back, w') = extract_region (insert_region w r region) r in
      (back ≡ region) × Gone w' (Regions.chunk_positions r) × (at w' q ≡ at w q)
unfolding extract_region insert_region gather_region Region.new
extract_region-insert_region w r region q m long elsewhere =
    let ps = Regions.chunk_positions r in
    let w1 = insert_all w ps region.chunks in
    let ordered = chunk_positions-Ordered r in
    let sixty_four = length-chunk_positions r in
    let held = insert_all-Held w 0 ps region.chunks ordered (sixty_four ∙ sym long) in
    let back =
      gather_all-Held w1 [] ps region.chunks (replicate 64 Chunk.new) ordered held
        (sixty_four ∙ sym (length-replicate 64 Chunk.new)) in
    (
      λ i. record { chunks = back i },
      gone w1 0 ps (record { chunks = replicate 64 Chunk.new })
          (insert_all-IsMap w ps region.chunks m) ordered,
      at-gather_all w1 ps (record { chunks = replicate 64 Chunk.new }) q elsewhere
          ∙ at-insert_all w ps region.chunks q elsewhere,
    )
