-- ===== src/Sim/Window/Count.antt =====
-- How many cells of a material and a shade a window shows, and that a swap keeps every such number.
use fallingsand.Prelude.{
  ℕ, zero, suc, ◌+◌, ◌*◌, ◌<◌, ◌≡◌, ◌≢◌, ◌⊎◌, inl, inr, refl, sym, subst, ap, ◌∙◌, arith, Bool,
  true, false, not, ◌&&◌, ltb, Bool-cases, Option, none, some, Option-cases, List, [], ◌∷◌, length,
  get_or, get_elem?, if◌then◌else◌, ◌==◌, get_elem?-eq-get_or, get_elem?-some-lt,
}
use fallingsand.Prelude as Prelude
use fallingsand.Coords.{CellPos, ChunkPos}
use fallingsand.Coords.Cells
use fallingsand.Coords.Offsets.Cell.{index}
use fallingsand.Cell.{Cell}
use fallingsand.Sim.Window.State.{slot_of}
use fallingsand.Sim.Window.Cells.{seen, written}

-- What a cell looks like: its material and its shade.
abbrev pub Look : Type 0
Look = ℕ × ℕ

abbrev pub is_look : Look → Cell → ℕ
is_look (m, s) c = if c.material == m && c.shade == s then 1 else 0

abbrev pub count_cells : Look → List Cell → ℕ
count_cells l [] = 0
count_cells l (c ∷ cs) = is_look l c + count_cells l cs

abbrev pub count_view : Look → List (List Cell) → ℕ
count_view l [] = 0
count_view l (cs ∷ css) = count_cells l cs + count_view l css

pub count_cells-set :
    (l : Look) (cs : List Cell) (i : ℕ) (c : Cell) {old : Cell}
    → get_elem? cs i ≡ some old
    → count_cells l (Prelude.set cs i c) + is_look l old ≡ count_cells l cs + is_look l c
count_cells-set l [] i c e = cc
count_cells-set l (x ∷ cs) zero c {old} e = let same : x ≡ old = cc in rw same (omega arith)
count_cells-set l (x ∷ cs) (suc i) c e = omega (arith, count_cells-set l cs i c e)

count_view-set :
    (l : Look) (v : List (List Cell)) (s : ℕ) (cs : List Cell)
    → s < length v
    → count_view l (Prelude.set v s cs) + count_cells l (get_or v s [])
      ≡ count_view l v + count_cells l cs
count_view-set l [] s cs h = elim h [ ]
count_view-set l (x ∷ v) zero cs h = omega arith
count_view-set l (x ∷ v) (suc s) cs h = omega (arith, count_view-set l v s cs (omega arith))

in_view :
    (v : List (List Cell)) (s i : ℕ) {c : Cell}
    → get_elem? (get_or v s []) i ≡ some c
    → s < length v
in_view [] s i e = cc
in_view (x ∷ v) zero i e = omega arith
in_view (x ∷ v) (suc s) i e = omega (arith, in_view v s i e)

-- A write changes the count by the cells that go and come.
pub count-written :
    (l : Look) (o : ChunkPos) (v : List (List Cell)) (p : CellPos) (c : Cell) {old : Cell}
    → seen o v p ≡ some old
    → count_view l (written o v p c) + is_look l old ≡ count_view l v + is_look l c
unfolding seen written
count-written l o v p c {old} e = elim (Option-cases (slot_of o p)) [
  | inl f ↦ let bad = rw (seen, f) at e in cc
  | inr (slot, f) ↦
      let here : get_elem? (get_or v slot []) (index (Cells.offset p)) ≡ some old =
        rw (seen, f) at e in
      rw (written, f)
        (omega (
          arith,
          count_view-set l v slot (Prelude.set (get_or v slot []) (index (Cells.offset p)) c)
              (in_view v slot (index (Cells.offset p)) here),
          count_cells-set l (get_or v slot []) (index (Cells.offset p)) c here,
        ))
]

-- After a write to a loaded cell, a loaded position shows the new cell, where it is the same place,
-- and otherwise what it showed.
pub seen-written :
    (o : ChunkPos) (v : List (List Cell)) (p q : CellPos) (c : Cell) {old d : Cell}
    → seen o v p ≡ some old
    → seen o v q ≡ some d
    → ((seen o (written o v p c) q ≡ some c) × (d ≡ old)) ⊎ (seen o (written o v p c) q ≡ some d)
unfolding seen written
seen-written o v p q c {old} {d} e h = elim (Option-cases (slot_of o p)) [
  | inl f ↦ let bad = rw (seen, f) at e in cc
  | inr (s, f) ↦ elim (Option-cases (slot_of o q)) [
    | inl g ↦ let bad = rw (seen, g) at h in cc
    | inr (t, g) ↦
        let i = index (Cells.offset p) in
        let j = index (Cells.offset q) in
        let here : get_elem? (get_or v s []) i ≡ some old = rw (seen, f) at e in
        let there : get_elem? (get_or v t []) j ≡ some d = rw (seen, g) at h in
        rw (seen, g, written, f)
          (elim (Bool-cases (s == t)) [
            | inr other ↦ inr (
                rw (Prelude.get_or-set_ne v s t (Prelude.set (get_or v s []) i c) [] (ground arith))
                  there)
            | inl same ↦
                let st : t ≡ s = ground arith in
                let there' : get_elem? (get_or v s []) j ≡ some d =
                  subst (λ k. get_elem? (get_or v k []) j ≡ some d) st there in
                let inside =
                  Prelude.get_or-set_self v s (Prelude.set (get_or v s []) i c) []
                    (in_view v s i here) in
                rw (st, inside)
                  (elim (Bool-cases (i == j)) [
                    | inl eq ↦
                        let ij : j ≡ i = ground arith in
                        let both : some d ≡ some old =
                          sym (subst (λ k. get_elem? (get_or v s []) k ≡ some d) ij there')
                          ∙ here in
                        inl (
                          rw ij (
                              Prelude.get_elem?-set_self (get_or v s []) i c
                                (get_elem?-some-lt _ i here)),
                          cc,
                        )
                    | inr ne ↦ inr (
                        rw
                          (Prelude.get_elem?-set_ne (get_or v s []) {i = i} {j = j} c
                            (ground arith))
                          there')
                  ])
          ])
  ]
]

-- The written place shows the new cell.
pub seen-written_self :
    (o : ChunkPos) (v : List (List Cell)) (p : CellPos) (c : Cell) {old : Cell}
    → seen o v p ≡ some old
    → seen o (written o v p c) p ≡ some c
unfolding seen written
seen-written_self o v p c {old} e = elim (Option-cases (slot_of o p)) [
  | inl f ↦ let bad = rw (seen, f) at e in cc
  | inr (s, f) ↦
      let i = index (Cells.offset p) in
      let here : get_elem? (get_or v s []) i ≡ some old = rw (seen, f) at e in
      rw (seen, f, written, f)
        (rw (Prelude.get_or-set_self v s (Prelude.set (get_or v s []) i c) [] (in_view v s i here))
          (Prelude.get_elem?-set_self (get_or v s []) i c (get_elem?-some-lt _ i here)))
]
