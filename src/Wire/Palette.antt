-- ===== src/Wire/Palette.antt =====
-- The palette that `cells_to_wire` gathers, and the bytes of its entries.
use fallingsand.Prelude.{
  ℕ, zero, suc, ◌+◌, ◌*◌, ◌/◌, ◌%◌, ◌<◌, ◌≤◌, ◌≡◌, ◌⊎◌, refl, sym, ap, ◌∙◌, subst, inl, inr, arith,
  leb, ◌==◌, Option, none, some, List, [], ◌∷◌, ◌++◌, length, Bool-cases, Option-cases, false,
  get_elem?, length-append,
}
use fallingsand.Cell.{Cell}
use fallingsand.Wire.Result.{ok}
use fallingsand.Wire.Unpack.{Looked}
use fallingsand.Wire.Cells.{
  Entry, cell_entry, cell_key, find_key, gather, all_entries, entry_bytes, entries, entry_cell,
  collect,
}

-- The material exists, and the shade is a byte.
abbrev pub IsShown : ℕ → Cell → Type 0
IsShown material_count c = (c.material < material_count) × (c.shade < 256)

abbrev pub AllShown : ℕ → List Cell → Type 0
AllShown mc [] = Unit
AllShown mc (c ∷ cs) = IsShown mc c × AllShown mc cs

-- The cell with its material and shade, at rest and without flags.
abbrev pub plain : Cell → Cell
plain c = record { material = c.material; payload = (0, 0, 0, 0); shade = c.shade; flags = 0 }

abbrev pub all_plain : List Cell → List Cell
all_plain [] = []
all_plain (c ∷ cs) = plain c ∷ all_plain cs

pub entries-entry_bytes : (es : List Entry) → entries (entry_bytes es) ≡ es
entries-entry_bytes [] = refl
entries-entry_bytes (e ∷ es) = ap (λ (t : List Entry). e ∷ t) (entries-entry_bytes es)

pub length-entry_bytes : (es : List Entry) → length (entry_bytes es) ≡ length es * 3
length-entry_bytes [] = refl
length-entry_bytes (e ∷ es) = omega (arith, length-entry_bytes es)

pub length-all_entries : (cs : List Cell) → length (all_entries cs) ≡ length cs
length-all_entries [] = refl
length-all_entries (c ∷ cs) = omega (arith, length-all_entries cs)

module _ (material_count : ℕ) (few : material_count ≤ 65_536) where
  pub entry_cell-cell_entry :
      (c : Cell)
      → IsShown material_count c
      → entry_cell material_count (cell_entry c) ≡ ok (plain c)
  unfolding entry_cell cell_entry
  entry_cell-cell_entry c (h, k) =
      let whole : c.material % 256 + c.material / 256 % 256 * 256 ≡ c.material = omega arith in
      let known : leb material_count c.material ≡ false = ground arith in rw (whole, known) refl

  pub collect-all_entries :
      (cs : List Cell)
      → AllShown material_count cs
      → collect material_count (all_entries cs) ≡ ok (all_plain cs)
  unfolding collect
  collect-all_entries [] h = refl
  collect-all_entries (c ∷ cs) (h, hs) =
      rw (collect, entry_cell-cell_entry c h, collect-all_entries cs hs) refl

-- The cell of a key.
abbrev key_plain : ℕ → Cell
key_plain k = record {
  material = k % 65_536;
  payload = (0, 0, 0, 0);
  shade = k / 65_536;
  flags = 0;
}

key_plain-cell_key : (c : Cell) → c.material < 65_536 → key_plain (cell_key c) ≡ plain c
unfolding cell_key
key_plain-cell_key c h =
    let low : (c.material + c.shade * 65_536) % 65_536 ≡ c.material = omega arith in
    let high : (c.material + c.shade * 65_536) / 65_536 ≡ c.shade = omega arith in
    rw (low, high) refl

all_entries-append : (cs ds : List Cell) → all_entries (cs ++ ds) ≡ all_entries cs ++ all_entries ds
all_entries-append [] ds = refl
all_entries-append (c ∷ cs) ds =
    ap (λ (t : List Entry). cell_entry c ∷ t) (all_entries-append cs ds)

AllShown-append :
    (mc : ℕ) (cs ds : List Cell) → AllShown mc cs → AllShown mc ds → AllShown mc (cs ++ ds)
AllShown-append mc [] ds h k = k
AllShown-append mc (c ∷ cs) ds (h, hs) k = (h, AllShown-append mc cs ds hs k)

-- What the first list has at an index, the second has there, too.
abbrev Extends : List Cell → List Cell → Type 0
Extends ps qs =
    (i : ℕ) (c : Cell) → get_elem? (all_plain ps) i ≡ some c → get_elem? (all_plain qs) i ≡ some c

Extends-append : (ps qs : List Cell) → Extends ps (ps ++ qs)
Extends-append [] qs i c e = cc
Extends-append (p ∷ ps) qs zero c e = e
Extends-append (p ∷ ps) qs (suc i) c e = Extends-append ps qs i c e

last-plain :
    (ps : List Cell) (c : Cell)
    → get_elem? (all_plain (ps ++ (c ∷ []))) (length ps) ≡ some (plain c)
last-plain [] c = refl
last-plain (p ∷ ps) c = last-plain ps c

-- The map from keys to indices agrees with the palette.
abbrev Known : List (ℕ × ℕ) → List Cell → Type 0
Known keys ps =
    (k i : ℕ) → find_key k keys ≡ some i → get_elem? (all_plain ps) i ≡ some (key_plain k)

-- The palette of the cells `qs`, and indices at which it has the cells.
abbrev pub Gathered : ℕ → List Cell → List Cell → Option (List Entry × List ℕ) → Type 0
Gathered mc ps cs o =
    (qs : List Cell) × (is : List ℕ) × (o ≡ some (all_entries qs, is))
    × Extends ps qs
    × AllShown mc qs
    × (length qs ≤ 256)
    × Looked (all_plain qs) is (all_plain cs)
    × (length is ≡ length cs)

Known-more :
    (keys : List (ℕ × ℕ)) (ps : List Cell) (c : Cell)
    → c.material < 65_536
    → Known keys ps
    → Known ((cell_key c, length ps) ∷ keys) (ps ++ (c ∷ []))
Known-more keys ps c small known k i e = elim (Bool-cases (cell_key c == k)) [
  | inl b ↦
      let same : cell_key c ≡ k = ground arith in
      let at : some (length ps) ≡ some i = rw b at e in
      let index : length ps ≡ i = cc in
      subst (λ (j : ℕ). get_elem? (all_plain (ps ++ (c ∷ []))) j ≡ some (key_plain k)) index
        (last-plain ps c
          ∙ ap some (sym (key_plain-cell_key c small))
          ∙ ap (λ (l : ℕ). some (key_plain l)) same)
  | inr b ↦ Extends-append ps (c ∷ []) i (key_plain k) (known k i (rw b at e))
]

-- The loop finds the palette full or gathers one.
pub gather_cases :
    (mc : ℕ) (keys : List (ℕ × ℕ)) (ps cs : List Cell)
    → mc ≤ 65_536
    → AllShown mc cs
    → AllShown mc ps
    → length ps ≤ 256
    → Known keys ps
    → (gather cs (all_entries ps) keys ≡ none) ⊎ Gathered mc ps cs (gather cs (all_entries ps) keys)
unfolding gather
gather_cases mc keys ps [] few hc hp small known =
    inr (ps, [], refl, (λ i c e. e), hp, small, tt, refl)
gather_cases mc keys ps (c ∷ cs) few (h, hs) hp small known =
    elim (Option-cases (find_key (cell_key c) keys)) [
      | inr (i, e) ↦ elim (gather_cases mc keys ps cs few hs hp small known) [
        | inl f ↦ inl (rw (gather, e, f) refl)
        | inr (qs, is, f, more, hq, sq, look, same) ↦ inr (
          qs,
          i ∷ is,
          rw (gather, e, f) refl,
          more,
          hq,
          sq,
          (
            more i (plain c)
                (known (cell_key c) i e ∙ ap some (key_plain-cell_key c (omega arith))),
            look,
          ),
          omega (arith, same),
        )
      ]
      | inl e ↦ elim (Bool-cases (length (all_entries ps) == 256)) [
        | inl full ↦ inl (rw (gather, e, full) refl)
        | inr room ↦
            let next = ps ++ (c ∷ []) in
            let size : length (all_entries ps) ≡ length ps = length-all_entries ps in
            let joined : all_entries ps ++ (cell_entry c ∷ []) ≡ all_entries next =
              sym (all_entries-append ps (c ∷ [])) in
            let less : length next ≤ 256 = ground (arith, length-append ps (c ∷ [])) in
            elim (gather_cases mc ((cell_key c, length ps) ∷ keys) next cs few hs
              (AllShown-append mc ps (c ∷ []) hp (h, tt)) less
              (Known-more keys ps c (omega arith) known)) [
                | inl f ↦ inl (rw (gather, e, room, joined, size, f) refl)
                | inr (qs, is, f, more, hq, sq, look, same) ↦ inr (
                  qs,
                  length ps ∷ is,
                  rw (gather, e, room, joined, size, f) refl,
                  (λ i d g. more i d (Extends-append ps (c ∷ []) i d g)),
                  hq,
                  sq,
                  (more (length ps) (plain c) (last-plain ps c), look),
                  omega (arith, same),
                )
              ]
      ]
    ]
