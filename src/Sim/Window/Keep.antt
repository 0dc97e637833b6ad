-- ===== src/Sim/Window/Keep.antt =====
-- Operations that only move matter about: the count of every look stays.
use fallingsand.Prelude.{◌≡◌, ◌⊎◌, inl, inr, refl, sym, ap, ◌∙◌, arith, some, Option-cases}
use fallingsand.Coords.{CellPos}
use fallingsand.Cell.{Cell}
use fallingsand.Cell as Cell
use fallingsand.Sim.Content.{Content}
use fallingsand.Sim.Window.State.{Window, get, mark, set, swap, stirred, struck_body}
use fallingsand.Sim.Window.Cells.{view, seen, written, get-seen, mark-view}
use fallingsand.Sim.Window.Writes.{SameView, set-view}
use fallingsand.Sim.Window.Count.{
  Look, is_look, count_view, count-written, seen-written, seen-written_self,
}

-- The second window shows as many cells of every look as the first, from the same place.
pub record Keeps (w : Window) (w' : Window) : Type 0 where
  pub place : w'.origin ≡ w.origin
  pub amount : (l : Look) → count_view l (view w') ≡ count_view l (view w)

pub Keeps-refl : (w : Window) → Keeps w w
Keeps-refl w = record { place = refl; amount = λ l. refl }

pub Keeps-trans : {a b c : Window} → Keeps a b → Keeps b c → Keeps a c
Keeps-trans h k = record { place = k.place ∙ h.place; amount = λ l. k.amount l ∙ h.amount l }

pub Keeps-view : {a b : Window} → SameView a b → Keeps a b
Keeps-view h = record { place = h.1; amount = λ l. ap (count_view l) h.0 }

pub mark-Keeps : (w : Window) (p : CellPos) → Keeps w (mark w p)
mark-Keeps w p = Keeps-view (mark-view w p)

-- The second cell looks like the first.
abbrev pub SameLook : Cell → Cell → Type 0
SameLook c d = (d.material ≡ c.material) × (d.shade ≡ c.shade)

is_look-same : (l : Look) (c d : Cell) → SameLook c d → is_look l d ≡ is_look l c
is_look-same l c d h = rw (h.0, h.1) refl

module _ (content : Content) where
  -- A cell may be replaced by one of its own look.
  pub set-Keeps :
      (w : Window) (p : CellPos) (c : Cell) {old : Cell}
      → get w p ≡ some old
      → SameLook old c
      → Keeps w (set content w p c)
  set-Keeps w p c {old} e h =
      let v = set-view content w p c in
      record {
        place = v.1;
        amount = λ l. rw v.0 (
            omega (
              arith,
              count-written l w.origin (view w) p c (sym (get-seen w p) ∙ e),
              is_look-same l old c h,
            ));
      }

  -- After a write a loaded position shows the new cell, where it is the same place, or what it showed.
  pub get-set_cases :
      (w : Window) (p q : CellPos) (c : Cell) {old d : Cell}
      → get w p ≡ some old
      → get w q ≡ some d
      → ((get (set content w p c) q ≡ some c) × (d ≡ old)) ⊎ (get (set content w p c) q ≡ some d)
  get-set_cases w p q c e h =
      let v = set-view content w p c in
      let s = set content w p c in
      let shown : get s q ≡ seen w.origin (written w.origin (view w) p c) q =
        get-seen s q ∙ ap (λ o. seen o (view s) q) v.1 ∙ ap (λ t. seen w.origin t q) v.0 in
      elim (seen-written w.origin (view w) p q c (sym (get-seen w p) ∙ e)
        (sym (get-seen w q) ∙ h)) [
          | inl (same, old) ↦ inl (shown ∙ same, old)
          | inr other ↦ inr (shown ∙ other)
        ]

  -- A write where a cell is loaded is read back.
  pub get-set_self :
      (w : Window) (p : CellPos) (c : Cell) {old : Cell}
      → get w p ≡ some old
      → get (set content w p c) p ≡ some c
  get-set_self w p c e =
      let v = set-view content w p c in
      let s = set content w p c in
      get-seen s p
      ∙ ap (λ o. seen o (view s) p) v.1
      ∙ ap (λ t. seen w.origin t p) v.0
      ∙ seen-written_self w.origin (view w) p c (sym (get-seen w p) ∙ e)

  pub stirred-look : (c : Cell) → SameLook c (stirred c)
  unfolding Cell.set_moved Cell.clear_stressed
  stirred-look c = (refl, refl)

  exchange-Keeps :
      (w : Window) (a b : CellPos) (x y x' y' : Cell)
      → get w a ≡ some x
      → get w b ≡ some y
      → SameLook x x'
      → SameLook y y'
      → Keeps w (set content (set content w a y') b x')
  exchange-Keeps w a b x y x' y' ea eb lx ly =
      let first = set content w a y' in
      let v1 = set-view content w a y' in
      let step1 = λ (l : Look). count-written l w.origin (view w) a y' (sym (get-seen w a) ∙ ea) in
      let done : (y'' : Cell)
          → get first b ≡ some y''
          → SameLook y y''
          → Keeps w (set content first b x') =
        λ y'' h same.
          let v2 = set-view content first b x' in
          let at_b = sym (get-seen first b) ∙ h in
          record {
            place = v2.1 ∙ v1.1;
            amount = λ l. rw v2.0 (
                omega (
                  arith,
                  count-written l first.origin (view first) b x' at_b,
                  step1 l,
                  ap (count_view l) v1.0,
                  is_look-same l x x' lx,
                  is_look-same l y y' ly,
                  is_look-same l y y'' same,
                ));
          } in
      elim (get-set_cases w a b y' ea eb) [
        | inl (h, same) ↦ done y' h ly
        | inr h ↦ done y h (refl, refl)
      ]

  -- A swap, of any two positions, loaded or not, leaves as many cells of each material and shade in the
  -- window as before, and the window in its place.
  pub swap-Keeps : (w : Window) (a b : CellPos) → Keeps w (swap content w a b)
  unfolding swap
  swap-Keeps w a b = elim (Option-cases (get w a)) [
    | inl e ↦ rw (swap, e) (Keeps-refl w)
    | inr (x, e) ↦ elim (Option-cases (get w b)) [
      | inl f ↦ rw (swap, e, f) (Keeps-refl w)
      | inr (y, f) ↦
          rw (swap, e, f)
            (exchange-Keeps w a b x y (stirred x) (stirred y) e f (stirred-look x) (stirred-look y))
    ]
  ]

  -- After a swap the target shows the mover, where both places are loaded.
  pub get-swap :
      (w : Window) (a b : CellPos) (x y : Cell)
      → get w a ≡ some x
      → get w b ≡ some y
      → get (swap content w a b) b ≡ some (stirred x)
  unfolding swap
  get-swap w a b x y e f =
      rw (swap, e, f)
        (elim (get-set_cases w a b (stirred y) e f) [
          | inl h ↦ get-set_self (set content w a (stirred y)) b (stirred x) h.0
          | inr h ↦ get-set_self (set content w a (stirred y)) b (stirred x) h
        ])

  -- Two cells replaced by cells of their looks.
  pub set_both-Keeps :
      (w : Window) (a b : CellPos) (x y x' y' : Cell)
      → get w a ≡ some x
      → get w b ≡ some y
      → SameLook x x'
      → SameLook y y'
      → Keeps w (set content (set content w a x') b y')
  set_both-Keeps w a b x y x' y' ea eb lx ly =
      Keeps-trans (set-Keeps w a x' ea lx) (elim (get-set_cases w a b x' ea eb) [
        | inl (h, same) ↦ set-Keeps (set content w a x') b y' h (
          ly.0 ∙ ap (λ (c : Cell). c.material) same ∙ sym lx.0,
          ly.1 ∙ ap (λ (c : Cell). c.shade) same ∙ sym lx.1,
        )
        | inr h ↦ set-Keeps (set content w a x') b y' h ly
      ])

  pub struck_body-Keeps :
      (w : Window) (c : Cell) (grain p : CellPos) → Keeps w (struck_body content w c grain p).0
  unfolding struck_body
  struck_body-Keeps w c grain p = elim (Option-cases (get w p)) [
    | inl e ↦ rw (struck_body, e) (Keeps-refl w)
    | inr (x, e) ↦ elim (Option-cases (Cell.body_id x)) [
      | inl f ↦ rw (struck_body, e, f) (Keeps-refl w)
      | inr (id, f) ↦ rw (struck_body, e, f) (record { place = refl; amount = λ l. refl })
    ]
  ]
