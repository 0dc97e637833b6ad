-- ===== src/Body/Island/Found.antt =====
-- The neighbours of one cell, and the whole search.
use fallingsand.Prelude.{
  ◌≡◌, ◌⊎◌, refl, subst, inl, inr, arith, Bool, true, false, Bool-cases, some, Option-cases, List,
  [], ◌∷◌,
}
use fallingsand.Prelude.Int.{ℤ}
use fallingsand.Coords.{CellPos}
use fallingsand.Cell.{MaterialId}
use fallingsand.Sim.Content.{Content}
use fallingsand.Sim.Motion.Speed.{moved_by}
use fallingsand.Sim.Motion.Move.{neighbors}
use fallingsand.Sim.World.{CellWorld}
use fallingsand.Body.Island.Defs.{
  has, Walk, Stage, going, halted, rigid_terrain, bonds, push_cell, look, look_around,
}
use fallingsand.Body.Island.Region.{Beside, terrain_at, bonded_to, Reach, step, ClosedFor}
use fallingsand.Body.Island.Round.{Sound, Covered, Kept, After}
use fallingsand.Body.Island.Search.{push_cell-Kept}

pub Stage-cases :
    (s : Stage) → ((vs : List CellPos) × (s ≡ halted vs)) ⊎ ((w : Walk) × (s ≡ going w))
Stage-cases (halted vs) = inl (vs, refl)
Stage-cases (going w) = inr (w, refl)

module _ (content : Content) (is_hard : MaterialId → Bool) (world : CellWorld)
    (seed : CellPos) where
  unchanged :
      (p : CellPos) (w : Walk)
      → Sound content is_hard world seed w
      → Covered content is_hard world seed (λ q. p ≡ q) w
      → Kept content is_hard world seed p w w
  unchanged p w s c = (s, c, (λ q h. h), refl)

  After-map :
      (p : CellPos) (w : Walk) (P Q : Walk → Type 0) (stage : Stage)
      → ((w' : Walk) → P w' → Q w')
      → After content is_hard world seed p w P stage
      → After content is_hard world seed p w Q stage
  After-map p w P Q (halted vs) f h = h
  After-map p w P Q (going w') f (k, h) = (k, f w' h)

  -- For one direction.
  abbrev Closed : MaterialId → CellPos → Walk → Type 0
  Closed m next w = (bonded_to content is_hard world m next ≡ false) ⊎ (has w.visited next ≡ true)

  look-Kept :
      (p : CellPos) (m : MaterialId) (w : Walk) (next : CellPos)
      → Sound content is_hard world seed w
      → Covered content is_hard world seed (λ q. p ≡ q) w
      → Reach content is_hard world seed p
      → terrain_at content is_hard world p ≡ some m
      → Beside neighbors p next
      → After content is_hard world seed p w (Closed m next) (look content is_hard world w m next)
  unfolding look
  look-Kept p m w next sound cov r t beside =
      let same = unchanged p w sound cov in
      elim (Bool-cases (has w.visited next)) [
        | inl h ↦ rw (look, h) (same, inr h)
        | inr h ↦ elim (Option-cases (rigid_terrain content is_hard world next)) [
          | inl e ↦ rw (look, h, e) (same, inl (rw (bonded_to, e) refl))
          | inr (cell, e) ↦
              let there : terrain_at content is_hard world next ≡ some cell.material =
                rw (terrain_at, e) refl in
              elim (Bool-cases (bonds content is_hard world m cell.material)) [
                | inr b ↦ rw (look, h, e, b) (same, inl (rw (bonded_to, e) b))
                | inl b ↦
                    let bonded : bonded_to content is_hard world m next ≡ true =
                      rw (bonded_to, e) b in
                    let reached : Reach content is_hard world seed next =
                      step m r t beside bonded in
                    rw (look, h, e, b)
                      (After-map p w (λ w'. has w'.visited next ≡ true) (Closed m next)
                        (push_cell content is_hard world w next cell.material) (λ w' k. inr k)
                        (push_cell-Kept content is_hard world seed p w next cell.material sound cov
                          h reached there))
              ]
        ]
      ]

  After-trans :
      (p : CellPos) (w w' : Walk) (m : MaterialId) (dx dy : ℤ) (ds : List (ℤ × ℤ))
      → Kept content is_hard world seed p w w'
      → Closed m (moved_by p dx dy) w'
      → (stage : Stage)
      → After content is_hard world seed p w'
          (λ v. ClosedFor content is_hard world seed v.visited p m ds)
          stage
      → After content is_hard world seed p w
          (λ v. ClosedFor content is_hard world seed v.visited p m ((dx, dy) ∷ ds))
          stage
  After-trans p w w' m dx dy ds kept closed (halted vs) h = h
  After-trans p w w' m dx dy ds (s, c, g, e) closed (going v) ((s', c', g', e'), h) =
      let still : Closed m (moved_by p dx dy) v = elim closed [
        | inl b ↦ inl b
        | inr b ↦ inr (g' (moved_by p dx dy) b)
      ] in
      ((s', c', (λ q k. g' q (g q k)), omega (arith, e, e')), (still, h))

  pub look_around-Kept :
      (p : CellPos) (m : MaterialId) (ds : List (ℤ × ℤ)) (w : Walk)
      → Sound content is_hard world seed w
      → Covered content is_hard world seed (λ q. p ≡ q) w
      → Reach content is_hard world seed p
      → terrain_at content is_hard world p ≡ some m
      → ((q : CellPos) → Beside ds p q → Beside neighbors p q)
      → After content is_hard world seed p w
          (λ w'. ClosedFor content is_hard world seed w'.visited p m ds)
          (look_around content is_hard world p m ds w)
  unfolding look_around
  look_around-Kept p m [] w sound cov r t near = (unchanged p w sound cov, tt)
  look_around-Kept p m ((dx, dy) ∷ ds) w sound cov r t near =
      let next = moved_by p dx dy in
      let first = look-Kept p m w next sound cov r t (near next (inl refl)) in
      elim (Stage-cases (look content is_hard world w m next)) [
        | inl (vs, e) ↦
            rw (look_around, e)
              (subst (After content is_hard world seed p w (Closed m next)) e first)
        | inr (w', e) ↦
            let (kept, closed) : Kept content is_hard world seed p w w' × Closed m next w' =
              subst (After content is_hard world seed p w (Closed m next)) e first in
            rw (look_around, e)
              (After-trans p w w' m dx dy ds kept closed
                (look_around content is_hard world p m ds w')
                (look_around-Kept p m ds w' kept.0 kept.1 r t (λ q h. near q (inr h))))
      ]
