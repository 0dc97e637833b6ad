-- ===== src/Sim/Known/Phases.antt =====
-- The windows of a pass over chunks of known materials (crates/fallingsand_sim/src/kernel.rs).
use fallingsand.Prelude.{
  ℕ, zero, suc, ◌+◌, ◌-◌, ◌*◌, ◌<◌, ◌≤◌, ◌≡◌, inl, inr, refl, sym, ap, ◌∙◌, arith, Bool, true,
  false, not, ◌&&◌, ltb, if◌then◌else◌, Bool-cases, Option, none, some, Option-cases, List, [], ◌∷◌,
  get_or, get_elem?,
}
use fallingsand.Prelude as Prelude
use fallingsand.Coords.{CellPos, ChunkPos}
use fallingsand.Cell.{Cell, MaterialId}
use fallingsand.Chunk.State.{Chunk}
use fallingsand.Sim.Window.{Window, set_slot, chunk_at}
use fallingsand.Sim.Window.Cells.{cells_in, view_of, view_of-set}
use fallingsand.Sim.Window.Count.{Look, count_cells, count_view}
use fallingsand.Sim.World
use fallingsand.Sim.Kernel.Block.{each_cell}
use fallingsand.Sim.Kernel.Phase.{
  KernelEffects, origins, run_phase, member, empty_windows, set_in, hand_out, each_window,
  written_back, hand_back,
}
use fallingsand.Sim.Kernel.Step.{run_phases}
use fallingsand.Sim.Known.{AllCells, AllSeen}

module _ (K : MaterialId → Type 0) where
  abbrev AllWindows : List Window → Type 0
  AllWindows [] = Unit
  AllWindows (w ∷ ws) = AllSeen K w × AllWindows ws

  abbrev pub AllKnown : World.Chunks → Type 0
  AllKnown [] = Unit
  AllKnown ((c, chunk) ∷ rest) = AllCells K chunk.cells × AllKnown rest

  -- A rule that keeps the materials known, and so a pass over cells and over windows.
  module _ (rule : Window → CellPos → Option Window)
      (keeps : (w : Window) (p : CellPos)
        → AllSeen K w
        → (v : Window) × (rule w p ≡ some v) × AllSeen K v) where
    pub each_cell-AllSeen :
        (ps : List CellPos) (w : Window)
        → AllSeen K w
        → (v : Window) × (each_cell rule ps w ≡ some v) × AllSeen K v
    unfolding each_cell
    each_cell-AllSeen [] w k = (w, refl, k)
    each_cell-AllSeen (p ∷ ps) w k =
        let (u, e, ku) = keeps w p k in rw (each_cell, e) (each_cell-AllSeen ps u ku)

  module _ (kernel : Window → Option Window)
      (keeps : (w : Window) → AllSeen K w → (v : Window) × (kernel w ≡ some v) × AllSeen K v) where
    each_window-AllSeen :
        (ws : List Window)
        → AllWindows ws
        → (vs : List Window) × (each_window kernel ws ≡ some vs) × AllWindows vs
    unfolding each_window
    each_window-AllSeen [] h = ([], refl, tt)
    each_window-AllSeen (w ∷ ws) (k, ks) =
        let (v, e, kv) = keeps w k in
        let (vs, f, kvs) = each_window-AllSeen ws ks in
        rw (each_window, e, f) (v ∷ vs, refl, (kv, kvs))

  count-set_le :
      (l : Look) (v : List (List Cell)) (i : ℕ) (cs : List Cell)
      → count_view l (Prelude.set v i cs) ≤ count_view l v + count_cells l cs
  count-set_le l [] i cs = omega arith
  count-set_le l (x ∷ v) zero cs = omega arith
  count-set_le l (x ∷ v) (suc i) cs = omega (arith, count-set_le l v i cs)

  of_sum : (l : Look) (a b : ℕ) → (0 < a → K l.0) → (0 < b → K l.0) → 0 < a + b → K l.0
  of_sum l zero b h k lt = k (omega (arith, lt))
  of_sum l (suc a) b h k lt = h (omega arith)

  set_slot-AllSeen :
      (w : Window) (sx sy : ℕ) (chunk : Chunk)
      → AllCells K chunk.cells
      → AllSeen K w
      → AllSeen K (set_slot w sx sy chunk)
  unfolding set_slot
  set_slot-AllSeen w sx sy chunk kc k l lt =
      let i = sy * 4 + sx in
      of_sum l (count_view l (view_of w.slots)) (count_cells l chunk.cells) (k l) (kc l) (
        omega (
          arith,
          lt,
          ap (count_view l) (view_of-set w.slots i (some chunk)),
          count-set_le l (view_of w.slots) i chunk.cells,
        ))

  set_in-AllSeen :
      (ws : List Window) (i : ℕ) (s : ℕ × ℕ) (chunk : Chunk)
      → AllCells K chunk.cells
      → AllWindows ws
      → AllWindows (set_in ws i s chunk)
  unfolding set_in
  set_in-AllSeen [] i s chunk kc h = tt
  set_in-AllSeen (w ∷ ws) zero (sx, sy) chunk kc (k, ks) = (set_slot-AllSeen w sx sy chunk kc k, ks)
  set_in-AllSeen (w ∷ ws) (suc i) s chunk kc (k, ks) = (k, set_in-AllSeen ws i s chunk kc ks)

  hand_out-AllSeen :
      (os : List ChunkPos) (cs : World.Chunks) (ws : List Window)
      → AllKnown cs
      → AllWindows ws
      → AllWindows (hand_out os cs ws)
  unfolding hand_out
  hand_out-AllSeen os [] ws h k = k
  hand_out-AllSeen os ((c, chunk) ∷ rest) ws (h, hs) k = elim (Option-cases (member os 0 c)) [
    | inl e ↦ rw (hand_out, e) (hand_out-AllSeen os rest ws hs k)
    | inr ((i, s), e) ↦
        rw (hand_out, e)
          (hand_out-AllSeen os rest (set_in ws i s chunk) hs (set_in-AllSeen ws i s chunk h k))
  ]

  empty-AllSeen : (os : List ChunkPos) → AllWindows (empty_windows os)
  empty-AllSeen [] = tt
  empty-AllSeen (o ∷ os) = (λ l lt. absurd (omega (arith, lt)), empty-AllSeen os)

  slot-le :
      (l : Look) (ss : List (Option Chunk)) (i : ℕ)
      → count_cells l (cells_in (get_or ss i none)) ≤ count_view l (view_of ss)
  slot-le l [] i = omega arith
  slot-le l (s ∷ ss) zero = omega arith
  slot-le l (s ∷ ss) (suc i) = omega (arith, slot-le l ss i)

  chunk_at-AllSeen :
      (w : Window) (sx sy : ℕ) (chunk : Chunk)
      → chunk_at w sx sy ≡ some chunk
      → AllSeen K w
      → AllCells K chunk.cells
  unfolding chunk_at
  chunk_at-AllSeen w sx sy chunk e k l lt = elim (Bool-cases (ltb sx 4 && ltb sy 4)) [
    | inr b ↦ let bad = rw (chunk_at, b) at e in cc
    | inl b ↦
        let here : get_or w.slots (sy * 4 + sx) none ≡ some chunk = rw (chunk_at, b) at e in
        k l (
          omega (
            arith,
            lt,
            ap (λ (s : Option Chunk). count_cells l (cells_in s)) here,
            slot-le l w.slots (sy * 4 + sx),
          ))
  ]

  window-AllSeen :
      (ws : List Window) (i : ℕ) (w : Window)
      → get_elem? ws i ≡ some w
      → AllWindows ws
      → AllSeen K w
  window-AllSeen [] i w e h = cc
  window-AllSeen (x ∷ ws) zero w e h = let same : x ≡ w = cc in rw (sym same) h.0
  window-AllSeen (x ∷ ws) (suc i) w e h = window-AllSeen ws i w e h.1

  written_back-AllSeen :
      (ws : List Window) (m : Option (ℕ × (ℕ × ℕ))) (chunk : Chunk)
      → AllCells K chunk.cells
      → AllWindows ws
      → AllCells K (written_back ws m chunk).cells
  unfolding written_back
  written_back-AllSeen ws none chunk h k = h
  written_back-AllSeen ws (some (i, (sx, sy))) chunk h k = elim (Option-cases (get_elem? ws i)) [
    | inl e ↦ rw (written_back, e) h
    | inr (w, e) ↦ elim (Option-cases (chunk_at w sx sy)) [
      | inl f ↦ rw (written_back, e, f) h
      | inr (chunk', f) ↦
          rw (written_back, e, f) (chunk_at-AllSeen w sx sy chunk' f (window-AllSeen ws i w e k))
    ]
  ]

  hand_back-AllKnown :
      (os : List ChunkPos) (ws : List Window) (cs : World.Chunks)
      → AllKnown cs
      → AllWindows ws
      → AllKnown (hand_back os ws cs)
  unfolding hand_back
  hand_back-AllKnown os ws [] h k = tt
  hand_back-AllKnown os ws ((c, chunk) ∷ rest) (h, hs) k =
      (written_back-AllSeen ws (member os 0 c) chunk h k, hand_back-AllKnown os ws rest hs k)

  module _ (schedule : ChunkPos → Chunk → Bool) (kernel : Window → Option Window)
      (keeps : (w : Window) → AllSeen K w → (v : Window) × (kernel w ≡ some v) × AllSeen K v) where
    run_phase-AllKnown :
        (phase : ℕ) (s : World.Chunks × KernelEffects)
        → AllKnown s.0
        → (s' : World.Chunks × KernelEffects) × (run_phase phase schedule kernel s ≡ some s')
          × AllKnown s'.0
    unfolding run_phase
    run_phase-AllKnown phase (cs, effects) h =
        let os = origins phase schedule cs in
        let (ws, e, k) =
          each_window-AllSeen kernel keeps (hand_out os cs (empty_windows os))
            (hand_out-AllSeen os cs (empty_windows os) h (empty-AllSeen os)) in
        rw (run_phase, e) (_, refl, hand_back-AllKnown os ws cs h k)

    -- The phases end, and leave known materials.
    pub run_phases-AllKnown :
        (order : List ℕ) (s : World.Chunks × KernelEffects)
        → AllKnown s.0
        → (s' : World.Chunks × KernelEffects) × (run_phases order schedule kernel s ≡ some s')
          × AllKnown s'.0
    unfolding run_phases
    run_phases-AllKnown [] s h = (s, refl, h)
    run_phases-AllKnown (phase ∷ rest) s h =
        let (s', e, k) = run_phase-AllKnown phase s h in
        rw (run_phases, e) (run_phases-AllKnown rest s' k)
