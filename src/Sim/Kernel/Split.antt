-- ===== src/Sim/Kernel/Split.antt =====
-- The windows of one phase have no chunk in common (crates/fallingsand_sim/src/kernel.rs).
use fallingsand.Prelude.{
  ℕ, ◌/◌, ◌%◌, ◌≤◌, ◌<◌, ◌≡◌, refl, arith, true, ◌&&◌, ltb, ◌==◌, Option, none, some, is_some,
  if◌then◌else◌,
}
use fallingsand.Prelude.Words.{sub_i32, shr_i32, shl_i32}
use fallingsand.Coords.{ChunkPos}
use fallingsand.Sim.Kernel.Phase.{origin_of, in_phase, slot_in}

-- A coordinate of the origin of the window of a chunk.
abbrev start : ℕ → ℕ
start x = sub_i32 (shl_i32 (shr_i32 x 1) 1) 1

-- Along one axis, two windows of a parity that have a chunk in common start at the same place.
one_start :
    (a b c parity : ℕ)
    → a < 4_294_967_296
    → b < 4_294_967_296
    → c < 4_294_967_296
    → shr_i32 a 1 % 2 ≡ parity
    → shr_i32 b 1 % 2 ≡ parity
    → sub_i32 c (start a) < 4
    → sub_i32 c (start b) < 4
    → start a ≡ start b
one_start a b c parity ha hb hc pa pb sa sb = ground arith

own_start : (a : ℕ) → a < 4_294_967_296 → (1 ≤ sub_i32 a (start a)) × (sub_i32 a (start a) ≤ 2)
own_start a h = ground arith

abbrev pub IsPosition : ChunkPos → Type 0
IsPosition c = (c.x < 4_294_967_296) × (c.y < 4_294_967_296)

-- For chunks of 32-bit coordinates, the windows of two chunks of one phase are the same or have no
-- chunk in common: where both have a slot for a chunk, they start at the same origin.
pub phase_windows_apart :
    (phase : ℕ) (a b c : ChunkPos)
    → IsPosition a
    → IsPosition b
    → IsPosition c
    → in_phase phase a ≡ true
    → in_phase phase b ≡ true
    → is_some (slot_in (origin_of a) c) ≡ true
    → is_some (slot_in (origin_of b) c) ≡ true
    → origin_of a ≡ origin_of b
unfolding in_phase slot_in origin_of
phase_windows_apart phase a b c ha hb hc pa pb sa sb =
    let (pax, pay) =
      parities (shr_i32 a.x 1 % 2) (shr_i32 a.y 1 % 2) (phase % 2) (phase / 2 % 2) pa in
    let (pbx, pby) =
      parities (shr_i32 b.x 1 % 2) (shr_i32 b.y 1 % 2) (phase % 2) (phase / 2 % 2) pb in
    let (sax, say) = inside (sub_i32 c.x (start a.x)) (sub_i32 c.y (start a.y)) sa in
    let (sbx, sby) = inside (sub_i32 c.x (start b.x)) (sub_i32 c.y (start b.y)) sb in
    let ex = one_start a.x b.x c.x _ ha.0 hb.0 hc.0 pax pbx sax sbx in
    let ey = one_start a.y b.y c.y _ ha.1 hb.1 hc.1 pay pby say sby in rw (ex, ey) refl
  where
    parities : (x y p q : ℕ) → (x == p && y == q) ≡ true → (x ≡ p) × (y ≡ q)
    parities x y p q h = ground arith

    inside :
        (x y : ℕ)
        → is_some (if◌then◌else◌ {A = Option (ℕ × ℕ)} (ltb x 4 && ltb y 4) (some (x, y)) none)
          ≡ true
        → (x < 4) × (y < 4)
    inside x y h = ground arith

-- A chunk of 32-bit coordinates lies in its own window in one of the four slots in the middle, so the window has the eight
-- chunks around it, too.
pub own_slot :
    (c : ChunkPos)
    → IsPosition c
    → (s : ℕ × ℕ) × (slot_in (origin_of c) c ≡ some s)
      × (1 ≤ s.0)
      × (s.0 ≤ 2)
      × (1 ≤ s.1)
      × (s.1 ≤ 2)
unfolding slot_in origin_of
own_slot c h =
    let (xl, xh) = own_start c.x h.0 in
    let (yl, yh) = own_start c.y h.1 in
    ((sub_i32 c.x (start c.x), sub_i32 c.y (start c.y)), fits _ _ xh yh, xl, xh, yl, yh)
  where
    fits :
        (x y : ℕ)
        → x ≤ 2
        → y ≤ 2
        → if◌then◌else◌ {A = Option (ℕ × ℕ)} (ltb x 4 && ltb y 4) (some (x, y)) none ≡ some (x, y)
    fits x y hx hy = ground arith
