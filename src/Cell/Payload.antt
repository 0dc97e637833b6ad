-- ===== src/Cell/Payload.antt =====
-- What is written into a cell is read back, and the writes do not disturb the rest of it.
use fallingsand.Prelude.{ℕ, ◌+◌, ◌*◌, ◌/◌, ◌%◌, ◌<◌, ◌≡◌, refl, ap, arith, true, false, some, none}
use fallingsand.Prelude.Int.{ℤ, pos, negsuc}
use fallingsand.Cell.State.{
  Cell, Motion, velocity, body, IsCell, clamp_i16, pattern16, signed16, motion, body_id, vel,
  set_vel, set_body, clear_body, set_moved, clear_moved, is_moved, set_stressed, clear_stressed,
  is_stressed,
}
use fallingsand.Cell.Flags.{
  moved_stress, moved_body, stress_moved, stress_body, body_moved, body_stress, body_cleared,
}

word16 :
    (v : ℤ)
    → signed16 (pattern16 (clamp_i16 v) % 256 + 256 * (pattern16 (clamp_i16 v) / 256)) ≡ clamp_i16 v
word16 (pos n) = ground arith
word16 (negsuc n) = ground arith

-- A velocity reads back as it was written, each component clamped to 16 bits. The flags, the
-- material and the shade stay.
pub vel-set_vel :
    (c : Cell) (vx vy : ℤ)
    → let c' = set_vel c vx vy in
      (vel c' ≡ (clamp_i16 vx, clamp_i16 vy))
      × (c'.flags ≡ c.flags)
      × (c'.material ≡ c.material)
      × (c'.shade ≡ c.shade)
unfolding vel set_vel
vel-set_vel c vx vy = (λ i. (word16 vx i, word16 vy i), refl, refl, refl)

id_bytes :
    (id : ℕ)
    → id < 4_294_967_296
    → id % 256
        + 256 * (id / 256 % 256)
        + 65_536 * (id / 65_536 % 256)
        + 16_777_216 * (id / 16_777_216 % 256)
      ≡ id
id_bytes id h = omega arith

-- Tagging a cell with a 32-bit body number makes it read as that body and keeps its other flags,
-- whatever it held; clearing the tag leaves it at rest.
pub motion-set_body :
    (c : Cell) (id : ℕ)
    → IsCell c
    → id < 4_294_967_296
    → (motion (set_body c id) ≡ body id)
      × (body_id (set_body c id) ≡ some id)
      × (is_moved (set_body c id) ≡ is_moved c)
      × (is_stressed (set_body c id) ≡ is_stressed c)
      × (motion (clear_body (set_body c id)) ≡ velocity (pos 0) (pos 0))
unfolding motion body_id set_body clear_body is_moved is_stressed
motion-set_body c id v h =
    let m = body_moved c.flags v.3 in
    let s = body_stress c.flags v.3 in
    let e = id_bytes id h in
    let tagged : motion (set_body c id) ≡ body id = rw (m.0, e) in
    (
      tagged,
      ap (λ (t : Motion). elim t [ body k ↦ some k | velocity a b ↦ none ]) tagged,
      m.2,
      s.2,
      rw (m.0, body_cleared c.flags v.3),
    )

-- Setting or clearing the moved flag, or the stress flag, decides that flag and leaves the other
-- flag and the motion.
pub flags_apart :
    (c : Cell)
    → IsCell c
    → (is_moved (set_moved c) ≡ true)
      × (is_moved (clear_moved c) ≡ false)
      × (is_stressed (set_moved c) ≡ is_stressed c)
      × (is_stressed (clear_moved c) ≡ is_stressed c)
      × (motion (set_moved c) ≡ motion c)
      × (motion (clear_moved c) ≡ motion c)
      × (is_stressed (set_stressed c) ≡ true)
      × (is_stressed (clear_stressed c) ≡ false)
      × (is_moved (set_stressed c) ≡ is_moved c)
      × (is_moved (clear_stressed c) ≡ is_moved c)
      × (motion (set_stressed c) ≡ motion c)
      × (motion (clear_stressed c) ≡ motion c)
unfolding motion is_moved is_stressed set_moved clear_moved set_stressed clear_stressed
flags_apart c v =
    let f = c.flags in
    let ms = moved_stress f v.3 in
    let mb = moved_body f v.3 in
    let sm = stress_moved f v.3 in
    let sb = stress_body f v.3 in
    (ms.0, ms.1, ms.2, ms.3, rw mb.2, rw mb.3, sm.0, sm.1, sm.2, sm.3, rw sb.2, rw sb.3)
