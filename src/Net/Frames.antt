-- ===== src/Net/Frames.antt =====
-- `encode_frame` and `FrameBuffer` (crates/fallingsand_net/src/framing.rs). A byte is a number, the
-- buffer the list of the bytes that wait in it.
use fallingsand.Prelude.{
  ℕ, ◌+◌, ◌*◌, ◌/◌, ◌%◌, ◌≤◌, ◌≡◌, refl, arith, ltb, if◌then◌else◌, false, List, [], ◌∷◌, ◌++◌,
  length, get_or, take, drop, length-append, take_append, drop_append,
}

abbrev pub max_frame : ℕ
max_frame = 67_108_864

-- `to_le_bytes` of the length as a `u32`.
unfoldable pub header : ℕ → List ℕ
header n = n % 256 ∷ n / 256 % 256 ∷ n / 65_536 % 256 ∷ n / 16_777_216 % 256 ∷ []

unfoldable pub encode_frame : List ℕ → List ℕ
unfolding header
encode_frame message = header (length message) ++ message

-- `extend_from_slice`.
unfoldable pub push : List ℕ → List ℕ → List ℕ
push buffer bytes = buffer ++ bytes

-- `from_le_bytes` of the first four bytes.
unfoldable pub announced : List ℕ → ℕ
announced b = get_or b 0 0 + 256 * get_or b 1 0 + 65_536 * get_or b 2 0 + 16_777_216 * get_or b 3 0

-- `Ok(None)`, `Err(())`, and `Ok(Some(..))` with the buffer that is left.
pub data Next : Type 0 where
  waiting : Next
  refused : Next
  frame : List ℕ → List ℕ → Next

unfoldable pub next_frame : List ℕ → Next
unfolding announced
next_frame b =
    if ltb (length b) 4
    then waiting
    else (if ltb max_frame (announced b)
        then refused
        else (if ltb (length b) (4 + announced b)
            then waiting
            else frame (take (announced b) (drop 4 b)) (drop (announced b) (drop 4 b))))

length-encode_frame :
    (m rest : List ℕ) → length (encode_frame m ++ rest) ≡ 4 + length m + length rest
unfolding encode_frame header
length-encode_frame m rest = omega (arith, length-append m rest)

drop-encode_frame : (m rest : List ℕ) → drop 4 (encode_frame m ++ rest) ≡ m ++ rest
unfolding encode_frame header
drop-encode_frame m rest = refl

announced-encode_frame :
    (m rest : List ℕ) → length m ≤ max_frame → announced (encode_frame m ++ rest) ≡ length m
unfolding announced encode_frame header
announced-encode_frame m rest h = omega arith

-- A message of at most 64 MiB is read back from its frame, whatever bytes follow it; those stay in
-- the buffer.
pub next_frame-encode_frame :
    (m rest : List ℕ)
    → length m ≤ max_frame
    → next_frame (push (encode_frame m) rest) ≡ frame m rest
unfolding next_frame push
next_frame-encode_frame m rest h =
    let long : ltb (length (encode_frame m ++ rest)) 4 ≡ false =
      ground (arith, length-encode_frame m rest) in
    let fits : ltb max_frame (length m) ≡ false = ground arith in
    let all : ltb (length (encode_frame m ++ rest)) (4 + length m) ≡ false =
      ground (arith, length-encode_frame m rest) in
    rw
      (
        next_frame,
        announced-encode_frame m rest h,
        long,
        fits,
        all,
        drop-encode_frame m rest,
        take_append m rest,
        drop_append m rest,
      )
      refl
