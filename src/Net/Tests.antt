-- ===== src/Net/Tests.antt =====
-- A frame of two bytes with a third behind it, and a connection that closes for two reasons.
use fallingsand.Prelude.{◌≡◌, arith, true, false, none, some, [], ◌∷◌}
use fallingsand.Net.Frames.{frame, encode_frame, push, next_frame, next_frame-encode_frame}
use fallingsand.Net.Closing.{calls, status, status-calls}

next_frame-encode_frame_example :
    next_frame (push (encode_frame (7 ∷ 8 ∷ [])) (9 ∷ [])) ≡ frame (7 ∷ 8 ∷ []) (9 ∷ [])
next_frame-encode_frame_example = next_frame-encode_frame (7 ∷ 8 ∷ []) (9 ∷ []) (omega arith)

status-calls_example : status (calls none ((1, false) ∷ (2, true) ∷ (3, true) ∷ [])) ≡ some 2
status-calls_example = status-calls ((1, false) ∷ (2, true) ∷ (3, true) ∷ [])
