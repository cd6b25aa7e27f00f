-- ===== src/Ws/Encoded.antt =====
-- ws_peer.rs: the room that `process_prefixes_and_base64` makes for an encoded message.
use websocat.Base.{
  ◌*◌, ◌/◌, ℕ, ◌+◌, ◌≤◌, ◌≡◌, refl, true, false, Bool, Option, none, some, [], ◌∷◌, ◌++◌, arith,
  length, Bytes, returns, if-false, ge→ltb,
}
use websocat.Ws.{Foreign}
use websocat.Ws.Reading.{encode_config_slice, process_prefixes_and_base64}

encode_config_slice-returns :
    (o : Foreign) (q : Bytes) (room : ℕ)
    → length (o.base64_encode q) ≤ room
    → encode_config_slice o q room ≡ returns (o.base64_encode q)
unfolding encode_config_slice
encode_config_slice-returns o q room le =
    if-false _ _ (ge→ltb room (length (o.base64_encode q)) (omega arith))

-- The bytes that a prefix and base64 make of a message.
abbrev pub line : Foreign → Option Bytes → Bool → Bytes → Bytes
line o none false q = q
line o (some pr) false q = pr ++ q
line o none true q = o.base64_encode q ++ b'\n' ∷ []
line o (some pr) true q = pr ++ (o.base64_encode q ++ b'\n' ∷ [])

-- If an encoding fits one and a half times the room of the message and three bytes, no slice is too
-- short.
pub process_prefixes_and_base64-line :
    (o : Foreign) (prefix : Option Bytes) (base64 : Bool) (q : Bytes)
    → length (o.base64_encode q) ≤ length q * 3 / 2 + 3
    → process_prefixes_and_base64 o prefix base64 q ≡ returns (line o prefix base64 q)
unfolding process_prefixes_and_base64
process_prefixes_and_base64-line o none false q le = refl
process_prefixes_and_base64-line o (some pr) false q le = refl
process_prefixes_and_base64-line o none true q le =
    rw (encode_config_slice-returns o q (length q * 3 / 2 + 3) le) refl
process_prefixes_and_base64-line o (some pr) true q le =
    rw (encode_config_slice-returns o q (length q * 3 / 2 + 3) le) refl

-- Padded base64 gives four bytes for each three or part of three; the slice made for it is never too
-- short, with or without a prefix: the message becomes its prefix, its encoding if it is encoded, and
-- then a newline.
pub process_prefixes_and_base64-fits :
    (o : Foreign) (prefix : Option Bytes) (base64 : Bool) (q : Bytes)
    → length (o.base64_encode q) ≡ 4 * ((length q + 2) / 3)
    → process_prefixes_and_base64 o prefix base64 q ≡ returns (line o prefix base64 q)
process_prefixes_and_base64-fits o prefix base64 q e =
    process_prefixes_and_base64-line o prefix base64 q (omega arith)
