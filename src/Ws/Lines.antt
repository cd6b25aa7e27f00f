-- ===== src/Ws/Lines.antt =====
-- A line of a WebSocket, and the message that it is made into and made of.
use websocat.Base.{
  ◌*◌, ◌/◌, ℕ, ◌+◌, ◌≤◌, ◌≡◌, ◌≢◌, inl, inr, refl, ap, Bool, true, false, Option, none, some, [],
  ◌∷◌, ◌++◌, length, All, Bytes, Bool-cases, ==_iff, ◌==◌,
}
use websocat.Ws.{
  text, binary, CompressionMethod, uncompressed, deflate, zlib, gzip, Foreign, uncompress, compress,
  Mode1, text_mode, binary_mode, WsWriteWrapper,
}
use websocat.Ws.Writing.{strip, by_prefix, chop, decoded, message_of}
use websocat.Ws.Encoded.{line}

-- What the code relies on of the encoders: decoders undo them, base64 has no carriage return, and is
-- not longer than the slice made for it.
pub record IsLawful (o : Foreign) : Type 0 where
  pub decodes : (x : Bytes) → o.base64_decode (o.base64_encode x) ≡ some x
  pub alphabet : (x : Bytes) → All (λ c. c ≢ b'\r') (o.base64_encode x)
  pub fits : (x : Bytes) → length (o.base64_encode x) ≤ length x * 3 / 2 + 3
  pub restores : (m : CompressionMethod) (x : Bytes) → o.decoder m (o.encoder m x) ≡ x

-- A prefix that a text does not begin with.
abbrev pub Unlike : Option Bytes → Bytes → Type 0
Unlike none buf = Unit
Unlike (some pr) buf = strip pr buf ≡ none

-- Without a prefix of its own, a mode is that of the writer.
abbrev pub Selects : Option Bytes → Mode1 → Mode1 → Type 0
Selects none current mode = current ≡ mode
Selects (some pr) current mode = Unit

pub strip-append : (pr x : Bytes) → strip pr (pr ++ x) ≡ some x
strip-append [] x = refl
strip-append (c ∷ pr) x = rw ((==_iff c c).1 refl) (strip-append pr x)

pub chop-append : (c : ℕ) (x : Bytes) → chop c (x ++ c ∷ []) ≡ x
unfolding chop
chop-append c [] = rw ((==_iff c c).1 refl) refl
chop-append c (x ∷ []) = rw ((==_iff c c).1 refl) refl
chop-append c (x ∷ (y ∷ xs)) = ap (◌∷◌ x) (chop-append c (y ∷ xs))

pub chop-none : (c : ℕ) (x : Bytes) → All (λ d. d ≢ c) x → chop c x ≡ x
unfolding chop
chop-none c [] h = refl
chop-none c (x ∷ []) h = elim (Bool-cases (x == c)) [
  | inl same ↦ absurd (h.0 ((==_iff x c).0 same))
  | inr other ↦ rw other refl
]
chop-none c (x ∷ (y ∷ xs)) h = ap (◌∷◌ x) (chop-none c (y ∷ xs) h.1)

-- What stands behind the prefix of a line.
abbrev pub payload : Foreign → Bool → Bytes → Bytes
payload o false x = x
payload o true x = o.base64_encode x ++ b'\n' ∷ []

abbrev pub prefixed : Option Bytes → Bytes → Bytes
prefixed none x = x
prefixed (some pr) x = pr ++ x

pub line-prefixed :
    (o : Foreign) (prefix : Option Bytes) (base64 : Bool) (x : Bytes)
    → line o prefix base64 x ≡ prefixed prefix (payload o base64 x)
line-prefixed o none false x = refl
line-prefixed o none true x = refl
line-prefixed o (some pr) false x = refl
line-prefixed o (some pr) true x = refl

pub decoded-payload :
    (o : Foreign) (base64 : Bool) (x : Bytes)
    → IsLawful o
    → decoded o base64 (payload o base64 x) ≡ x
unfolding decoded
decoded-payload o false x law = refl
decoded-payload o true x law =
    rw
      (
        chop-append b'\n' (o.base64_encode x),
        chop-none b'\r' (o.base64_encode x) (law.alphabet x),
        law.decodes x,
      )
      refl

-- The test for the line's own prefix, and that for the other one.
pub by_prefix-own :
    (prefix : Option Bytes) (mode current : Mode1) (x : Bytes)
    → Selects prefix current mode
    → by_prefix prefix mode (current, prefixed prefix x) ≡ (mode, x)
unfolding by_prefix
by_prefix-own none mode current x e = ap (λ m. (m, x)) e
by_prefix-own (some pr) mode current x e = rw (strip-append pr x) refl

pub by_prefix-other :
    (prefix : Option Bytes) (mode current : Mode1) (x : Bytes)
    → Unlike prefix x
    → by_prefix prefix mode (current, x) ≡ (current, x)
unfolding by_prefix
by_prefix-other none mode current x e = refl
by_prefix-other (some pr) mode current x e = rw e refl

pub uncompress-compress :
    (o : Foreign) (m : CompressionMethod) (x : Bytes)
    → IsLawful o
    → uncompress o m (compress o m x) ≡ x
unfolding uncompress compress
uncompress-compress o uncompressed x law = refl
uncompress-compress o deflate x law = law.restores deflate x
uncompress-compress o zlib x law = law.restores zlib x
uncompress-compress o gzip x law = law.restores gzip x

pub message_of-text :
    (o : Foreign) (w : WsWriteWrapper) (x : Bytes)
    → IsLawful o
    → o.is_utf8 x ≡ true
    → Selects w.text_prefix w.mode text_mode
    → Unlike w.binary_prefix (payload o w.text_base64 x)
    → message_of o w (line o w.text_prefix w.text_base64 x) ≡ text x
unfolding message_of
message_of-text o w x law utf8 own other =
    rw
      (
        line-prefixed o w.text_prefix w.text_base64 x,
        by_prefix-own w.text_prefix text_mode w.mode (payload o w.text_base64 x) own,
        by_prefix-other w.binary_prefix binary_mode text_mode (payload o w.text_base64 x) other,
        decoded-payload o w.text_base64 x law,
        utf8,
      )
      refl

pub message_of-binary :
    (o : Foreign) (w : WsWriteWrapper) (x : Bytes)
    → IsLawful o
    → Selects w.binary_prefix w.mode binary_mode
    → Unlike w.text_prefix (line o w.binary_prefix w.binary_base64 x)
    → message_of o w (line o w.binary_prefix w.binary_base64 x) ≡ binary (compress o w.compress x)
unfolding message_of
message_of-binary o w x law own other =
    rw
      (
        by_prefix-other w.text_prefix text_mode w.mode (line o w.binary_prefix w.binary_base64 x)
            other,
        line-prefixed o w.binary_prefix w.binary_base64 x,
        by_prefix-own w.binary_prefix binary_mode w.mode (payload o w.binary_base64 x) own,
        decoded-payload o w.binary_base64 x law,
      )
      refl
