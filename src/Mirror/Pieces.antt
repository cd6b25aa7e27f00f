-- ===== src/Mirror/Pieces.antt =====
-- Messages cut into pieces of a buffer's length, and what the buffer holds after one piece.
use websocat.Base.{
  ℕ, suc, zero, ◌-◌, ◌<◌, ◌≤◌, ◌≡◌, inl, inr, refl, ap, Option, none, some, List, [], ◌∷◌, ◌++◌,
  arith, ltb, if◌then◌else◌, length, take, drop, length-append, length-take, length-drop, Bytes,
  Bool-cases, take-all, take-take_append,
}
use websocat.ReadDebt.Delivery.{share, remainder, owed}

-- A message of any length in pieces of at most `cap` bytes; the first argument bounds their number.
abbrev pub pieces : ℕ → ℕ → Bytes → List Bytes
pieces zero cap msg = msg ∷ []
pieces (suc f) cap msg =
    if ltb cap (length msg) then take cap msg ∷ pieces f cap (drop cap msg) else msg ∷ []

abbrev pub split : ℕ → Bytes → List Bytes
split cap msg = pieces (length msg) cap msg

abbrev pub split_owed : ℕ → Option Bytes → List Bytes
split_owed cap none = []
split_owed cap (some d) = split cap d

abbrev pub split_all : ℕ → List Bytes → List Bytes
split_all cap [] = []
split_all cap (m ∷ ms) = split cap m ++ split_all cap ms

pub pieces-fuel :
    (f g cap : ℕ) (d : Bytes)
    → 0 < cap
    → length d ≤ f
    → length d ≤ g
    → pieces f cap d ≡ pieces g cap d
pieces-fuel zero zero cap d c hf hg = refl
pieces-fuel zero (suc g) cap d c hf hg = ground arith
pieces-fuel (suc f) zero cap d c hf hg = ground arith
pieces-fuel (suc f) (suc g) cap d c hf hg =
    ground (arith, pieces-fuel f g cap (drop cap d) c, length-drop cap d)

pub split-step :
    (buf d : Bytes)
    → 0 < length buf
    → split (length buf) d
      ≡ take (share buf d) d ∷ split_owed (length buf) (remainder (share buf d) d)
split-step buf [] pos = ground arith
split-step buf (x ∷ d) pos = elim (Bool-cases (ltb (length buf) (length (x ∷ d)))) [
  | inl more ↦
      rw (more, more)
        (ap (◌∷◌ (take (length buf) (x ∷ d))) (
          pieces-fuel (length d) (length (drop (length buf) (x ∷ d))) (length buf)
            (drop (length buf) (x ∷ d)) pos (omega (arith, length-drop (length buf) (x ∷ d)))
            (omega arith)))
  | inr all ↦ rw all (ground (arith, take-all (length d) d))
]

pub share-pos : (buf d : Bytes) → 0 < length buf → 0 < length d → 0 < share buf d
share-pos buf d pos some_bytes = ground arith

pub length-owed-remainder : (l : ℕ) (d : Bytes) → length (owed (remainder l d)) ≡ length d - l
length-owed-remainder l d = ground (arith, length-drop l d)

pub share-le : (buf d : Bytes) → share buf d ≤ length d
share-le buf d = ground arith

-- The buffer after `d` was put into it.
abbrev pub filled : Bytes → Bytes → Bytes
filled buf d = take (share buf d) d ++ drop (share buf d) buf

pub length-filled : (buf d : Bytes) → length (filled buf d) ≡ length buf
length-filled buf d = omega (
  arith,
  length-append (take (share buf d) d) (drop (share buf d) buf),
  length-take (share buf d) d,
  length-drop (share buf d) buf,
  share_bounds,
)
  where
    share_bounds : (share buf d ≤ length d) × (share buf d ≤ length buf)
    share_bounds = ground arith

pub split-joined :
    (buf d : Bytes) (rest : List Bytes)
    → 0 < length buf
    → take (share buf d) (filled buf d)
        ∷ (split_owed (length buf) (remainder (share buf d) d) ++ rest)
      ≡ split (length buf) d ++ rest
split-joined buf d rest pos = rw (
  take-take_append (share buf d) d (drop (share buf d) buf) (share-le buf d),
  split-step buf d pos,
)
