-- ===== src/HttpHead/Amid.antt =====
-- The buffer of `WaitForHttpHead`, in the middle of a stream.
use websocat.Base.{
  ℕ, suc, zero, ◌+◌, ◌-◌, ◌≤◌, ◌≡◌, inl, inr, refl, sym, ap, ◌∙◌, List, [], ◌∷◌, ◌++◌, arith, ltb,
  length, take, drop, length-append, length-take, length-drop, Bytes, IoResult, ok, err, Bool-cases,
  ltb→ge, take-append_left, drop-append_left, append_assoc, replicate, if-true, if-false,
  take-append_le,
}
use websocat.HttpHead.{
  HttpHeaderEndDetectionState, neutral, WaitForHttpHead, HeadPoll, ready, not_ready, failed, found,
  still, parse, grown, read_at, reading,
}
use websocat.Line.Framed.{take-take}

-- What the reads that are left give.
abbrev pub unread : List (IoResult Bytes) → Bytes
unread [] = []
unread (ok x ∷ rs) = take 1024 x ++ unread rs
unread (err e ∷ rs) = unread rs

-- The state in the middle of a stream `all`: the bytes before the offset are those read, the parser has run
-- over them, and the buffer has no more than 1024 bytes behind the offset.
pub record IsAmid (all b : Bytes) (offset : ℕ) (s : HttpHeaderEndDetectionState)
    (rs : List (IoResult Bytes)) : Type 0 where
  pub in_buf : offset ≤ length b
  pub room : length b ≤ offset + 1024
  pub parsed : parse neutral (take offset b) 0 ≡ still s
  pub whole : take offset b ++ unread rs ≡ all

pub data IsReading (all : Bytes) : WaitForHttpHead → Type 0 where
  amid :
      {b : Bytes} {offset : ℕ} {s : HttpHeaderEndDetectionState} {rs : List (IoResult Bytes)}
      → IsAmid all b offset s rs
      → IsReading all (reading b offset s rs)

-- A head is found where the parser finds it in the whole stream, and what is returned is the part of
-- the stream that was read; a future that is not ready can go on.
abbrev pub IsFaithful : Bytes → WaitForHttpHead × HeadPoll → Type 0
IsFaithful all (w, ready b o) = (parse neutral all 0 ≡ found o) × (rest : Bytes) × (b ++ rest ≡ all)
IsFaithful all (w, not_ready) = IsReading all w
IsFaithful all (w, failed e) = Unit

pub length-replicate : (n c : ℕ) → length (replicate n c) ≡ n
length-replicate zero c = refl
length-replicate (suc n) c = ap suc (length-replicate n c)

pub length-grown :
    (offset : ℕ) (b : Bytes) → length b ≤ offset + 1024 → length (grown offset b) ≡ offset + 1024
length-grown offset b room = elim (Bool-cases (ltb (length b) (offset + 1024))) [
  | inl short ↦
      ap length (if-true _ _ short)
      ∙ omega (
        arith,
        length-append (take (offset + 1024) b) (replicate (offset + 1024 - length b) 0),
        length-take (offset + 1024) b,
        length-replicate (offset + 1024 - length b) 0,
      )
  | inr long ↦ ap length (if-false _ _ long) ∙ omega (arith, ltb→ge (length b) (offset + 1024) long)
]

pub take-grown :
    (offset : ℕ) (b : Bytes) → offset ≤ length b → take offset (grown offset b) ≡ take offset b
take-grown offset b le = elim (Bool-cases (ltb (length b) (offset + 1024))) [
  | inl short ↦
      ap (take offset) (if-true _ _ short)
      ∙ take-append_le offset (take (offset + 1024) b) _
          (omega (arith, length-take (offset + 1024) b))
      ∙ take-take offset (offset + 1024) b
      ∙ ap (λ n. take n b) (omega arith)
  | inr long ↦ ap (take offset) (if-false _ _ long)
]

pub length-read_at :
    (offset : ℕ) (y b : Bytes)
    → offset + length y ≤ length b
    → length (read_at offset y b) ≡ length b
length-read_at offset y b le = omega (
  arith,
  length-append (take offset b) (y ++ drop (offset + length y) b),
  length-append y (drop (offset + length y) b),
  length-take offset b,
  length-drop (offset + length y) b,
)

pub drop-append_all : (n : ℕ) (xs ys : Bytes) → length xs ≡ n → drop n (xs ++ ys) ≡ ys
drop-append_all n xs ys e = ap (λ k. drop k (xs ++ ys)) (sym e) ∙ drop-append_left xs ys

pub take-append_all : (n : ℕ) (xs ys : Bytes) → length xs ≡ n → take n (xs ++ ys) ≡ xs
take-append_all n xs ys e = ap (λ k. take k (xs ++ ys)) (sym e) ∙ take-append_left xs ys

-- The bytes read, as the parser goes over them.
pub read_at-chunk :
    (offset : ℕ) (y b : Bytes)
    → offset ≤ length b
    → take (length y) (drop offset (read_at offset y b)) ≡ y
read_at-chunk offset y b le =
    ap (take (length y))
      (drop-append_all offset (take offset b) _ (omega (arith, length-take offset b)))
    ∙ take-append_left y _

pub read_at-front :
    (offset : ℕ) (y b : Bytes)
    → offset ≤ length b
    → take (offset + length y) (read_at offset y b) ≡ take offset b ++ y
read_at-front offset y b le =
    ap (take (offset + length y)) (sym (append_assoc (take offset b) y _))
    ∙ take-append_all (offset + length y) (take offset b ++ y) _
        (omega (arith, length-append (take offset b) y, length-take offset b))
