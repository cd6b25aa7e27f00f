-- ===== src/HttpHead/Heads.antt =====
-- What the parser takes for the end of a head.
use websocat.Base.{
  ℕ, ◌+◌, ◌<◌, ◌≡◌, ◌≢◌, ◌⊎◌, inl, inr, refl, sym, ap, ◌∙◌, Bool, true, false, not, ◌&&◌, List, [],
  ◌∷◌, ◌++◌, arith, ◌==◌, length, All, length-append, Bytes, Bool-cases, append_assoc, subst,
  if-false,
}
use websocat.HttpHead.{
  HttpHeaderEndDetectionState, neutral, first_cr, first_lf, second_cr, found_header_end, next_state,
  found, still, is_found, parse,
}

pub parse-found :
    (s : HttpHeaderEndDetectionState) (xs ys : Bytes) (i o : ℕ)
    → parse s xs i ≡ found o
    → parse s (xs ++ ys) i ≡ found o
unfolding parse
parse-found s [] ys i o h = cc
parse-found s (x ∷ xs) ys i o h = elim (Bool-cases (is_found (next_state s x))) [
  | inl ends ↦ ground (arith, ends)
  | inr on ↦ ground (arith, on, parse-found (next_state s x) xs ys (i + 1) o)
]

pub parse-still :
    (s t : HttpHeaderEndDetectionState) (xs ys : Bytes) (i : ℕ)
    → parse s xs i ≡ still t
    → parse s (xs ++ ys) i ≡ parse t ys (i + length xs)
unfolding parse
parse-still s t [] ys i h =
    let same : s ≡ t = cc in ap (λ z. parse z ys i) same ∙ ap (parse t ys) (omega arith)
parse-still s t (x ∷ xs) ys i h = elim (Bool-cases (is_found (next_state s x))) [
  | inl ends ↦ absurd (cc (rw (ends, parse) at h))
  | inr on ↦
      rw (on, parse)
        (parse-still (next_state s x) t xs ys (i + 1) (rw (on, parse) at h)
          ∙ ap (parse t ys) (omega arith))
]

abbrev pub crlf : Bytes
crlf = b'\r' ∷ b'\n' ∷ []

-- Neither a carriage return nor a line feed.
abbrev pub is_plain : ℕ → Bool
is_plain c = not (c == b'\r') && not (c == b'\n')

abbrev pub IsPlain : Bytes → Type 0
IsPlain = All (λ c. is_plain c ≡ true)

-- A header line: some plain bytes.
abbrev pub IsHeaderLine : Bytes → Type 0
IsHeaderLine l = IsPlain l × (0 < length l)

-- Lines, each ended, and an empty one.
abbrev pub head_of : List Bytes → Bytes
head_of [] = crlf
head_of (l ∷ ls) = l ++ (crlf ++ head_of ls)

next_state-plain :
    (s : HttpHeaderEndDetectionState) (c : ℕ) → is_plain c ≡ true → next_state s c ≡ neutral
unfolding next_state
next_state-plain neutral c h = ground arith
next_state-plain first_cr c h = ground arith
next_state-plain first_lf c h = ground arith
next_state-plain second_cr c h = ground arith
next_state-plain found_header_end c h = refl

parse-step :
    (s t : HttpHeaderEndDetectionState) (c : ℕ) (xs : Bytes) (i : ℕ)
    → next_state s c ≡ t
    → is_found t ≡ false
    → parse s (c ∷ xs) i ≡ parse t xs (i + 1)
unfolding parse
parse-step s t c xs i e h =
    subst (λ t. is_found t ≡ false → parse s (c ∷ xs) i ≡ parse t xs (i + 1)) e
      (λ on. rw (on, parse)) h

parse-plain :
    (s : HttpHeaderEndDetectionState) (l : Bytes) (i : ℕ)
    → IsPlain l
    → 0 < length l
    → parse s l i ≡ still neutral
unfolding parse
parse-plain s [] i h pos = absurd (omega arith)
parse-plain s (c ∷ []) i h pos = parse-step s neutral c [] i (next_state-plain s c h.0) refl
parse-plain s (c ∷ (d ∷ l)) i h pos =
    parse-step s neutral c (d ∷ l) i (next_state-plain s c h.0) refl
    ∙ parse-plain neutral (d ∷ l) (i + 1) h.1 (omega arith)

parse-line :
    (s : HttpHeaderEndDetectionState) (l rest : Bytes) (i : ℕ)
    → IsHeaderLine l
    → parse s (l ++ (crlf ++ rest)) i ≡ parse first_lf rest (i + length l + 2)
unfolding parse next_state
parse-line s l rest i h =
    parse-still s neutral l (crlf ++ rest) i (parse-plain s l i h.0 h.1)
    ∙ ap (parse first_lf rest) (omega arith)

parse-head_of :
    (ls : List Bytes) (rest : Bytes) (i : ℕ)
    → All IsHeaderLine ls
    → parse first_lf (head_of ls ++ rest) i ≡ found (i + length (head_of ls))
unfolding parse next_state
parse-head_of [] rest i h = ap found (omega arith)
parse-head_of (l ∷ ls) rest i h =
    ap (λ z. parse first_lf z i) (append_assoc l (crlf ++ head_of ls) rest)
    ∙ parse-line first_lf l (head_of ls ++ rest) i h.0
    ∙ parse-head_of ls rest (i + length l + 2) h.1
    ∙ ap found (omega (arith, length-append l (crlf ++ head_of ls)))

-- The parser finds the end of a head of one or more nonempty lines without line breaks within them, each
-- ended by a carriage return and a line feed, and of an empty line, whatever follows it.
pub parse-finds :
    (l : Bytes) (ls : List Bytes) (rest : Bytes)
    → All IsHeaderLine (l ∷ ls)
    → parse neutral (head_of (l ∷ ls) ++ rest) 0 ≡ found (length (head_of (l ∷ ls)))
parse-finds l ls rest h =
    ap (λ z. parse neutral z 0) (append_assoc l (crlf ++ head_of ls) rest)
    ∙ parse-line neutral l (head_of ls ++ rest) 0 h.0
    ∙ parse-head_of ls rest (0 + length l + 2) h.1
    ∙ ap found (omega (arith, length-append l (crlf ++ head_of ls)))

next_state-lost :
    (s : HttpHeaderEndDetectionState) (c : ℕ)
    → (c == b'\r') ≡ false
    → (s ≡ neutral) ⊎ (s ≡ first_lf)
    → next_state s c ≡ neutral
unfolding next_state
next_state-lost neutral c h q = if-false _ _ h
next_state-lost first_lf c h q = if-false _ _ h
next_state-lost first_cr c h (inl e) = cc
next_state-lost first_cr c h (inr e) = cc
next_state-lost second_cr c h (inl e) = cc
next_state-lost second_cr c h (inr e) = cc
next_state-lost found_header_end c h q = refl

parse-lost :
    (xs : Bytes) (s : HttpHeaderEndDetectionState) (i o : ℕ)
    → All (λ c. (c == b'\r') ≡ false) xs
    → (s ≡ neutral) ⊎ (s ≡ first_lf)
    → parse s xs i ≢ found o
unfolding parse
parse-lost [] s i o h q = λ e. cc
parse-lost (c ∷ xs) s i o h q = λ e.
    parse-lost xs neutral (i + 1) o h.1 (inl refl)
      (sym (parse-step s neutral c xs i (next_state-lost s c h.0 q) refl) ∙ e)

-- One carriage return more in front of the end of a head, and the parser does not find the end: from
-- its second state such a byte takes it back to the first and not to the second.
pub parse-misses :
    (rest : Bytes) (o : ℕ)
    → All (λ c. (c == b'\r') ≡ false) rest
    → parse neutral (b'\r' ∷ (crlf ++ (crlf ++ rest))) 0 ≢ found o
unfolding parse next_state
parse-misses rest o h = parse-lost rest first_lf 5 o h (inr refl)
