-- ===== src/HttpHead/Ends.antt =====
-- Whatever the parser takes for the end of a head is one.
use websocat.Base.{
  ℕ, ◌+◌, ◌≡◌, inl, inr, refl, sym, ap, ◌∙◌, true, false, [], ◌∷◌, ◌++◌, arith, ◌==◌, length,
  length-append, Bytes, Bool-cases, ==_iff, if-true, if-false, append_assoc, subst,
}
use websocat.HttpHead.{
  HttpHeaderEndDetectionState, neutral, first_cr, first_lf, second_cr, found_header_end, next_state,
  found, is_found, parse,
}
use websocat.HttpHead.Heads.{crlf}

-- The bytes of an end that a state stands for.
abbrev begun : HttpHeaderEndDetectionState → Bytes
begun neutral = []
begun first_cr = b'\r' ∷ []
begun first_lf = crlf
begun second_cr = b'\r' ∷ b'\n' ∷ b'\r' ∷ []
begun found_header_end = []

-- `o` lies behind an end of a head in `text`, whose index 0 is `i`.
abbrev pub IsEnd : Bytes → ℕ → ℕ → Type 0
IsEnd text i o =
    (before : Bytes) × (rest : Bytes) × (before ++ (crlf ++ (crlf ++ rest)) ≡ text)
    × (o ≡ i + length before + 4)

-- The end is begun again, or one byte of it more is there.
data Advance (s : HttpHeaderEndDetectionState) (c : ℕ) : HttpHeaderEndDetectionState → Type 0 where
  restarted : Advance s c neutral
  advanced :
      {t : HttpHeaderEndDetectionState}
      → is_found t ≡ false
      → begun t ≡ begun s ++ c ∷ []
      → Advance s c t
  completed : s ≡ second_cr → c ≡ b'\n' → Advance s c found_header_end

next_state-Advance : (s : HttpHeaderEndDetectionState) (c : ℕ) → Advance s c (next_state s c)
unfolding next_state
next_state-Advance neutral c = elim (Bool-cases (c == b'\r')) [
  | inl same ↦
      subst (Advance neutral c) (sym (if-true _ _ same))
        (advanced refl (ap (λ z. z ∷ []) (sym ((==_iff c _).0 same))))
  | inr differs ↦ subst (Advance neutral c) (sym (if-false _ _ differs)) restarted
]
next_state-Advance first_cr c = elim (Bool-cases (c == b'\n')) [
  | inl same ↦
      subst (Advance first_cr c) (sym (if-true _ _ same))
        (advanced refl (ap (λ z. b'\r' ∷ z ∷ []) (sym ((==_iff c _).0 same))))
  | inr differs ↦ subst (Advance first_cr c) (sym (if-false _ _ differs)) restarted
]
next_state-Advance first_lf c = elim (Bool-cases (c == b'\r')) [
  | inl same ↦
      subst (Advance first_lf c) (sym (if-true _ _ same))
        (advanced refl (ap (λ z. b'\r' ∷ b'\n' ∷ z ∷ []) (sym ((==_iff c _).0 same))))
  | inr differs ↦ subst (Advance first_lf c) (sym (if-false _ _ differs)) restarted
]
next_state-Advance second_cr c = elim (Bool-cases (c == b'\n')) [
  | inl same ↦
      subst (Advance second_cr c) (sym (if-true _ _ same)) (completed refl ((==_iff c _).0 same))
  | inr differs ↦ subst (Advance second_cr c) (sym (if-false _ _ differs)) restarted
]
next_state-Advance found_header_end c = restarted

-- With the bytes that the state stands for in front.
abbrev IsEndBehind : HttpHeaderEndDetectionState → Bytes → ℕ → ℕ → Type 0
IsEndBehind s xs i o =
    (before : Bytes) × (rest : Bytes) × (before ++ (crlf ++ (crlf ++ rest)) ≡ begun s ++ xs)
    × (o + length (begun s) ≡ i + length before + 4)

advance-IsEndBehind :
    (s t : HttpHeaderEndDetectionState) (c : ℕ) (xs : Bytes) (i o : ℕ)
    → is_found t ≡ false
    → Advance s c t
    → IsEndBehind t xs (i + 1) o
    → IsEndBehind s (c ∷ xs) i o
advance-IsEndBehind s _ c xs i o on restarted (before, rest, e, n) = (
  begun s ++ c ∷ before,
  rest,
  append_assoc (begun s) (c ∷ before) _ ∙ ap (λ z. begun s ++ c ∷ z) e,
  omega (arith, length-append (begun s) (c ∷ before)),
)
advance-IsEndBehind s t c xs i o on (advanced more b) (before, rest, e, n) = (
  before,
  rest,
  e ∙ ap (λ z. z ++ xs) b ∙ append_assoc (begun s) (c ∷ []) xs,
  omega (arith, ap length b, length-append (begun s) (c ∷ [])),
)
advance-IsEndBehind s _ c xs i o on (completed e n) h = cc

parse-IsEndBehind :
    (s : HttpHeaderEndDetectionState) (xs : Bytes) (i o : ℕ)
    → parse s xs i ≡ found o
    → IsEndBehind s xs i o
unfolding parse
parse-IsEndBehind s [] i o h = cc
parse-IsEndBehind s (c ∷ xs) i o h = elim (Bool-cases (is_found (next_state s c))) [
  | inl ends ↦
      let at_end : i + 1 ≡ o = found-eq (rw (ends, parse) at h) in
      finished s (next_state s c) c xs i o (next_state-Advance s c) ends at_end
  | inr on ↦
      advance-IsEndBehind s (next_state s c) c xs i o on (next_state-Advance s c)
        (parse-IsEndBehind (next_state s c) xs (i + 1) o (rw (on, parse) at h))
]
  where
    found-eq : {a b : ℕ} → found a ≡ found b → a ≡ b
    found-eq e = cc

    finished :
        (s t : HttpHeaderEndDetectionState) (c : ℕ) (xs : Bytes) (i o : ℕ)
        → Advance s c t
        → is_found t ≡ true
        → i + 1 ≡ o
        → IsEndBehind s (c ∷ xs) i o
    finished s _ c xs i o restarted ends at_end = cc
    finished s t c xs i o (advanced more b) ends at_end = cc
    finished s _ c xs i o (completed second lf) ends at_end =
        subst (λ s. IsEndBehind s (c ∷ xs) i o) (sym second)
          ([], xs, ap (λ z. b'\r' ∷ b'\n' ∷ b'\r' ∷ z ∷ xs) (sym lf), omega arith)

-- Where the parser finds the end of a head, the two line ends that end it stand just before.
pub parse-IsEnd : (text : Bytes) (o : ℕ) → parse neutral text 0 ≡ found o → IsEnd text 0 o
parse-IsEnd text o h =
    let (before, rest, e, n) = parse-IsEndBehind neutral text 0 o h in
    (before, rest, e, omega arith)
