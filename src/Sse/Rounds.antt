-- ===== src/Sse/Rounds.antt =====
-- The rounds of `SseStream::write`: what each state has still to put out, and what a round leaves of it.
use websocat.Base.{
  ℕ, suc, zero, ◌+◌, ◌-◌, ◌<◌, ◌≤◌, ◌≡◌, refl, sym, ap, ◌∙◌, subst, inl, inr, false, [], ◌∷◌, ◌++◌,
  length, take, drop, get_or, take-append-drop, length-drop, drop-get_or, append_assoc, append-nil,
  drop-all, drop-drop, Bytes, ltb, ltb→lt, ltb→ge, ◌==◌, ==_iff, Bool-cases, if-true, if-false,
  if◌then◌else◌, arith,
}
use websocat.Sse.{
  SseState, before_line, inside_line, after_line, trailer, data_prefix, newline, until_newline,
  advanced,
}

-- The event of a message, from inside a line on: each line break ends a line and begins another, and the
-- end of the message ends the last line, and the event with an empty line.
abbrev pub lines_of : Bytes → Bytes
lines_of [] = b'\n' ∷ b'\n' ∷ []
lines_of (x ∷ xs) = if x == b'\n' then b'\n' ∷ (data_prefix ++ lines_of xs) else x ∷ lines_of xs

abbrev pub event_of : Bytes → Bytes
event_of buf = data_prefix ++ lines_of buf

-- Behind the line break that ends a line.
abbrev pub behind_line : Bytes → Bytes
behind_line [] = newline
behind_line (x ∷ xs) =
    if x == b'\n' then data_prefix ++ lines_of xs else data_prefix ++ lines_of (x ∷ xs)

-- What a state has still to put out.
abbrev pub pending : Bytes → SseState → ℕ → Bytes
pending buf (before_line x) c = drop x data_prefix ++ lines_of (drop c buf)
pending buf inside_line c = lines_of (drop c buf)
pending buf after_line c = newline ++ behind_line (drop c buf)
pending buf trailer c = newline

abbrev pub IsPlaced : Bytes → SseState → ℕ → Type 0
IsPlaced buf (before_line x) c = (x < 6) × (c ≤ length buf)
IsPlaced buf inside_line c = c ≤ length buf
IsPlaced buf after_line c = c ≤ length buf
IsPlaced buf trailer c = c ≡ length buf

lines_of-take :
    (k : ℕ) (xs : Bytes)
    → k ≤ length (until_newline xs)
    → lines_of xs ≡ take k (until_newline xs) ++ lines_of (drop k xs)
lines_of-take zero xs le = refl
lines_of-take (suc k) [] le = absurd (omega arith)
lines_of-take (suc k) (x ∷ xs) le = elim (Bool-cases (x == b'\n')) [
  | inl same ↦ absurd (omega (arith, (rw same at le)))
  | inr differs ↦ rw (differs) (ap (◌∷◌ x) (lines_of-take k xs (omega (arith, (rw differs at le)))))
]

lines_of-line :
    (xs : Bytes)
    → lines_of (drop (length (until_newline xs)) xs)
      ≡ newline ++ behind_line (drop (length (until_newline xs)) xs)
lines_of-line [] = refl
lines_of-line (x ∷ xs) = elim (Bool-cases (x == b'\n')) [
  | inl same ↦ rw (same) (rw (same) refl)
  | inr differs ↦ rw (differs) (lines_of-line xs)
]

length-until : (xs : Bytes) → length (until_newline xs) ≤ length xs
length-until [] = omega arith
length-until (x ∷ xs) = elim (Bool-cases (x == b'\n')) [
  | inl same ↦ rw (same) (omega arith)
  | inr differs ↦ rw (differs) (omega (arith, length-until xs))
]

below_six : (ll x : ℕ) → x < 6 → ll ≤ 6 - x → (ll + x == 6) ≡ false → ll + x < 6
below_six ll x lt fits part = ground arith

-- One round behind a write that takes `ll` bytes of those offered.
module _ (buf : Bytes) where
  unfoldable pub IsRound : Bytes → SseState → ℕ → ℕ → Type 0
  IsRound o st c ll =
      let next = advanced st ll (length o) c buf in
      (pending buf st c ≡ take ll o ++ pending buf next.0 next.1) × IsPlaced buf next.0 next.1

  prefix-split :
      (x ll : ℕ) (rest : Bytes)
      → drop x data_prefix ++ rest
        ≡ take ll (drop x data_prefix) ++ (drop (ll + x) data_prefix ++ rest)
  prefix-split x ll rest =
      let left = drop x data_prefix in
      let there : x + ll ≡ ll + x = omega arith in
      ap (λ z. z ++ rest)
        (sym (take-append-drop ll left)
          ∙ ap (λ z. take ll left ++ z)
              (drop-drop ll x data_prefix ∙ ap (λ k. drop k data_prefix) there))
      ∙ append_assoc (take ll left) (drop (ll + x) data_prefix) rest

  pub before_line-IsRound :
      (x c ll : ℕ)
      → x < 6
      → c ≤ length buf
      → ll ≤ 6 - x
      → IsRound (drop x data_prefix) (before_line x) c ll
  unfolding IsRound advanced
  before_line-IsRound x c ll lt le fits = elim (Bool-cases (ll + x == 6)) [
    | inl all ↦ rw (all) (
      prefix-split x ll (lines_of (drop c buf))
          ∙ ap (λ k. take ll (drop x data_prefix) ++ (drop k data_prefix ++ lines_of (drop c buf)))
              ((==_iff (ll + x) 6).0 all),
      le,
    )
    | inr part ↦
        rw (part) (prefix-split x ll (lines_of (drop c buf)), (below_six ll x lt fits part, le))
  ]

  pub inside_line-IsRound :
      (c ll : ℕ)
      → c ≤ length buf
      → ll ≤ length (until_newline (drop c buf))
      → IsRound (until_newline (drop c buf)) inside_line c ll
  unfolding IsRound advanced
  inside_line-IsRound c ll le fits =
      elim (Bool-cases (ltb ll (length (until_newline (drop c buf))))) [
        | inl part ↦ rw (part) (
          lines_of-take ll (drop c buf) fits
              ∙ ap (λ z. take ll (until_newline (drop c buf)) ++ lines_of z) (drop-drop ll c buf),
          omega (arith, fits, length-until (drop c buf), length-drop c buf),
        )
        | inr all ↦
            let d = drop c buf in
            let same : length (until_newline d) ≡ ll =
              omega (arith, fits, ltb→ge ll (length (until_newline d)) all) in
            rw (all) (
              lines_of-take ll d fits
                  ∙ ap (λ z. take ll (until_newline d) ++ z)
                      (subst (λ k. lines_of (drop k d) ≡ newline ++ behind_line (drop k d)) same
                          (lines_of-line d)
                        ∙ ap (λ z. newline ++ behind_line z) (drop-drop ll c buf)),
              omega (arith, fits, length-until d, length-drop c buf),
            )
      ]

  drop-at : (c : ℕ) → c < length buf → drop c buf ≡ get_or buf c 0 ∷ drop (suc c) buf
  drop-at c lt =
      subst (λ z. drop c buf ≡ get_or z c 0 ∷ drop (suc c) buf) (append-nil buf)
        (drop-get_or c buf [] 0 lt)

  pub after_line-IsRound : (c : ℕ) → c ≤ length buf → IsRound newline after_line c 1
  unfolding IsRound advanced
  after_line-IsRound c le = elim (Bool-cases (ltb c (length buf))) [
    | inl more ↦
        let e = drop-at c (ltb→lt c (length buf) more) in
        let next : suc c ≡ c + 1 = omega arith in
        elim (Bool-cases (get_or buf c 0 == b'\n')) [
          | inl same ↦
              rw (more, same)
                (
                  ap (λ z. newline ++ behind_line z) e
                      ∙ ap (λ z. newline ++ z) (if-true _ _ same)
                      ∙ ap (λ k. newline ++ (data_prefix ++ lines_of (drop k buf))) next,
                  (omega arith, omega (arith, ltb→lt c (length buf) more)),
                )
          | inr differs ↦
              rw (more, differs)
                (
                  ap (λ z. newline ++ behind_line z) e
                      ∙ ap (λ z. newline ++ z) (if-false _ _ differs)
                      ∙ ap (λ z. newline ++ (data_prefix ++ lines_of z)) (sym e),
                  (omega arith, le),
                )
        ]
    | inr over ↦
        let end = ltb→ge c (length buf) over in
        rw (over) (ap (λ z. newline ++ behind_line z) (drop-all c buf end), omega (arith, le, end))
  ]
