-- ===== src/Line/Framed.antt =====
-- A message that `Line2PacketWrapper` delivers holds no more than one line.
use websocat.Base.{
  ℕ, suc, zero, ◌+◌, ◌-◌, ◌≤◌, ◌≡◌, inl, inr, refl, sym, ap, ◌∙◌, Bool, true, false, not, ◌&&◌,
  ◌||◌, none, some, [], ◌∷◌, arith, ltb, length, take, drop, is_empty, length-take, Bytes,
  Bool-cases, Option-cases, ltb→lt, take-all, take-take_append, min, subst, take-append_le, if-true,
  if-false,
}
use websocat.Line.{
  Script, LineRead, Line2PacketWrapper, Delivered, deliver_the_line, hand_over, chomp,
  chomp_terminator, char_to_look_at, position, at_eof, has, happy_case, line_read, overwritten,
}
use websocat.Line.Rounds.{
  Answer, ended, line, blocked, failed, finished, happy, Recursion, dropped, collected, Rounds,
  last, again, line_read-Rounds, position-lt,
}
use websocat.Line.Conserved.{sent}

-- No `c` but perhaps at the end.
abbrev pub IsFramed : ℕ → Bytes → Type 0
IsFramed c m = has c (take (length m - 1) m) ≡ false

pub chomp-le : (c : ℕ) (b : Bytes) (n : ℕ) → chomp c b n ≤ n
chomp-le c b zero = omega arith
chomp-le c b (suc n) = ground arith

chomp_terminator-le : (s : Line2PacketWrapper) (buf : Bytes) (n : ℕ) → chomp_terminator s buf n ≤ n
unfolding chomp_terminator
chomp_terminator-le s buf n = ground (
  arith,
  chomp-le b'\n' buf n,
  chomp-le b'\r' buf (chomp b'\n' buf n),
  chomp-le 0 buf n,
  chomp-le 0 buf (chomp b'\r' buf (chomp b'\n' buf n)),
)

hand_over-front :
    (s : Line2PacketWrapper) (buf : Bytes) (m k n : ℕ)
    → m ≤ k
    → k ≤ length s.queue
    → (hand_over s buf m).result ≡ some n
    → (n ≤ k) × (take n (hand_over s buf m).buf ≡ take n s.queue)
hand_over-front s buf m k n le le' given =
    let same : m ≡ n = cc in
    subst (λ j. (j ≤ k) × (take j (hand_over s buf m).buf ≡ take j s.queue)) same
      (le, take-take_append m s.queue _ (omega arith))

-- What is delivered of a line is its front.
deliver-front :
    (s : Line2PacketWrapper) (buf : Bytes) (k n : ℕ)
    → k ≤ length s.queue
    → (deliver_the_line s buf k).result ≡ some n
    → (n ≤ k) × (take n (deliver_the_line s buf k).buf ≡ take n s.queue)
unfolding deliver_the_line
deliver-front s buf k n le given = elim (Bool-cases (ltb (length buf) k)) [
  | inl long ↦ elim (Bool-cases s.drop_too_long_lines) [
    | inl drops ↦ absurd (cc (ap Delivered.result (if-true _ _ long ∙ if-true _ _ drops), given))
    | inr keeps ↦
        handed (length buf) (omega (arith, ltb→lt (length buf) k long))
          (if-true _ _ long ∙ if-false _ _ keeps)
  ]
  | inr fits ↦ handed (chomp_terminator s buf k) (chomp_terminator-le s buf k) (if-false _ _ fits)
]
  where
    handed :
        (m : ℕ)
        → m ≤ k
        → deliver_the_line s buf k ≡ hand_over s buf m
        → (n ≤ k) × (take n (deliver_the_line s buf k).buf ≡ take n s.queue)
    handed m le' e =
        subst (λ d. (n ≤ k) × (take n d.buf ≡ take n s.queue)) (sym e)
          (hand_over-front s buf m k n le' le (ap Delivered.result (sym e) ∙ given))

pub take-take : (j n : ℕ) (xs : Bytes) → take j (take n xs) ≡ take (min j n) xs
take-take zero n xs = let none_left : 0 ≡ min 0 n = omega arith in ap (λ k. take k xs) none_left
take-take (suc j) zero xs =
    let none_left : 0 ≡ min (suc j) 0 = omega arith in ap (λ k. take k xs) none_left
take-take (suc j) (suc n) [] = sym (take-all (min (suc j) (suc n)) [] (omega arith))
take-take (suc j) (suc n) (x ∷ xs) =
    let both : suc (min j n) ≡ min (suc j) (suc n) = omega arith in
    ap (◌∷◌ x) (take-take j n xs) ∙ ap (λ k. take k (x ∷ xs)) both

has-take_le :
    (c i j : ℕ) (xs : Bytes) → j ≤ i → has c (take i xs) ≡ false → has c (take j xs) ≡ false
unfolding has
has-take_le c i zero xs le h = refl
has-take_le c zero (suc j) xs le h = absurd (omega arith)
has-take_le c (suc i) (suc j) [] le h = refl
has-take_le c (suc i) (suc j) (x ∷ xs) le h = ground (arith, has-take_le c i j xs)

position-has : (c : ℕ) (xs : Bytes) (i : ℕ) → position c xs ≡ some i → has c (take i xs) ≡ false
unfolding position has
position-has c [] i h = cc
position-has c (x ∷ xs) i h = elim (Option-cases (position c xs)) [
  | inl absent ↦ ground arith
  | inr (j, at) ↦ ground (arith, position-has c xs j at)
]

position-none : (c : ℕ) (xs : Bytes) → position c xs ≡ none → has c xs ≡ false
unfolding position has
position-none c [] h = refl
position-none c (x ∷ xs) h = elim (Option-cases (position c xs)) [
  | inl absent ↦ ground (arith, position-none c xs absent)
  | inr (j, at) ↦ ground arith
]

front-IsFramed :
    (c i n : ℕ) (xs : Bytes) → n ≤ suc i → has c (take i xs) ≡ false → IsFramed c (take n xs)
front-IsFramed c i n xs le h =
    ap (has c) (take-take (length (take n xs) - 1) n xs)
    ∙ has-take_le c i _ xs (omega (arith, length-take n xs)) h

all-IsFramed : (c n : ℕ) (xs : Bytes) → has c xs ≡ false → IsFramed c (take n xs)
all-IsFramed c n xs h =
    front-IsFramed c (n + length xs) n xs (omega arith)
      (ap (has c) (take-all (n + length xs) xs (omega arith)) ∙ h)

at_eof-IsFramed :
    (c : ℕ) (s : Line2PacketWrapper) (buf : Bytes)
    → has c s.queue ≡ false
    → IsFramed c (sent (at_eof s buf))
unfolding at_eof has
at_eof-IsFramed c s buf h = elim (Bool-cases (is_empty s.queue || not s.allow_incomplete_lines)) [
  | inl nothing_more ↦ rw nothing_more refl
  | inr rest ↦ rw rest (elim (Option-cases (deliver_the_line s buf (length s.queue)).result) [
    | inl lost ↦ rw lost refl
    | inr (n, given) ↦ rw given (
        let (le, front) = deliver-front s buf (length s.queue) n (omega arith) given in
        subst (IsFramed c) (sym front) (all-IsFramed c n s.queue h))
  ])
]

line-IsFramed :
    (c : ℕ) (s : Line2PacketWrapper) (buf : Bytes) (i n : ℕ)
    → position c s.queue ≡ some i
    → (deliver_the_line s buf (suc i)).result ≡ some n
    → IsFramed c (take n (deliver_the_line s buf (suc i)).buf)
line-IsFramed c s buf i n at given =
    let (le, front) = deliver-front s buf (suc i) n (position-lt c s.queue i at) given in
    subst (IsFramed c) (sym front) (front-IsFramed c i n s.queue le (position-has c s.queue i at))

happy-has :
    (s : Line2PacketWrapper) (x : Bytes)
    → happy_case s x ≡ true
    → has (char_to_look_at s) (take (length x - 1) x) ≡ false
unfolding happy_case
happy-has s x h = parts (is_empty s.queue) (has (char_to_look_at s) (take (length x - 1) x)) _ h
  where
    parts : (a b d : Bool) → (a && (not b && d)) ≡ true → b ≡ false
    parts a false d h = refl
    parts true true d h = cc
    parts false true d h = cc

happy-IsFramed :
    (s : Line2PacketWrapper) (buf : Bytes) (c : ℕ) (x : Bytes) (rs : Script)
    → happy_case (record s { inner = rs }) (c ∷ x) ≡ true
    → IsFramed (char_to_look_at s) (
        take
          (chomp_terminator s (overwritten buf (c ∷ x)) (suc (length x)))
          (overwritten buf (c ∷ x)))
happy-IsFramed s buf c x rs nice =
    let n = chomp_terminator s (overwritten buf (c ∷ x)) (suc (length x)) in
    let le : n ≤ suc (length x) =
      chomp_terminator-le s (overwritten buf (c ∷ x)) (suc (length x)) in
    let front : take (length x) (overwritten buf (c ∷ x)) ≡ take (length x) (c ∷ x) =
      take-append_le (length x) (c ∷ x) (drop (suc (length x)) buf) (omega arith) in
    front-IsFramed (char_to_look_at s) (length x) n _ le (
      ap (has (char_to_look_at s)) front
      ∙ ap (λ k. has (char_to_look_at s) (take k (c ∷ x))) (omega arith)
      ∙ happy-has (record s { inner = rs }) (c ∷ x) nice)

Answer-IsFramed :
    (s : Line2PacketWrapper) (buf : Bytes) (r : LineRead Line2PacketWrapper)
    → Answer s buf r
    → IsFramed (char_to_look_at s) (sent r)
unfolding has
Answer-IsFramed s buf _ (ended over) = refl
Answer-IsFramed s buf _ (line {i = i} {n = n} at given) =
    line-IsFramed (char_to_look_at s) s buf i n at given
Answer-IsFramed s buf _ (blocked from) = refl
Answer-IsFramed s buf _ (failed from) = refl
Answer-IsFramed s buf _ (finished {rs = rs} no_line from) =
    at_eof-IsFramed (char_to_look_at s) (record s { inner = rs; eof = true }) buf
      (position-none (char_to_look_at s) s.queue no_line)
Answer-IsFramed s buf _ (happy {c = c} {x = x} {rs = rs} from nice) =
    happy-IsFramed s buf c x rs nice

Recursion-char :
    (s s' : Line2PacketWrapper) (buf buf' : Bytes)
    → Recursion s buf s' buf'
    → char_to_look_at s' ≡ char_to_look_at s
Recursion-char s _ buf _ (dropped at drops long) = refl
Recursion-char s _ buf _ (collected no_line from mixed) = refl

Rounds-IsFramed :
    (s : Line2PacketWrapper) (buf : Bytes) (r : LineRead Line2PacketWrapper)
    → Rounds s buf r
    → IsFramed (char_to_look_at s) (sent r)
Rounds-IsFramed s buf r (last a) = Answer-IsFramed s buf r a
Rounds-IsFramed s buf r (again {s' = s'} {buf' = buf'} step rounds) =
    subst (λ c. IsFramed c (sent r)) (Recursion-char s s' buf buf' step)
      (Rounds-IsFramed s' buf' r rounds)

-- In every mode, a message delivered has its line's terminator, a newline or a zero byte, nowhere
-- but at its end: no message spans two lines, however the inner reader cuts the stream.
pub line_read-IsFramed :
    (f : ℕ) (s : Line2PacketWrapper) (buf : Bytes) (r : LineRead Line2PacketWrapper)
    → line_read f s buf ≡ some r
    → IsFramed (char_to_look_at s) (sent r)
line_read-IsFramed f s buf r h = Rounds-IsFramed s buf r (line_read-Rounds f s buf r h)
