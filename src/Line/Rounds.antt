-- ===== src/Line/Rounds.antt =====
-- The rounds of a read of `Line2PacketWrapper`: what each gives, and that they end.
use websocat.Base.{
  ℕ, suc, zero, ◌+◌, ◌<◌, ◌≡◌, ◌⊎◌, inl, inr, refl, sym, ◌∙◌, true, false, none, some, [], ◌∷◌,
  ◌++◌, arith, ltb, length, drop, length-append, length-drop, Bytes, ok, err, ErrorKind,
  would_block, Bool-cases, Option-cases, ltb→lt, subst, if-true, if-false,
}
use websocat.Line.{
  Script, LineRead, Line2PacketWrapper, deliver_the_line, chomp_terminator, char_to_look_at,
  position, at_eof, happy_case, Round, answer, recurse, queued_round, read_round, inner_round,
  line_round, line_read, overwritten,
}

Round-cases :
    (r : Round)
    → ((a : LineRead Line2PacketWrapper) × (r ≡ answer a))
      ⊎ ((s : Line2PacketWrapper) × (buf : Bytes) × (r ≡ recurse s buf))
Round-cases (answer a) = inl (a, refl)
Round-cases (recurse s buf) = inr (s, buf, refl)

-- What is left to do: the queued bytes, and the inner reads with their bytes.
abbrev pub unread : Script → ℕ
unread [] = 0
unread (ok x ∷ rs) = suc (length x + unread rs)
unread (err e ∷ rs) = suc (unread rs)

abbrev pub work : Line2PacketWrapper → ℕ
work s = length s.queue + unread s.inner

-- A found byte lies in the text.
pub position-lt : (c : ℕ) (xs : Bytes) (i : ℕ) → position c xs ≡ some i → i < length xs
unfolding position
position-lt c [] i h = cc
position-lt c (x ∷ xs) i h = elim (Option-cases (position c xs)) [
  | inl absent ↦ ground arith
  | inr (j, at) ↦ ground (arith, position-lt c xs j at)
]

-- A line is dropped only if the reader drops too long lines, and it does not fit.
deliver-none :
    (s : Line2PacketWrapper) (buf : Bytes) (n : ℕ)
    → (deliver_the_line s buf n).result ≡ none
    → (s.drop_too_long_lines ≡ true)
      × (length buf < n)
      × (deliver_the_line s buf n
          ≡ record { after = record s { queue = drop n s.queue }; buf = buf; result = none })
unfolding deliver_the_line
deliver-none s buf n h = elim (Bool-cases (ltb (length buf) n)) [
  | inl long ↦ elim (Bool-cases s.drop_too_long_lines) [
    | inl drops ↦ (drops, ltb→lt _ _ long, if-true _ _ long ∙ if-true _ _ drops)
    | inr keeps ↦ let e = rw (long, keeps) at h in absurd (cc)
  ]
  | inr fits ↦ let e = rw fits at h in absurd (cc)
]

-- When a round calls `read` itself, and with which reader and buffer.
pub data Recursion (s : Line2PacketWrapper) (buf : Bytes)
    : Line2PacketWrapper → Bytes → Type 0 where
  dropped :
      {i : ℕ}
      → position (char_to_look_at s) s.queue ≡ some i
      → s.drop_too_long_lines ≡ true
      → length buf < suc i
      → Recursion s buf (record s { queue = drop (suc i) s.queue }) buf
  collected :
      {c : ℕ} {x : Bytes} {rs : Script}
      → position (char_to_look_at s) s.queue ≡ none
      → s.inner ≡ ok (c ∷ x) ∷ rs
      → happy_case (record s { inner = rs }) (c ∷ x) ≡ false
      → Recursion s buf
          (record s { inner = rs; queue = s.queue ++ c ∷ x })
          (overwritten buf (c ∷ x))

-- When a round answers, and what.
pub data Answer (s : Line2PacketWrapper) (buf : Bytes) : LineRead Line2PacketWrapper → Type 0 where
  ended : s.eof ≡ true → Answer s buf (record { after = s; buf = buf; result = ok 0 })
  line :
      {i n : ℕ}
      → position (char_to_look_at s) s.queue ≡ some i
      → (deliver_the_line s buf (suc i)).result ≡ some n
      → Answer s buf (record {
        after = (deliver_the_line s buf (suc i)).after;
        buf = (deliver_the_line s buf (suc i)).buf;
        result = ok n;
      })
  blocked : s.inner ≡ [] → Answer s buf (record { after = s; buf = buf; result = err would_block })
  failed :
      {e : ErrorKind} {rs : Script}
      → s.inner ≡ err e ∷ rs
      → Answer s buf (record { after = record s { inner = rs }; buf = buf; result = err e })
  finished :
      {rs : Script}
      → position (char_to_look_at s) s.queue ≡ none
      → s.inner ≡ ok [] ∷ rs
      → Answer s buf (at_eof (record s { inner = rs; eof = true }) buf)
  happy :
      {c : ℕ} {x : Bytes} {rs : Script}
      → s.inner ≡ ok (c ∷ x) ∷ rs
      → happy_case (record s { inner = rs }) (c ∷ x) ≡ true
      → Answer s buf (record {
        after = record s { inner = rs };
        buf = overwritten buf (c ∷ x);
        result = ok (chomp_terminator s (overwritten buf (c ∷ x)) (suc (length x)));
      })

abbrev Explained : Line2PacketWrapper → Bytes → Round → Type 0
Explained s buf (answer r) = Answer s buf r
Explained s buf (recurse s' buf') = Recursion s buf s' buf'

read_round-Explained :
    (s : Line2PacketWrapper) (buf : Bytes) (c : ℕ) (x : Bytes) (rs : Script)
    → position (char_to_look_at s) s.queue ≡ none
    → s.inner ≡ ok (c ∷ x) ∷ rs
    → Explained s buf (read_round (record s { inner = rs }) buf (c ∷ x))
unfolding read_round chomp_terminator
read_round-Explained s buf c x rs no_line from =
    elim (Bool-cases (happy_case (record s { inner = rs }) (c ∷ x))) [
      | inl nice ↦ subst (Explained s buf) (sym (if-true _ _ nice)) (happy from nice)
      | inr mixed ↦
          subst (Explained s buf) (sym (if-false _ _ mixed)) (collected no_line from mixed)
    ]

inner_round-Explained :
    (s : Line2PacketWrapper) (buf : Bytes) (inner : Script)
    → position (char_to_look_at s) s.queue ≡ none
    → s.inner ≡ inner
    → Explained s buf (inner_round inner s buf)
unfolding inner_round
inner_round-Explained s buf [] no_line from = blocked from
inner_round-Explained s buf (err e ∷ rs) no_line from = failed from
inner_round-Explained s buf (ok [] ∷ rs) no_line from = finished no_line from
inner_round-Explained s buf (ok (c ∷ x) ∷ rs) no_line from =
    read_round-Explained s buf c x rs no_line from

queued_round-Explained :
    (s : Line2PacketWrapper) (buf : Bytes) (i : ℕ)
    → position (char_to_look_at s) s.queue ≡ some i
    → Explained s buf (queued_round (deliver_the_line s buf (suc i)))
unfolding queued_round
queued_round-Explained s buf i at = elim (Option-cases (deliver_the_line s buf (suc i)).result) [
  | inl lost ↦
      let (drops, long, e) = deliver-none s buf (suc i) lost in
      subst (λ d. Explained s buf (queued_round d)) (sym e) (dropped at drops long)
  | inr (n, given) ↦ rw given (line at given)
]

pub line_round-Explained :
    (s : Line2PacketWrapper) (buf : Bytes) → Explained s buf (line_round s buf)
unfolding line_round
line_round-Explained s buf = elim (Bool-cases s.eof) [
  | inl over ↦ subst (Explained s buf) (sym (if-true _ _ over)) (ended over)
  | inr more ↦
      subst (Explained s buf) (sym (if-false _ _ more))
        (elim (Option-cases (position (char_to_look_at s) s.queue)) [
          | inl no_line ↦ rw no_line (inner_round-Explained s buf s.inner no_line refl)
          | inr (i, at) ↦ rw at (queued_round-Explained s buf i at)
        ])
]

-- The rounds of a read that answers.
pub data Rounds : Line2PacketWrapper → Bytes → LineRead Line2PacketWrapper → Type 0 where
  last :
      {s : Line2PacketWrapper} {buf : Bytes} {r : LineRead Line2PacketWrapper}
      → Answer s buf r
      → Rounds s buf r
  again :
      {s s' : Line2PacketWrapper} {buf buf' : Bytes} {r : LineRead Line2PacketWrapper}
      → Recursion s buf s' buf'
      → Rounds s' buf' r
      → Rounds s buf r

pub line_read-Rounds :
    (f : ℕ) (s : Line2PacketWrapper) (buf : Bytes) (r : LineRead Line2PacketWrapper)
    → line_read f s buf ≡ some r
    → Rounds s buf r
unfolding line_read
line_read-Rounds zero s buf r h = cc
line_read-Rounds (suc f) s buf r h = elim (Round-cases (line_round s buf)) [
  | inl (a, e) ↦
      let same : a ≡ r = cc (h, e) in
      last (subst (Answer s buf) same (subst (Explained s buf) e (line_round-Explained s buf)))
  | inr (s', buf', e) ↦
      again (subst (Explained s buf) e (line_round-Explained s buf))
        (line_read-Rounds f s' buf' r (rw (e, line_read) at h))
]

-- A recursing round leaves less to do.
Recursion-work :
    (s s' : Line2PacketWrapper) (buf buf' : Bytes) → Recursion s buf s' buf' → work s' < work s
Recursion-work s _ buf _ (dropped {i = i} at drops long) =
    omega (arith, length-drop (suc i) s.queue, position-lt (char_to_look_at s) s.queue i at)
Recursion-work s _ buf _ (collected {c = c} {x = x} {rs = rs} no_line from mixed) =
    rw from (omega (arith, length-append s.queue (c ∷ x)))

-- A read ends: as many rounds are enough as there are queued bytes, inner results and bytes in them.
pub line_read-ends :
    (f : ℕ) (s : Line2PacketWrapper) (buf : Bytes)
    → work s < f
    → (r : LineRead Line2PacketWrapper) × (line_read f s buf ≡ some r)
unfolding line_read
line_read-ends zero s buf w = absurd (omega arith)
line_read-ends (suc f) s buf w = elim (Round-cases (line_round s buf)) [
  | inl (a, e) ↦ (a, rw (e, line_read))
  | inr (s', buf', e) ↦
      let less =
        Recursion-work s s' buf buf' (subst (Explained s buf) e (line_round-Explained s buf)) in
      let (r, given) = line_read-ends f s' buf' (omega arith) in (r, rw (e, line_read) given)
]
