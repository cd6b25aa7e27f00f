-- ===== src/Line/Conserved.antt =====
-- `Line2PacketWrapper` loses no byte when it keeps line ends and splits too long lines.
use websocat.Base.{
  ℕ, suc, ◌≤◌, ◌≡◌, inl, inr, refl, sym, ap, ◌∙◌, Bool, true, false, ◌&&◌, some, [], ◌∷◌, ◌++◌,
  arith, ltb, length, take, drop, is_empty, take-append-drop, Bytes, ok, err, Bool-cases, ltb→lt,
  ltb→ge, take-append_left, take-take_append, min, append_assoc, subst, if-true, if-false,
}
use websocat.Line.{
  Script, LineRead, Line2PacketWrapper, Delivered, deliver_the_line, hand_over, chomp_terminator,
  char_to_look_at, position, at_eof, happy_case, line_read, overwritten,
}
use websocat.Line.Rounds.{
  Answer, ended, line, blocked, failed, finished, happy, Recursion, dropped, collected, Rounds,
  last, again, line_read-Rounds, position-lt,
}

-- The bytes that the inner reads will still give before one of them gives none.
abbrev pub waiting : Script → Bytes
waiting [] = []
waiting (ok [] ∷ rs) = []
waiting (ok (c ∷ x) ∷ rs) = (c ∷ x) ++ waiting rs
waiting (err e ∷ rs) = waiting rs

-- The bytes read but not yet delivered, and those not yet read.
abbrev pub pending : Line2PacketWrapper → Bytes
pending s = s.queue ++ waiting s.inner

-- The message that a read delivers.
abbrev pub sent : LineRead Line2PacketWrapper → Bytes
sent r = elim r.result [ ok n ↦ take n r.buf | err e ↦ [] ]

-- The reader keeps line ends and drops no line.
pub record IsKeeping (s : Line2PacketWrapper) : Type 0 where
  pub retains : s.retain_newlines ≡ true
  pub newlines : s.null_terminated ≡ false
  pub splits : s.drop_too_long_lines ≡ false

-- The front of the queue is handed over unchanged, as much of it as fits.
deliver-IsKeeping :
    (s : Line2PacketWrapper) (buf : Bytes) (n : ℕ)
    → IsKeeping s
    → deliver_the_line s buf n ≡ hand_over s buf (min n (length buf))
unfolding deliver_the_line chomp_terminator
deliver-IsKeeping s buf n k = elim (Bool-cases (ltb (length buf) n)) [
  | inl long ↦
      if-true _ _ long
      ∙ if-false _ _ k.splits
      ∙ ap (hand_over s buf) (omega (arith, ltb→lt (length buf) n long))
  | inr fits ↦
      if-false _ _ fits
      ∙ ap (hand_over s buf)
          (rw (k.retains, k.newlines) (omega (arith, ltb→ge (length buf) n fits)))
]

hand_over-kept :
    (s : Line2PacketWrapper) (buf : Bytes) (n m : ℕ)
    → n ≤ length s.queue
    → (hand_over s buf n).result ≡ some m
    → take m (hand_over s buf n).buf ++ pending (hand_over s buf n).after ≡ pending s
hand_over-kept s buf n m le given =
    let same : n ≡ m = cc in
    let q = s.queue in
    let w = waiting s.inner in
    subst (λ k. take k (hand_over s buf n).buf ++ pending (hand_over s buf n).after ≡ pending s)
      same
      (ap (λ z. z ++ (drop n q ++ w)) (take-take_append n q _ le)
        ∙ sym (append_assoc (take n q) (drop n q) w)
        ∙ ap (λ z. z ++ w) (take-append-drop n q))

is_empty-nil : (xs : Bytes) → is_empty xs ≡ true → xs ≡ []
is_empty-nil [] h = refl
is_empty-nil (x ∷ xs) h = cc

&&-left : (a b : Bool) → (a && b) ≡ true → a ≡ true
&&-left true b h = refl
&&-left false b h = cc

happy-queue : (s : Line2PacketWrapper) (x : Bytes) → happy_case s x ≡ true → s.queue ≡ []
unfolding happy_case
happy-queue s x h = is_empty-nil s.queue (&&-left _ _ h)

at_eof-eof : (s : Line2PacketWrapper) (buf : Bytes) → (at_eof s buf).after.eof ≡ s.eof
unfolding at_eof deliver_the_line
at_eof-eof s buf = ground arith

chomp_terminator-IsKeeping :
    (s : Line2PacketWrapper) (buf : Bytes) (n : ℕ) → IsKeeping s → chomp_terminator s buf n ≡ n
unfolding chomp_terminator
chomp_terminator-IsKeeping s buf n k = rw (k.retains, k.newlines)

happy-kept :
    (s : Line2PacketWrapper) (buf : Bytes) (c : ℕ) (x : Bytes) (rs : Script)
    → IsKeeping s
    → s.inner ≡ ok (c ∷ x) ∷ rs
    → happy_case (record s { inner = rs }) (c ∷ x) ≡ true
    → take (chomp_terminator s (overwritten buf (c ∷ x)) (suc (length x))) (overwritten buf (c ∷ x))
        ++ pending (record s { inner = rs })
      ≡ pending s
happy-kept s buf c x rs k from nice =
    let empty = happy-queue (record s { inner = rs }) (c ∷ x) nice in
    ap (λ n. take n (overwritten buf (c ∷ x)) ++ pending (record s { inner = rs }))
      (chomp_terminator-IsKeeping s (overwritten buf (c ∷ x)) (suc (length x)) k)
    ∙ ap (λ z. z ++ pending (record s { inner = rs })) (take-append_left (c ∷ x) _)
    ∙ ap (λ q. (c ∷ x) ++ (q ++ waiting rs)) empty
    ∙ sym (ap (λ q. q ++ waiting s.inner) empty ∙ ap waiting from)

line-kept :
    (s : Line2PacketWrapper) (buf : Bytes) (i n : ℕ)
    → IsKeeping s
    → position (char_to_look_at s) s.queue ≡ some i
    → (deliver_the_line s buf (suc i)).result ≡ some n
    → take n (deliver_the_line s buf (suc i)).buf ++ pending (deliver_the_line s buf (suc i)).after
      ≡ pending s
line-kept s buf i n k at given =
    let e = deliver-IsKeeping s buf (suc i) k in
    let fits : min (suc i) (length buf) ≤ length s.queue =
      omega (arith, position-lt (char_to_look_at s) s.queue i at) in
    subst (λ d. take n d.buf ++ pending d.after ≡ pending s) (sym e)
      (hand_over-kept s buf _ n fits (ap Delivered.result (sym e) ∙ given))

Answer-kept :
    (s : Line2PacketWrapper) (buf : Bytes) (r : LineRead Line2PacketWrapper)
    → IsKeeping s
    → Answer s buf r
    → r.after.eof ≡ false
    → sent r ++ pending r.after ≡ pending s
Answer-kept s buf _ k (ended over) more = cc
Answer-kept s buf _ k (line {i = i} {n = n} at given) more = line-kept s buf i n k at given
Answer-kept s buf _ k (blocked from) more = refl
Answer-kept s buf _ k (failed {rs = rs} from) more = ap (λ z. s.queue ++ waiting z) (sym from)
Answer-kept s buf _ k (finished {rs = rs} no_line from) more =
    let over = at_eof-eof (record s { inner = rs; eof = true }) buf in absurd (cc (over, more))
Answer-kept s buf _ k (happy {c = c} {x = x} {rs = rs} from nice) more =
    happy-kept s buf c x rs k from nice

Recursion-kept :
    (s s' : Line2PacketWrapper) (buf buf' : Bytes)
    → IsKeeping s
    → Recursion s buf s' buf'
    → IsKeeping s' × (pending s' ≡ pending s)
Recursion-kept s _ buf _ k (dropped at drops long) = absurd (cc (drops, k.splits))
Recursion-kept s _ buf _ k (collected {c = c} {x = x} {rs = rs} no_line from mixed) = (
  record { retains = k.retains; newlines = k.newlines; splits = k.splits },
  append_assoc s.queue (c ∷ x) (waiting rs) ∙ ap (λ z. s.queue ++ waiting z) (sym from),
)

Rounds-kept :
    (s : Line2PacketWrapper) (buf : Bytes) (r : LineRead Line2PacketWrapper)
    → IsKeeping s
    → Rounds s buf r
    → r.after.eof ≡ false
    → sent r ++ pending r.after ≡ pending s
Rounds-kept s buf r k (last a) more = Answer-kept s buf r k a more
Rounds-kept s buf r k (again {s' = s'} {buf' = buf'} step rounds) more =
    let (k', same) = Recursion-kept s s' buf buf' k step in
    Rounds-kept s' buf' r k' rounds more ∙ same

-- While the input lasts, a reader that keeps line ends and splits too long lines loses, invents and
-- reorders no byte: the message delivered, followed by what is pending behind the read, is what was
-- pending before it, whether the read succeeds or fails.
pub line_read-conserves :
    (f : ℕ) (s : Line2PacketWrapper) (buf : Bytes) (r : LineRead Line2PacketWrapper)
    → IsKeeping s
    → line_read f s buf ≡ some r
    → r.after.eof ≡ false
    → sent r ++ pending r.after ≡ pending s
line_read-conserves f s buf r k h more = Rounds-kept s buf r k (line_read-Rounds f s buf r h) more
