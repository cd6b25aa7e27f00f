-- ===== src/Copy/Writing.antt =====
-- What the writing part of a poll keeps.
use websocat.Base.{
  drop-drop, ◌%◌, ℕ, suc, zero, ◌+◌, ◌-◌, ◌≤◌, ◌≡◌, inl, inr, sym, ap, ◌∙◌, true, false, ◌&&◌, List,
  [], ◌∷◌, ◌++◌, arith, ltb, ◌==◌, length, take, drop, length-append, length-take, length-drop,
  take-append-drop, Bytes, IoResult, ok, err, ErrorKind, would_block, broken_pipe, write_zero,
  other, Bool-cases, ==_iff, drop-all, min, append_assoc, subst, &&-parts, if-true, if-false,
}
use websocat.Copy.{
  Copy, Poll, ready, not_ready, failed, Round, yields, goes_on, flush, taken, emit, advance,
  unwritten, write_loop, completed, finish, write_phase, amt_modulus, try_nb,
}

-- The bytes that later reads give to a buffer of `cap` bytes.
abbrev pub unread : ℕ → List (IoResult Bytes) → Bytes
unread cap [] = []
unread cap (ok x ∷ rs) = take cap x ++ unread cap rs
unread cap (err e ∷ rs) = unread cap rs

-- Written, waiting in the buffer, and not yet read.
abbrev pub stream : Copy → Bytes
stream c = c.writer.written ++ (unwritten c ++ unread (length c.buf) c.reader)

-- A copy of `all` behind its preamble.
pub record IsCopying (all : Bytes) (c : Copy) : Type 0 where
  pub drained : ltb c.preamble_index (length c.preamble) ≡ false
  pub enabled : c.opts.skip ≡ false
  pub in_cap : c.pos ≤ c.cap
  pub in_buf : c.cap ≤ length c.buf
  pub whole : stream c ≡ all
  pub counted : c.amt ≡ length c.writer.written % amt_modulus

-- A poll that is ready has written all that was read, and returns their number.
abbrev pub IsComplete : Copy → Poll → Type 0
IsComplete c (ready n) =
    (n ≡ length c.writer.written % amt_modulus) × (unwritten c ≡ []) × (c.read_done ≡ true)
IsComplete c not_ready = Unit
IsComplete c (failed e) = Unit

abbrev pub IsSoundRound : Bytes → Round → Type 0
IsSoundRound all (yields c p) = IsCopying all c × IsComplete c p
IsSoundRound all (goes_on c) = IsCopying all c

try_nb-IsComplete : (c : Copy) (e : ErrorKind) → IsComplete c (try_nb e)
try_nb-IsComplete c would_block = tt
try_nb-IsComplete c broken_pipe = tt
try_nb-IsComplete c write_zero = tt
try_nb-IsComplete c other = tt

abbrev rescripted : List (IoResult ℕ) → List (IoResult (Unit {0})) → Copy → Copy
rescripted rs fs c = record c { writer = record c.writer { replies = rs; flushes = fs } }

-- A change of the writer's scripts changes nothing of it.
rescript :
    (all : Bytes) (c : Copy) (rs : List (IoResult ℕ)) (fs : List (IoResult (Unit {0})))
    → IsCopying all c
    → IsCopying all (rescripted rs fs c)
rescript all c rs fs k = record {
  drained = k.drained;
  enabled = k.enabled;
  in_cap = k.in_cap;
  in_buf = k.in_buf;
  whole = k.whole;
  counted = k.counted;
}

flush-IsSoundRound :
    (all : Bytes) (fs : List (IoResult (Unit {0}))) (c : Copy)
    → IsCopying all c
    → IsSoundRound all (flush fs c)
unfolding flush
flush-IsSoundRound all [] c k = (k, tt)
flush-IsSoundRound all (err e ∷ fs) c k =
    (rescript all c c.writer.replies fs k, try_nb-IsComplete (rescripted c.writer.replies fs c) e)
flush-IsSoundRound all (ok u ∷ fs) c k = rescript all c c.writer.replies fs k

-- What the writer takes moves from the buffer to it.
abbrev took : ℕ → Copy → Copy
took n c =
    advance n
      (record c { writer = record c.writer { written = c.writer.written ++ take n (unwritten c) } })

length-unwritten : (c : Copy) → c.cap ≤ length c.buf → length (unwritten c) ≡ c.cap - c.pos
length-unwritten c le = omega (arith, length-drop c.pos (take c.cap c.buf), length-take c.cap c.buf)

mod-add : (a n : ℕ) → (a % amt_modulus + n) % amt_modulus ≡ (a + n) % amt_modulus
mod-add a n = omega arith

took-stream : (n : ℕ) (c : Copy) → n ≤ length (unwritten c) → stream (took n c) ≡ stream c
took-stream n c le =
    let u = unwritten c in
    let r = unread (length c.buf) c.reader in
    append_assoc c.writer.written (take n u) (unwritten (took n c) ++ r)
    ∙ ap (λ z. c.writer.written ++ z)
        (ap (λ z. take n u ++ (z ++ r)) (sym (drop-drop n c.pos (take c.cap c.buf)))
          ∙ sym (append_assoc (take n u) (drop n u) r)
          ∙ ap (λ z. z ++ r) (take-append-drop n u))

took-counted :
    (n : ℕ) (c : Copy)
    → n ≤ length (unwritten c)
    → c.amt ≡ length c.writer.written % amt_modulus
    → (took n c).amt ≡ length (took n c).writer.written % amt_modulus
took-counted n c le counted =
    let more : length c.writer.written + n ≡ length (took n c).writer.written =
      omega (
        arith,
        length-append c.writer.written (take n (unwritten c)),
        length-take n (unwritten c),
      ) in
    ap (λ a. (a + n) % amt_modulus) counted
    ∙ mod-add (length c.writer.written) n
    ∙ ap (λ a. a % amt_modulus) more

took-IsCopying :
    (all : Bytes) (n : ℕ) (c : Copy)
    → n ≤ length (unwritten c)
    → IsCopying all c
    → IsCopying all (took n c)
took-IsCopying all n c le k = record {
  drained = k.drained;
  enabled = k.enabled;
  in_cap = omega (arith, length-unwritten c k.in_buf, k.in_cap, le);
  in_buf = k.in_buf;
  whole = took-stream n c le ∙ k.whole;
  counted = took-counted n c le k.counted;
}

taken-IsSoundRound :
    (all : Bytes) (n : ℕ) (c : Copy)
    → n ≤ length (unwritten c)
    → IsCopying all c
    → IsSoundRound all (taken n advance (unwritten c) c)
unfolding taken
taken-IsSoundRound all zero c le k = (k, tt)
taken-IsSoundRound all (suc n) c le k =
    flush-IsSoundRound all c.writer.flushes (took (suc n) c) (took-IsCopying all (suc n) c le k)

emit-IsSoundRound :
    (all : Bytes) (rs : List (IoResult ℕ)) (c : Copy)
    → IsCopying all c
    → IsSoundRound all (emit rs advance (unwritten c) c)
unfolding emit
emit-IsSoundRound all [] c k = (k, tt)
emit-IsSoundRound all (err e ∷ rs) c k =
    (rescript all c rs c.writer.flushes k, try_nb-IsComplete (rescripted rs c.writer.flushes c) e)
emit-IsSoundRound all (ok n ∷ rs) c k =
    taken-IsSoundRound all (min n (length (unwritten c)))
      (record c { writer = record c.writer { replies = rs } }) (omega arith)
      (rescript all c rs c.writer.flushes k)

chained-IsSoundRound :
    (all : Bytes) (r : Round) (g : Copy → Round)
    → IsSoundRound all r
    → ((c : Copy) → IsCopying all c → IsSoundRound all (g c))
    → IsSoundRound all (elim r [ yields c p ↦ yields c p | goes_on c ↦ g c ])
chained-IsSoundRound all (yields c p) g h next = h
chained-IsSoundRound all (goes_on c) g h next = next c h

write_loop-IsSoundRound :
    (all : Bytes) (rs : List (IoResult ℕ)) (c : Copy)
    → IsCopying all c
    → IsSoundRound all (write_loop rs c)
unfolding write_loop
write_loop-IsSoundRound all [] c k = elim (Bool-cases (ltb c.pos c.cap)) [
  | inl more ↦
      subst (IsSoundRound all) (sym (if-true _ _ more)) (emit-IsSoundRound all c.writer.replies c k)
  | inr none_left ↦ subst (IsSoundRound all) (sym (if-false _ _ none_left)) k
]
write_loop-IsSoundRound all (r ∷ rs) c k = elim (Bool-cases (ltb c.pos c.cap)) [
  | inl more ↦ subst (IsSoundRound all) (sym (if-true _ _ more)) (
      chained-IsSoundRound all (emit c.writer.replies advance (unwritten c) c) (write_loop rs)
        (emit-IsSoundRound all c.writer.replies c k) (write_loop-IsSoundRound all rs))
  | inr none_left ↦ subst (IsSoundRound all) (sym (if-false _ _ none_left)) k
]

completed-IsSoundRound :
    (all : Bytes) (fs : List (IoResult (Unit {0}))) (c : Copy)
    → c.pos ≡ c.cap
    → c.read_done ≡ true
    → IsCopying all c
    → IsSoundRound all (completed (flush fs c))
unfolding flush
completed-IsSoundRound all [] c at_end over k = flush-IsSoundRound all [] c k
completed-IsSoundRound all (err e ∷ fs) c at_end over k = flush-IsSoundRound all (err e ∷ fs) c k
completed-IsSoundRound all (ok u ∷ fs) c at_end over k = (
  rescript all c c.writer.replies fs k,
  (k.counted, drop-all c.pos (take c.cap c.buf) (omega (arith, length-take c.cap c.buf)), over),
)

finish-IsSoundRound : (all : Bytes) (c : Copy) → IsCopying all c → IsSoundRound all (finish c)
unfolding finish
finish-IsSoundRound all c k = elim (Bool-cases (c.pos == c.cap && c.read_done)) [
  | inl over ↦
      let (at_end, read) = &&-parts (c.pos == c.cap) c.read_done over in
      subst (IsSoundRound all) (sym (if-true _ _ over))
        (completed-IsSoundRound all c.writer.flushes c ((==_iff c.pos c.cap).0 at_end) read k)
  | inr more ↦ subst (IsSoundRound all) (sym (if-false _ _ more)) k
]

pub write_phase-IsSoundRound :
    (all : Bytes) (c : Copy) → IsCopying all c → IsSoundRound all (write_phase c)
unfolding write_phase
write_phase-IsSoundRound all c k =
    chained-IsSoundRound all (write_loop c.writer.replies c) finish
      (write_loop-IsSoundRound all c.writer.replies c k) (finish-IsSoundRound all)
