-- ===== src/Copy/Ends.antt =====
-- A poll of the copy ends.
use websocat.Base.{
  ℕ, suc, zero, ◌+◌, ◌-◌, ◌<◌, ◌≤◌, ◌≡◌, inl, inr, refl, sym, ap, ◌∙◌, Bool, true, false, not, ◌&&◌,
  Option, some, List, [], ◌∷◌, ◌++◌, arith, ltb, ◌==◌, if◌then◌else◌, length, take, drop, get_or,
  length-append, Bytes, IoResult, ok, err, would_block, broken_pipe, write_zero, other, Bool-cases,
  ltb→lt, ge→ltb, min, subst, if-true, if-false, &&-parts,
}
use websocat.Copy.{
  Copy, Poll, Round, yields, goes_on, flush, taken, emit, write_phase, one_less, no_more,
  read_bytes, read_phase, is_exhausted, copy_phase, copy_round, poll, next_preamble,
}
use websocat.Copy.Conserved.{Round-cases}
use websocat.Copy.Going.{Going, HasRoom, Wrote, WroteOn, write_phase-WroteOn}

abbrev one_unless : Bool → ℕ
one_unless b = if b then 0 else 1

abbrev one_if : Bool → ℕ
one_if b = if b then 1 else 0

-- The turns that are left: preamble messages, reads, the end of the reader, and what waits in the buffer.
abbrev pub turns : Copy → ℕ
turns c =
    (length c.preamble - c.preamble_index)
    + length c.reader
    + one_unless c.read_done
    + one_if (ltb c.pos c.cap)

-- A turn that goes on keeps the buffer's bounds, and leaves fewer turns.
abbrev Nearer : Copy → Copy → Type 0
Nearer c c' = HasRoom c' × (turns c' < turns c)

Wrote-HasRoom : (c c' : Copy) → HasRoom c → Wrote c c' → HasRoom c'
Wrote-HasRoom c c' room w = record {
  in_cap = omega (arith, w.1);
  in_buf =
      subst (λ z. z ≤ length c'.buf) (sym w.0.cap)
        (subst (λ z. c.cap ≤ length z) (sym w.0.buf) room.in_buf);
}

wrote-turns :
    (c c' : Copy)
    → WroteOn c c'
    → turns c' ≡ (length c.preamble - c.preamble_index) + length c.reader + 1
wrote-turns c c' w =
    let s = w.0.0 in
    let none_waiting : ltb c'.pos c'.cap ≡ false = ge→ltb c'.pos c'.cap (omega (arith, w.0.1)) in
    let preamble : length c'.preamble ≡ length c.preamble = ap length s.preamble in
    let reader : length c'.reader ≡ length c.reader = ap length s.reader in
    rw (w.1, none_waiting) (omega (arith, preamble, reader, s.preamble_index))

Going-weaken : (P Q : Copy → Type 0) (r : Round) → ((c : Copy) → P c → Q c) → Going P r → Going Q r
Going-weaken P Q (yields c p) f h = tt
Going-weaken P Q (goes_on c) f h = f c h

one_if-le : (b : Bool) → one_if b ≤ 1
one_if-le true = omega arith
one_if-le false = omega arith

-- A read has used up one of the reader's results.
read_bytes-Nearer :
    (x : Bytes) (r : IoResult Bytes) (rs : List (IoResult Bytes)) (ops : Option ℕ) (c : Copy)
    → c.reader ≡ r ∷ rs
    → c.read_done ≡ false
    → HasRoom c
    → Going (Nearer c) (read_bytes x (record c { reader = rs; remaining_ops = ops }))
unfolding read_bytes
read_bytes-Nearer [] r rs ops c from more room =
    let one : length c.reader ≡ suc (length rs) = ap length from in
    let kept : HasRoom (record c { reader = rs; remaining_ops = ops }) = record {
      in_cap = room.in_cap;
      in_buf = room.in_buf;
    } in
    elim (Bool-cases c.opts.stop_on_reader_zero_read) [
      | inl stops ↦
          subst (Nearer c) (sym (if-true _ _ stops))
            (record { in_cap = room.in_cap; in_buf = room.in_buf }, rw more (omega (arith, one)))
      | inr stays ↦ subst (Nearer c) (sym (if-false _ _ stays)) (kept, rw more (omega (arith, one)))
    ]
read_bytes-Nearer (b ∷ x) r rs ops c from more room =
    let one : length c.reader ≡ suc (length rs) = ap length from in
    let d : Copy = record c {
      reader = rs;
      remaining_ops = ops;
      pos = 0;
      cap = suc (length x);
      buf = (b ∷ x) ++ drop (suc (length x)) c.buf;
      read_occurred = true;
    } in
    let room' : HasRoom d = record {
      in_cap = omega arith;
      in_buf = omega (arith, length-append x (drop (suc (length x)) c.buf));
    } in
    Going-weaken (WroteOn d) (Nearer c) (write_phase d)
      (λ e w. (Wrote-HasRoom d e room' w.0, rw more (omega (arith, one, wrote-turns d e w))))
      (write_phase-WroteOn d room')

read_phase-Nearer :
    (rs : List (IoResult Bytes)) (c : Copy)
    → c.reader ≡ rs
    → c.read_done ≡ false
    → HasRoom c
    → Going (Nearer c) (read_phase rs c)
unfolding read_phase
read_phase-Nearer [] c from more room = tt
read_phase-Nearer (err would_block ∷ rs) c from more room = tt
read_phase-Nearer (err broken_pipe ∷ rs) c from more room =
    let one : length c.reader ≡ suc (length rs) = ap length from in
    (record { in_cap = room.in_cap; in_buf = room.in_buf }, rw more (omega (arith, one)))
read_phase-Nearer (err write_zero ∷ rs) c from more room = tt
read_phase-Nearer (err other ∷ rs) c from more room = tt
read_phase-Nearer (ok y ∷ rs) c from more room =
    read_bytes-Nearer (take (length c.buf) y) (ok y) rs (one_less c.remaining_ops) c from more room

no_more-Nearer : (c : Copy) → c.read_done ≡ false → HasRoom c → Nearer c (no_more c)
no_more-Nearer c more room =
    (record { in_cap = room.in_cap; in_buf = room.in_buf }, rw more (omega arith))

not-true : (b : Bool) → not b ≡ true → b ≡ false
not-true true h = cc
not-true false h = refl

-- What waits in the buffer is written, or the copy is done.
resumed-Nearer :
    (c : Copy)
    → (c.pos == c.cap && not c.read_done) ≡ false
    → HasRoom c
    → Going (Nearer c) (write_phase c)
resumed-Nearer c busy room =
    Going-weaken (WroteOn c) (Nearer c) (write_phase c)
      (λ e w. (Wrote-HasRoom c e room w.0, fewer e w)) (write_phase-WroteOn c room)
  where
    fewer : (e : Copy) → WroteOn c e → turns e < turns c
    fewer e w =
        let more : c.read_done ≡ false = sym w.0.0.read_done ∙ w.1 in
        let apart : (c.pos == c.cap) ≡ false = ground arith in
        let waiting : ltb c.pos c.cap ≡ true = ground (arith, room.in_cap) in
        rw (more, waiting) (omega (arith, wrote-turns c e w))

copy_phase-Nearer : (c : Copy) → HasRoom c → Going (Nearer c) (copy_phase c)
unfolding copy_phase
copy_phase-Nearer c room = elim (Bool-cases (c.pos == c.cap && not c.read_done)) [
  | inl empty ↦
      let more = not-true c.read_done (&&-parts (c.pos == c.cap) (not c.read_done) empty).1 in
      subst (Going (Nearer c)) (sym (if-true _ _ empty))
        (elim (Bool-cases (c.read_occurred && c.opts.once)) [
          | inl enough ↦
              subst (Going (Nearer c)) (sym (if-true _ _ enough)) (no_more-Nearer c more room)
          | inr another ↦
              subst (Going (Nearer c)) (sym (if-false _ _ another))
                (elim (Bool-cases (is_exhausted c.remaining_ops)) [
                  | inl spent ↦
                      subst (Going (Nearer c)) (sym (if-true _ _ spent))
                        (no_more-Nearer c more room)
                  | inr left ↦
                      subst (Going (Nearer c)) (sym (if-false _ _ left))
                        (read_phase-Nearer c.reader c refl more room)
                ])
        ])
  | inr busy ↦ subst (Going (Nearer c)) (sym (if-false _ _ busy)) (resumed-Nearer c busy room)
]

flush-Going :
    (P : Copy → Type 0) (fs : List (IoResult (Unit {0}))) (d : Copy)
    → ((gs : List (IoResult (Unit {0})))
        → P (record d { writer = record d.writer { flushes = gs } }))
    → Going P (flush fs d)
unfolding flush
flush-Going P [] d h = tt
flush-Going P (err e ∷ fs) d h = tt
flush-Going P (ok u ∷ fs) d h = h fs

sent-Nearer :
    (n : ℕ) (rs : List (IoResult ℕ)) (x : Bytes) (c : Copy)
    → c.preamble_index < length c.preamble
    → HasRoom c
    → Going
        (Nearer c)
        (taken n next_preamble x (record c { writer = record c.writer { replies = rs } }))
unfolding taken
sent-Nearer zero rs x c left room = tt
sent-Nearer (suc n) rs x c left room =
    flush-Going (Nearer c) c.writer.flushes _
      (λ gs. (record { in_cap = room.in_cap; in_buf = room.in_buf }, omega arith))

preamble-Nearer :
    (rs : List (IoResult ℕ)) (x : Bytes) (c : Copy)
    → c.preamble_index < length c.preamble
    → HasRoom c
    → Going (Nearer c) (emit rs next_preamble x c)
unfolding emit
preamble-Nearer [] x c left room = tt
preamble-Nearer (err e ∷ rs) x c left room = tt
preamble-Nearer (ok n ∷ rs) x c left room = sent-Nearer (min n (length x)) rs x c left room

copy_round-Nearer : (c : Copy) → HasRoom c → Going (Nearer c) (copy_round c)
unfolding copy_round
copy_round-Nearer c room = elim (Bool-cases (ltb c.preamble_index (length c.preamble))) [
  | inl left ↦ subst (Going (Nearer c)) (sym (if-true _ _ left)) (
      preamble-Nearer c.writer.replies (get_or c.preamble c.preamble_index []) c (ltb→lt _ _ left)
        room)
  | inr drained ↦
      subst (Going (Nearer c)) (sym (if-false _ _ drained)) (elim (Bool-cases c.opts.skip) [
        | inl skips ↦ subst (Going (Nearer c)) (sym (if-true _ _ skips)) tt
        | inr copies ↦
            subst (Going (Nearer c)) (sym (if-false _ _ copies)) (copy_phase-Nearer c room)
      ])
]

-- A poll of a copy whose positions lie in its buffer returns: as many turns are enough as there are
-- preamble messages left and reads that the reader answers, and three.
pub poll-ends :
    (f : ℕ) (c : Copy)
    → HasRoom c
    → turns c < f
    → (c' : Copy) × (p : Poll) × (poll f c ≡ some (c', p))
unfolding poll
poll-ends zero c room w = absurd (omega arith)
poll-ends (suc f) c room w = elim (Round-cases (copy_round c)) [
  | inl (d, p, r) ↦
      (d, p, ap (λ z. elim z [ yields c' q ↦ some (c', q) | goes_on c' ↦ poll f c' ]) r)
  | inr (d, r) ↦
      let (room', less) = subst (Going (Nearer c)) r (copy_round-Nearer c room) in
      let (c', p, e) = poll-ends f d room' (omega (arith, less, w)) in (c', p, rw (r, poll) e)
]
