-- ===== src/Copy/Going.antt =====
-- What a part of a poll leaves when it goes on: written the buffer, and the rest as it was.
use websocat.Base.{
  ℕ, suc, zero, ◌+◌, ◌≤◌, ◌≡◌, inl, inr, refl, sym, ◌∙◌, true, false, ◌&&◌, List, [], ◌∷◌, ◌++◌,
  arith, ltb, ◌==◌, length, take, length-take, length-drop, IoResult, ok, err, Bool-cases, ltb→ge,
  ==_iff, min, subst, if-true, if-false, &&-parts,
}
use websocat.Copy.{
  Copy, Round, yields, goes_on, flush, taken, emit, advance, unwritten, write_loop, completed,
  finish, write_phase,
}

-- The copy goes on, if at all, as `P` says.
abbrev pub Going : (Copy → Type 0) → Round → Type 0
Going P (yields c p) = Unit
Going P (goes_on c) = P c

-- The part of the state that writing leaves alone.
pub record Same (c c' : Copy) : Type 0 where
  pub reader : c'.reader ≡ c.reader
  pub read_done : c'.read_done ≡ c.read_done
  pub cap : c'.cap ≡ c.cap
  pub buf : c'.buf ≡ c.buf
  pub preamble : c'.preamble ≡ c.preamble
  pub preamble_index : c'.preamble_index ≡ c.preamble_index

Same-refl : (c : Copy) → Same c c
Same-refl c = record {
  reader = refl;
  read_done = refl;
  cap = refl;
  buf = refl;
  preamble = refl;
  preamble_index = refl;
}

Same-trans : (c d e : Copy) → Same c d → Same d e → Same c e
Same-trans c d e s t = record {
  reader = t.reader ∙ s.reader;
  read_done = t.read_done ∙ s.read_done;
  cap = t.cap ∙ s.cap;
  buf = t.buf ∙ s.buf;
  preamble = t.preamble ∙ s.preamble;
  preamble_index = t.preamble_index ∙ s.preamble_index;
}

pub record HasRoom (c : Copy) : Type 0 where
  pub in_cap : c.pos ≤ c.cap
  pub in_buf : c.cap ≤ length c.buf

-- A write and its flush, when they succeed.
abbrev Took : List (IoResult ℕ) → Copy → Copy → Type 0
Took rs c c' = Same c c' × (c'.writer.replies ≡ rs) × (c'.pos ≤ c'.cap)

flush-Took :
    (fs : List (IoResult (Unit {0}))) (c d : Copy)
    → Same c d
    → d.pos ≤ d.cap
    → Going (Took d.writer.replies c) (flush fs d)
unfolding flush
flush-Took [] c d s le = tt
flush-Took (err e ∷ fs) c d s le = tt
flush-Took (ok u ∷ fs) c d s le = (
  record {
    reader = s.reader;
    read_done = s.read_done;
    cap = s.cap;
    buf = s.buf;
    preamble = s.preamble;
    preamble_index = s.preamble_index;
  },
  refl,
  le,
)

taken-Took :
    (n : ℕ) (c d : Copy)
    → Same c d
    → n ≤ length (unwritten d)
    → HasRoom d
    → Going (Took d.writer.replies c) (taken n advance (unwritten d) d)
unfolding taken
taken-Took zero c d s le room = tt
taken-Took (suc n) c d s le room =
    let fits : d.pos + suc n ≤ d.cap = omega (
      arith,
      room.in_cap,
      room.in_buf,
      length-drop d.pos (take d.cap d.buf),
      length-take d.cap d.buf,
    ) in
    flush-Took d.writer.flushes c
      (advance (suc n) (record d {
        writer = record d.writer { written = d.writer.written ++ take (suc n) (unwritten d) };
      }))
      (record {
        reader = s.reader;
        read_done = s.read_done;
        cap = s.cap;
        buf = s.buf;
        preamble = s.preamble;
        preamble_index = s.preamble_index;
      })
      fits

emit-Took :
    (r : IoResult ℕ) (rs : List (IoResult ℕ)) (c : Copy)
    → HasRoom c
    → Going (Took rs c) (emit (r ∷ rs) advance (unwritten c) c)
unfolding emit
emit-Took (err e) rs c room = tt
emit-Took (ok n) rs c room =
    taken-Took (min n (length (unwritten c))) c
      (record c { writer = record c.writer { replies = rs } })
      (record {
        reader = refl;
        read_done = refl;
        cap = refl;
        buf = refl;
        preamble = refl;
        preamble_index = refl;
      })
      (omega arith) (record { in_cap = room.in_cap; in_buf = room.in_buf })

-- All of the buffer is written.
abbrev pub Wrote : Copy → Copy → Type 0
Wrote c c' = Same c c' × (c'.pos ≡ c'.cap)

chained-Going :
    (P Q : Copy → Type 0) (r : Round) (g : Copy → Round)
    → Going P r
    → ((c : Copy) → P c → Going Q (g c))
    → Going Q (elim r [ yields c p ↦ yields c p | goes_on c ↦ g c ])
chained-Going P Q (yields c p) g h next = tt
chained-Going P Q (goes_on c) g h next = next c h

write_loop-Wrote :
    (rs : List (IoResult ℕ)) (c d : Copy)
    → Same c d
    → d.writer.replies ≡ rs
    → HasRoom d
    → Going (Wrote c) (write_loop rs d)
unfolding write_loop emit
write_loop-Wrote [] c d s from room = elim (Bool-cases (ltb d.pos d.cap)) [
  | inl more ↦
      subst (Going (Wrote c)) (sym (if-true _ _ more))
        (subst (λ rs. Going (Wrote c) (emit rs advance (unwritten d) d)) (sym from) tt)
  | inr all_written ↦
      subst (Going (Wrote c)) (sym (if-false _ _ all_written))
        (s, omega (arith, room.in_cap, ltb→ge d.pos d.cap all_written))
]
write_loop-Wrote (r ∷ rs) c d s from room = elim (Bool-cases (ltb d.pos d.cap)) [
  | inl more ↦ subst (Going (Wrote c)) (sym (if-true _ _ more)) (
      chained-Going (Took rs d) (Wrote c) (emit d.writer.replies advance (unwritten d) d)
        (write_loop rs)
        (subst (λ z. Going (Took rs d) (emit z advance (unwritten d) d)) (sym from)
          (emit-Took r rs d room))
        (λ e t. write_loop-Wrote rs c e (Same-trans c d e s t.0) t.1 (record {
          in_cap = t.2;
          in_buf =
              subst (λ z. z ≤ length e.buf) (sym t.0.cap)
                (subst (λ z. d.cap ≤ length z) (sym t.0.buf) room.in_buf);
        })))
  | inr all_written ↦
      subst (Going (Wrote c)) (sym (if-false _ _ all_written))
        (s, omega (arith, room.in_cap, ltb→ge d.pos d.cap all_written))
]

-- And the reader has not ended.
abbrev pub WroteOn : Copy → Copy → Type 0
WroteOn c c' = Wrote c c' × (c'.read_done ≡ false)

none_after :
    (P : Copy → Type 0) (d : Copy) (fs : List (IoResult (Unit {0})))
    → Going P (completed (flush fs d))
unfolding flush
none_after P d [] = tt
none_after P d (err e ∷ fs) = tt
none_after P d (ok u ∷ fs) = tt

finish-WroteOn : (c d : Copy) → Wrote c d → Going (WroteOn c) (finish d)
unfolding finish
finish-WroteOn c d w = elim (Bool-cases d.read_done) [
  | inl over ↦
      let at_end : (d.pos == d.cap && d.read_done) ≡ true = rw ((==_iff d.pos d.cap).1 w.1) over in
      subst (Going (WroteOn c)) (sym (if-true _ _ at_end))
        (none_after (WroteOn c) d d.writer.flushes)
  | inr more ↦ elim (Bool-cases (d.pos == d.cap && d.read_done)) [
    | inl both ↦ absurd (cc (more, (&&-parts (d.pos == d.cap) d.read_done both).1))
    | inr on ↦ subst (Going (WroteOn c)) (sym (if-false _ _ on)) (w, more)
  ]
]

pub write_phase-WroteOn : (c : Copy) → HasRoom c → Going (WroteOn c) (write_phase c)
unfolding write_phase
write_phase-WroteOn c room =
    chained-Going (Wrote c) (WroteOn c) (write_loop c.writer.replies c) finish
      (write_loop-Wrote c.writer.replies c c (Same-refl c) refl room) (finish-WroteOn c)
