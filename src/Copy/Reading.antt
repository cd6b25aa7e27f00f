-- ===== src/Copy/Reading.antt =====
-- What the reading part of a poll keeps.
use websocat.Base.{
  ℕ, suc, ◌≡◌, inl, inr, refl, sym, ap, ◌∙◌, true, List, [], ◌∷◌, ◌++◌, arith, length, take, drop,
  length-append, length-take, length-drop, Bytes, IoResult, ok, err, ErrorKind, would_block,
  broken_pipe, write_zero, other, Bool-cases, drop-all, take-append_left, subst, if-true, if-false,
}
use websocat.Copy.{Copy, unwritten, one_less, no_more, read_bytes, read_phase}
use websocat.Copy.Writing.{unread, stream, IsCopying, IsSoundRound, write_phase-IsSoundRound}

pub no_more-IsCopying : (all : Bytes) (c : Copy) → IsCopying all c → IsCopying all (no_more c)
no_more-IsCopying all c k = record {
  drained = k.drained;
  enabled = k.enabled;
  in_cap = k.in_cap;
  in_buf = k.in_buf;
  whole = k.whole;
  counted = k.counted;
}

-- The buffer with `b ∷ x` read into it.
abbrev loaded : ℕ → Bytes → List (IoResult Bytes) → Copy → Copy
loaded b x rs c = record c {
  reader = rs;
  remaining_ops = one_less c.remaining_ops;
  pos = 0;
  cap = suc (length x);
  buf = (b ∷ x) ++ drop (suc (length x)) c.buf;
  read_occurred = true;
}

length-loaded :
    (b : ℕ) (x y : Bytes) (rs : List (IoResult Bytes)) (c : Copy)
    → take (length c.buf) y ≡ b ∷ x
    → length (loaded b x rs c).buf ≡ length c.buf
length-loaded b x y rs c read =
    let fits : length (take (length c.buf) y) ≡ suc (length x) = ap length read in
    omega (
      arith,
      length-append (b ∷ x) (drop (suc (length x)) c.buf),
      length-drop (suc (length x)) c.buf,
      length-take (length c.buf) y,
    )

nothing_unwritten : (c : Copy) → c.pos ≡ c.cap → unwritten c ≡ []
nothing_unwritten c at_end =
    drop-all c.pos (take c.cap c.buf) (omega (arith, length-take c.cap c.buf))

-- At the end of the buffer, the stream goes on with what the next read gives.
stream-read :
    (y : Bytes) (rs : List (IoResult Bytes)) (c : Copy)
    → c.pos ≡ c.cap
    → c.reader ≡ ok y ∷ rs
    → stream c ≡ c.writer.written ++ (take (length c.buf) y ++ unread (length c.buf) rs)
stream-read y rs c at_end from =
    ap (λ z. c.writer.written ++ (z ++ unread (length c.buf) c.reader)) (nothing_unwritten c at_end)
    ∙ ap (λ z. c.writer.written ++ unread (length c.buf) z) from

loaded-IsCopying :
    (all : Bytes) (b : ℕ) (x y : Bytes) (rs : List (IoResult Bytes)) (c : Copy)
    → c.pos ≡ c.cap
    → c.reader ≡ ok y ∷ rs
    → take (length c.buf) y ≡ b ∷ x
    → IsCopying all c
    → IsCopying all (loaded b x rs c)
loaded-IsCopying all b x y rs c at_end from read k =
    let w = c.writer.written in
    let same = length-loaded b x y rs c read in
    record {
      drained = k.drained;
      enabled = k.enabled;
      in_cap = omega arith;
      in_buf = omega (arith, length-append x (drop (suc (length x)) c.buf));
      whole =
          ap (λ z. w ++ (z ++ unread (length (loaded b x rs c).buf) rs))
            (take-append_left (b ∷ x) _)
          ∙ ap (λ n. w ++ ((b ∷ x) ++ unread n rs)) same
          ∙ sym
              (stream-read y rs c at_end from ∙ ap (λ z. w ++ (z ++ unread (length c.buf) rs)) read)
          ∙ k.whole;
      counted = k.counted;
    }

-- The copy behind a read of no bytes.
abbrev passed : List (IoResult Bytes) → Copy → Copy
passed rs c = record c { reader = rs; remaining_ops = one_less c.remaining_ops }

passed-IsCopying :
    (all y : Bytes) (rs : List (IoResult Bytes)) (c : Copy)
    → c.pos ≡ c.cap
    → c.reader ≡ ok y ∷ rs
    → take (length c.buf) y ≡ []
    → IsCopying all c
    → IsCopying all (passed rs c)
passed-IsCopying all y rs c at_end from read k = record {
  drained = k.drained;
  enabled = k.enabled;
  in_cap = k.in_cap;
  in_buf = k.in_buf;
  whole =
      ap (λ z. c.writer.written ++ (z ++ unread (length c.buf) rs)) (nothing_unwritten c at_end)
      ∙ sym (
          stream-read y rs c at_end from
          ∙ ap (λ z. c.writer.written ++ (z ++ unread (length c.buf) rs)) read)
      ∙ k.whole;
  counted = k.counted;
}

read_bytes-IsSoundRound :
    (all x y : Bytes) (rs : List (IoResult Bytes)) (c : Copy)
    → c.pos ≡ c.cap
    → c.reader ≡ ok y ∷ rs
    → take (length c.buf) y ≡ x
    → IsCopying all c
    → IsSoundRound all (read_bytes x (passed rs c))
unfolding read_bytes
read_bytes-IsSoundRound all [] y rs c at_end from read k =
    elim (Bool-cases c.opts.stop_on_reader_zero_read) [
      | inl stops ↦
          subst (IsCopying all) (sym (if-true _ _ stops))
            (no_more-IsCopying all (passed rs c) (passed-IsCopying all y rs c at_end from read k))
      | inr stays ↦
          subst (IsCopying all) (sym (if-false _ _ stays))
            (passed-IsCopying all y rs c at_end from read k)
    ]
read_bytes-IsSoundRound all (b ∷ x) y rs c at_end from read k =
    write_phase-IsSoundRound all (loaded b x rs c)
      (loaded-IsCopying all b x y rs c at_end from read k)

-- A failed read takes no byte off the stream.
failed_read-IsCopying :
    (all : Bytes) (e : ErrorKind) (rs : List (IoResult Bytes)) (c : Copy)
    → c.reader ≡ err e ∷ rs
    → IsCopying all c
    → IsCopying all (record c { reader = rs })
failed_read-IsCopying all e rs c from k = record {
  drained = k.drained;
  enabled = k.enabled;
  in_cap = k.in_cap;
  in_buf = k.in_buf;
  whole =
      sym (ap (λ z. c.writer.written ++ (unwritten c ++ unread (length c.buf) z)) from) ∙ k.whole;
  counted = k.counted;
}

pub read_phase-IsSoundRound :
    (all : Bytes) (rs : List (IoResult Bytes)) (c : Copy)
    → c.pos ≡ c.cap
    → c.reader ≡ rs
    → IsCopying all c
    → IsSoundRound all (read_phase rs c)
unfolding read_phase
read_phase-IsSoundRound all [] c at_end from k = (k, tt)
read_phase-IsSoundRound all (err would_block ∷ rs) c at_end from k =
    (failed_read-IsCopying all would_block rs c from k, tt)
read_phase-IsSoundRound all (err broken_pipe ∷ rs) c at_end from k =
    no_more-IsCopying all (record c { reader = rs })
      (failed_read-IsCopying all broken_pipe rs c from k)
read_phase-IsSoundRound all (err write_zero ∷ rs) c at_end from k =
    (failed_read-IsCopying all write_zero rs c from k, tt)
read_phase-IsSoundRound all (err other ∷ rs) c at_end from k =
    (failed_read-IsCopying all other rs c from k, tt)
read_phase-IsSoundRound all (ok y ∷ rs) c at_end from k =
    read_bytes-IsSoundRound all (take (length c.buf) y) y rs c at_end from refl k
