-- ===== src/Sse/Events.antt =====
-- What a write of `SseStream` puts out.
use websocat.Base.{
  ℕ, ◌<◌, ◌≡◌, refl, sym, ap, ◌∙◌, subst, List, [], ◌∷◌, ◌++◌, min, length, take, drop, length-drop,
  append_assoc, All, Bytes, IoResult, ok, err, ErrorKind, would_block, Outcome, returns, ge→ltb,
  if-false, arith,
}
use websocat.Sse.{
  SseState, before_line, inside_line, after_line, trailer, SseStream, data_prefix, newline,
  until_newline, offered, advanced, SseWritten, sse_loop, sse_write,
}
use websocat.Sse.Rounds.{
  event_of, pending, IsPlaced, IsRound, before_line-IsRound, inside_line-IsRound,
  after_line-IsRound,
}

-- The writes that succeed take something.
abbrev pub TakesSome : IoResult ℕ → Type 0
TakesSome (ok n) = 0 < n
TakesSome (err e) = Unit

-- In the middle of the message `buf`, whose event ends in an output of `all`.
pub record IsSending (all buf : Bytes) (s : SseStream) : Type 0 where
  pub placed : IsPlaced buf s.state s.consumed_actual_buffer
  pub whole : s.output ++ pending buf s.state s.consumed_actual_buffer ≡ all
  pub writable : All TakesSome s.writes

-- The first of the inner writes that does not succeed, what follows it and its error: with no further write
-- known, the next one would block.
pub data StopsAt : List (IoResult ℕ) → List (IoResult ℕ) → ErrorKind → Type 0 where
  unknown : StopsAt [] [] would_block
  failing : (e : ErrorKind) (ws : List (IoResult ℕ)) → StopsAt (err e ∷ ws) ws e
  succeeding :
      (n : ℕ) (ws left : List (IoResult ℕ)) (e : ErrorKind)
      → StopsAt ws left e
      → StopsAt (ok n ∷ ws) left e

pub data Wrote (all buf : Bytes) (ws : List (IoResult ℕ)) : Outcome SseWritten → Type 0 where
  again :
      (t : SseStream) (e : ErrorKind)
      → StopsAt ws t.writes e
      → IsSending all buf t
      → Wrote all buf ws (returns (record { after = t; result = err e }))
  done :
      (t : SseStream)
      → t.output ≡ all
      → t.state ≡ before_line 0
      → t.consumed_actual_buffer ≡ 0
      → All TakesSome t.writes
      → Wrote all buf ws (returns (record { after = t; result = ok (length buf) }))

module _ (buf : Bytes) where
  extended :
      (all out taken now next : Bytes)
      → out ++ now ≡ all
      → now ≡ taken ++ next
      → (out ++ taken) ++ next ≡ all
  extended all out taken now next whole split =
      append_assoc out taken next ∙ ap (λ z. out ++ z) (sym split) ∙ whole

  offered-returns :
      (st : SseState) (c : ℕ) → IsPlaced buf st c → (o : Bytes) × (offered st c buf ≡ returns o)
  unfolding offered
  offered-returns (before_line x) c placed = (_, refl)
  offered-returns inside_line c placed = (_, if-false _ _ (ge→ltb (length buf) c placed))
  offered-returns after_line c placed = (_, refl)
  offered-returns trailer c placed = (_, refl)

  behind :
      (all : Bytes) (n : ℕ) (ws : List (IoResult ℕ)) (r : Outcome SseWritten)
      → Wrote all buf ws r
      → Wrote all buf (ok n ∷ ws) r
  behind all n ws r (again t e stops on) = again t e (succeeding n ws t.writes e stops) on
  behind all n ws r (done t whole start none_taken writable) =
      done t whole start none_taken writable

  unchanged :
      (all : Bytes) (given ws : List (IoResult ℕ)) (out : Bytes) (st : SseState) (c : ℕ)
      (e : ErrorKind)
      → IsPlaced buf st c
      → out ++ pending buf st c ≡ all
      → All TakesSome ws
      → StopsAt given ws e
      → Wrote all buf given (
          returns (record {
            after = record { writes = ws; output = out; state = st; consumed_actual_buffer = c };
            result = err e;
          }))
  unchanged all given ws out st c e placed whole writable stops =
      again _ e stops (record { placed = placed; whole = whole; writable = writable })

  sse_loop-Wrote :
      (all : Bytes) (ws : List (IoResult ℕ)) (out : Bytes) (st : SseState) (c : ℕ)
      → IsPlaced buf st c
      → out ++ pending buf st c ≡ all
      → All TakesSome ws
      → Wrote all buf ws (sse_loop ws out st c buf)
  unfolding sse_loop advanced offered IsRound
  sse_loop-Wrote all [] out st c placed whole writable =
      rw ((offered-returns st c placed).1, sse_loop)
        (unchanged all [] [] out st c would_block placed whole tt unknown)
  sse_loop-Wrote all (err e ∷ ws) out st c placed whole writable =
      rw ((offered-returns st c placed).1, sse_loop)
        (unchanged all (err e ∷ ws) ws out st c e placed whole writable.1 (failing e ws))
  sse_loop-Wrote all (ok n ∷ ws) out (before_line x) c placed whole writable =
      let o = drop x data_prefix in
      let ll = min n (length o) in
      let (split, next) =
        before_line-IsRound buf x c ll placed.0 placed.1
          (omega (arith, length-drop x data_prefix)) in
      behind all n ws _ (
        sse_loop-Wrote all ws (out ++ take ll o) _ _ next
          (extended all out (take ll o) _ _ whole split) writable.1)
  sse_loop-Wrote all (ok n ∷ ws) out inside_line c placed whole writable =
      let o = until_newline (drop c buf) in
      let ll = min n (length o) in
      let (split, next) = inside_line-IsRound buf c ll placed (omega arith) in
      rw (ge→ltb (length buf) c placed, sse_loop)
        (behind all n ws _ (
          sse_loop-Wrote all ws (out ++ take ll o) _ _ next
            (extended all out (take ll o) _ _ whole split) writable.1))
  sse_loop-Wrote all (ok n ∷ ws) out after_line c placed whole writable =
      let (split, next) = after_line-IsRound buf c placed in
      let one : 1 ≡ min n 1 = omega (arith, writable.0) in
      subst
        (λ k. Wrote all buf (ok n ∷ ws) (
          sse_loop ws (out ++ take k newline) (advanced after_line k 1 c buf).0
            (advanced after_line k 1 c buf).1 buf))
        one
        (behind all n ws _ (
          sse_loop-Wrote all ws (out ++ newline) _ _ next (extended all out newline _ _ whole split)
            writable.1))
  sse_loop-Wrote all (ok n ∷ ws) out trailer c placed whole writable =
      let one : 1 ≡ min n 1 = omega (arith, writable.0) in
      let at_end : ℕ → IoResult ℕ → SseWritten = λ k r. record {
        after = record {
          writes = ws;
          output = out ++ take k newline;
          state = before_line 0;
          consumed_actual_buffer = 0;
        };
        result = r;
      } in
      subst (λ k. Wrote all buf (ok n ∷ ws) (returns (at_end k (ok c)))) one
        (subst (λ m. Wrote all buf (ok n ∷ ws) (returns (at_end 1 (ok m)))) (sym placed)
          (done _ whole refl refl writable.1))

-- A write of a message to a stream of server-sent events, where the inner writes that succeed take
-- something, tried until it is taken: it does not panic; it fails only where an inner write does, or
-- would block, with its error, and then goes on where it was; where it succeeds, it gives the length of
-- the message, what was put out behind the earlier events is the event of the message, whole, and the
-- stream is ready for the next one.
pub sse_write-Wrote :
    (all buf : Bytes) (s : SseStream)
    → IsSending all buf s
    → Wrote all buf s.writes (sse_write s buf)
unfolding sse_write
sse_write-Wrote all buf s on =
    sse_loop-Wrote buf all s.writes s.output s.state s.consumed_actual_buffer on.placed on.whole
      on.writable

-- At the start of a message, what it is on the way to is its event.
pub ready-IsSending :
    (buf : Bytes) (s : SseStream)
    → s.state ≡ before_line 0
    → s.consumed_actual_buffer ≡ 0
    → All TakesSome s.writes
    → IsSending (s.output ++ event_of buf) buf s
ready-IsSending buf s at_start none_taken writable = record {
  placed = rw (at_start, none_taken) (omega arith, omega arith);
  whole = rw (at_start, none_taken);
  writable = writable;
}
