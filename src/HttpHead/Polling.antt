-- ===== src/HttpHead/Polling.antt =====
-- However the reads cut the head, `WaitForHttpHead` finds the same end in it.
use websocat.Base.{
  ℕ, suc, zero, ◌+◌, ◌-◌, ◌≤◌, ◌≡◌, inl, inr, refl, sym, ap, ◌∙◌, List, [], ◌∷◌, ◌++◌, arith, ltb,
  length, take, drop, length-take, Bytes, IoResult, ok, err, would_block, broken_pipe, write_zero,
  other, Bool-cases, append-nil, append_assoc, replicate, subst, if-true, if-false,
}
use websocat.HttpHead.{
  HttpHeaderEndDetectionState, neutral, WaitForHttpHead, wait_for_http_head, Parsing, found, still,
  parse, resize, grown, read_at, wait_loop, wait_poll, Turn, leaves, again, parsed_turn, read_turn,
  received,
}
use websocat.HttpHead.Heads.{parse-found, parse-still}
use websocat.HttpHead.Amid.{
  unread, IsAmid, IsReading, amid, IsFaithful, length-grown, take-grown, length-read_at,
  read_at-chunk, read_at-front,
}

abbrev IsFaithfulTurn : Bytes → List (IoResult Bytes) → Turn → Type 0
IsFaithfulTurn all rs (leaves r) = IsFaithful all r
IsFaithfulTurn all rs (again b offset s) = IsAmid all b offset s rs

-- Behind a read of `y`: the bytes before it, and it.
module _ {all b : Bytes} {offset : ℕ} {s : HttpHeaderEndDetectionState} {x : Bytes}
    {rs : List (IoResult Bytes)} (m : IsAmid all b offset s (ok x ∷ rs)) where
  received-take : received x b offset ≡ take 1024 x
  received-take =
      let room : length (grown offset b) - offset ≡ 1024 =
        omega (arith, length-grown offset b m.room) in
      ap (λ n. take n x) room

  front :
      (y : Bytes)
      → take (offset + length y) (read_at offset y (grown offset b)) ≡ take offset b ++ y
  front y =
      read_at-front offset y (grown offset b) (omega (arith, length-grown offset b m.room))
      ∙ ap (λ z. z ++ y) (take-grown offset b m.in_buf)

  whole-front : (take offset b ++ take 1024 x) ++ unread rs ≡ all
  whole-front = append_assoc (take offset b) (take 1024 x) (unread rs) ∙ m.whole

  parse-front : (y : Bytes) → parse neutral (take offset b ++ y) 0 ≡ parse s y offset
  parse-front y =
      parse-still neutral s (take offset b) y 0 m.parsed
      ∙ ap (parse s y) (omega (arith, length-take offset b, m.in_buf))

  length-front :
      (y : Bytes) → length y ≤ 1024 → length (read_at offset y (grown offset b)) ≡ offset + 1024
  length-front y le =
      let size = length-grown offset b m.room in
      length-read_at offset y (grown offset b) (omega (arith, size)) ∙ size

  parsed_turn-IsFaithful :
      (q : Parsing) (y : Bytes)
      → y ≡ take 1024 x
      → parse s y offset ≡ q
      → IsFaithfulTurn all rs
          (parsed_turn q (length y) (read_at offset y (grown offset b)) offset rs)
  unfolding parsed_turn
  parsed_turn-IsFaithful (found o) y e h =
      let b' = read_at offset y (grown offset b) in
      let le : length y ≤ 1024 = omega (arith, ap length e, length-take 1024 x) in
      let size = length-front y le in
      let nothing : offset + length y - length b' ≡ 0 = omega (arith, size) in
      let exact : resize (offset + length y) b' ≡ take offset b ++ y =
        ap (λ n. take (offset + length y) b' ++ replicate n 0) nothing ∙ append-nil _ ∙ front y in
      let split : (take offset b ++ y) ++ unread rs ≡ all =
        ap (λ z. (take offset b ++ z) ++ unread rs) e ∙ whole-front in
      (
        ap (λ z. parse neutral z 0) (sym split)
            ∙ parse-found neutral (take offset b ++ y) (unread rs) 0 o (parse-front y ∙ h),
        unread rs,
        ap (λ z. z ++ unread rs) exact ∙ split,
      )
  parsed_turn-IsFaithful (still t) y e h = elim (Bool-cases (ltb 60000 (offset + length y))) [
    | inl long ↦ subst (IsFaithfulTurn all rs) (sym (if-true _ _ long)) tt
    | inr short ↦ subst (IsFaithfulTurn all rs) (sym (if-false _ _ short)) (
        let le : length y ≤ 1024 = omega (arith, ap length e, length-take 1024 x) in
        record {
          in_buf = omega (arith, length-front y le);
          room = omega (arith, length-front y le);
          parsed = ap (λ z. parse neutral z 0) (front y) ∙ parse-front y ∙ h;
          whole =
              ap (λ z. z ++ unread rs) (front y)
              ∙ ap (λ z. (take offset b ++ z) ++ unread rs) e
              ∙ whole-front;
        })
  ]

  read_turn-IsFaithful :
      (n : ℕ) (y : Bytes)
      → length y ≡ n
      → y ≡ take 1024 x
      → IsFaithfulTurn all rs (read_turn n (read_at offset y (grown offset b)) offset s rs)
  unfolding read_turn
  read_turn-IsFaithful zero y l e = tt
  read_turn-IsFaithful (suc n) y l e =
      let b' = read_at offset y (grown offset b) in
      let chunk : take (suc n) (drop offset b') ≡ y =
        ap (λ k. take k (drop offset b')) (sym l)
        ∙ read_at-chunk offset y (grown offset b) (omega (arith, length-grown offset b m.room)) in
      subst
        (λ k.
          IsFaithfulTurn all rs
            (parsed_turn (parse s (take (suc n) (drop offset b')) offset) k b' offset rs))
        l (parsed_turn-IsFaithful _ y e (ap (λ z. parse s z offset) (sym chunk)))

grown-IsAmid :
    (all b : Bytes) (offset : ℕ) (s : HttpHeaderEndDetectionState) (r rs : List (IoResult Bytes))
    → unread r ≡ unread rs
    → IsAmid all b offset s r
    → IsAmid all (grown offset b) offset s rs
grown-IsAmid all b offset s r rs e m =
    let size = length-grown offset b m.room in
    let same = take-grown offset b m.in_buf in
    record {
      in_buf = omega (arith, size);
      room = omega (arith, size);
      parsed = ap (λ z. parse neutral z 0) same ∙ m.parsed;
      whole = ap (λ z. z ++ unread rs) same ∙ ap (λ z. take offset b ++ z) (sym e) ∙ m.whole;
    }

turn-IsFaithful :
    (all : Bytes) (rs : List (IoResult Bytes)) (t : Turn)
    → IsFaithfulTurn all rs t
    → ((b : Bytes) (offset : ℕ) (s : HttpHeaderEndDetectionState)
        → IsAmid all b offset s rs
        → IsFaithful all (wait_loop rs b offset s))
    → IsFaithful all (elim t [ leaves r ↦ r | again b offset s ↦ wait_loop rs b offset s ])
turn-IsFaithful all rs (leaves r) h next = h
turn-IsFaithful all rs (again b offset s) h next = next b offset s h

wait_loop-IsFaithful :
    (all : Bytes) (rs : List (IoResult Bytes)) (b : Bytes) (offset : ℕ)
    (s : HttpHeaderEndDetectionState)
    → IsAmid all b offset s rs
    → IsFaithful all (wait_loop rs b offset s)
unfolding wait_loop
wait_loop-IsFaithful all [] b offset s m = amid (grown-IsAmid all b offset s [] [] refl m)
wait_loop-IsFaithful all (err would_block ∷ rs) b offset s m =
    amid (grown-IsAmid all b offset s (err would_block ∷ rs) rs refl m)
wait_loop-IsFaithful all (err broken_pipe ∷ rs) b offset s m = tt
wait_loop-IsFaithful all (err write_zero ∷ rs) b offset s m = tt
wait_loop-IsFaithful all (err other ∷ rs) b offset s m = tt
wait_loop-IsFaithful all (ok x ∷ rs) b offset s m =
    let y = received x b offset in
    turn-IsFaithful all rs (read_turn (length y) (read_at offset y (grown offset b)) offset s rs)
      (read_turn-IsFaithful m (length y) y refl (received-take m)) (wait_loop-IsFaithful all rs)

-- However the reads cut the stream, and however often the future is polled until it is ready: where it
-- finds the end of the head is where the parser finds it in the whole stream, and the buffer returned
-- is the part of the stream that was read.
pub wait_poll-IsFaithful :
    (all : Bytes) (w : WaitForHttpHead) → IsReading all w → IsFaithful all (wait_poll w)
unfolding wait_poll
wait_poll-IsFaithful all _ (amid {b = b} {offset = offset} {s = s} {rs = rs} m) =
    wait_loop-IsFaithful all rs b offset s m

pub wait_for_http_head-IsReading :
    (io : List (IoResult Bytes)) → IsReading (unread io) (wait_for_http_head io)
unfolding wait_for_http_head parse
wait_for_http_head-IsReading io =
    amid (record { in_buf = omega arith; room = omega arith; parsed = refl; whole = refl })
