-- ===== src/Line/Stale.antt =====
-- Where `Line2PacketWrapper` does not do what it means to: the terminator of a queued line is looked for
-- in the caller's buffer, and what does not fit the buffer at the end of input is never delivered.
use websocat.Base.{
  ℕ, suc, ◌<◌, ap, ◌∙◌, ◌++◌, append-nil, drop-all, length-take, ◌≡◌, ◌≢◌, refl, true, false, none,
  some, [], ◌∷◌, arith, is_empty, length, take, drop, get_or, Bytes, ok,
}
use websocat.Line.{
  Script, LineRead, Line2PacketWrapper, deliver_the_line, hand_over, chomp_terminator,
  char_to_look_at, position, at_eof, line_read, line_round, queued_round, inner_round, overwritten,
}

-- A queued line is delivered with its newline on, though newlines are not retained, unless the byte that
-- the caller's buffer happens to hold at the newline's index is itself a line break.
pub line_read-keeps_newline :
    (f : ℕ) (s : Line2PacketWrapper) (buf : Bytes) (i : ℕ)
    → s.eof ≡ false
    → s.null_terminated ≡ false
    → s.retain_newlines ≡ false
    → position b'\n' s.queue ≡ some i
    → i < length buf
    → get_or buf i 0 ≢ b'\n'
    → get_or buf i 0 ≢ b'\r'
    → line_read (suc f) s buf
      ≡ some (record {
        after = record s { queue = drop (suc i) s.queue };
        buf = overwritten buf (take (suc i) s.queue);
        result = ok (suc i);
      })
unfolding line_read line_round queued_round deliver_the_line chomp_terminator
line_read-keeps_newline f s buf i more z k at room not_newline not_return = ground arith

-- What `hand_over` gives of a queue when the input has ended.
abbrev pub last_part : Line2PacketWrapper → Bytes → Script → LineRead Line2PacketWrapper
last_part s buf rs =
    let d = hand_over (record s { inner = rs; eof = true }) buf (length buf) in
    record { after = d.after; buf = d.buf; result = ok (length buf) }

not_empty : (m : ℕ) (xs : Bytes) → m < length xs → is_empty xs ≡ false
not_empty m [] h = absurd (omega arith)
not_empty m (x ∷ xs) h = refl

at_eof-last_part :
    (s : Line2PacketWrapper) (buf : Bytes) (rs : Script)
    → s.allow_incomplete_lines ≡ true
    → s.drop_too_long_lines ≡ false
    → length buf < length s.queue
    → at_eof (record s { inner = rs; eof = true }) buf ≡ last_part s buf rs
unfolding at_eof deliver_the_line
at_eof-last_part s buf rs incomplete splits long =
    ground (arith, not_empty (length buf) s.queue long)

-- What a reader gives whose input has ended: as many bytes of the queue as the buffer holds, with the rest
-- still queued, and then, into any buffer, the end of input, without a change.
pub record LosesTail (f : ℕ) (queue buf next : Bytes) (r : LineRead Line2PacketWrapper)
    : Type 0 where
  pub cut : r.result ≡ ok (length buf)
  pub front : r.buf ≡ take (length buf) queue
  pub rest : r.after.queue ≡ drop (length buf) queue
  pub over :
      line_read (suc f) r.after next ≡ some (record { after = r.after; buf = next; result = ok 0 })

-- A line reader that allows incomplete lines and does not drop long ones, with more bytes of an incomplete
-- line in its queue than the buffer holds: at the end of input, the read fills the buffer with the front of
-- the line and keeps the rest queued, and every later read, into whatever buffer, reports the end of input
-- and changes nothing, so that the rest of the line is lost.
pub line_read-LosesTail :
    (f : ℕ) (s : Line2PacketWrapper) (buf next : Bytes) (rs : Script)
    → s.eof ≡ false
    → s.allow_incomplete_lines ≡ true
    → s.drop_too_long_lines ≡ false
    → position (char_to_look_at s) s.queue ≡ none
    → s.inner ≡ ok [] ∷ rs
    → length buf < length s.queue
    → (r : LineRead Line2PacketWrapper) × (line_read (suc f) s buf ≡ some r)
      × LosesTail f s.queue buf next r
unfolding line_read line_round inner_round
line_read-LosesTail f s buf next rs more incomplete splits no_line from long =
    let part = take (length buf) s.queue in
    (
      last_part s buf rs,
      ground (arith, at_eof-last_part s buf rs incomplete splits long),
      record {
        cut = refl;
        front =
            ap (λ z. part ++ z)
              (drop-all (length part) buf (omega (arith, length-take (length buf) s.queue)))
            ∙ append-nil part;
        rest = refl;
        over = refl;
      },
    )
