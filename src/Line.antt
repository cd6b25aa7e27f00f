-- ===== src/Line.antt =====
-- line_peer.rs: `Packet2LineWrapper` makes each message one line, `Line2PacketWrapper` each line one
-- message. The inner reader (`AsyncRead`) is a script: the results that its next reads give, each with
-- the bytes it puts at the front of the buffer.
pub mod Rounds
pub mod Conserved
pub mod Framed
pub mod Stale
pub mod Packets
mod Tests
use websocat.Base.{
  ℕ, suc, zero, ◌-◌, Bool, true, false, not, ◌&&◌, ◌||◌, Option, none, some, List, [], ◌∷◌, ◌++◌,
  ltb, ◌==◌, if◌then◌else◌, length, take, drop, get_or, is_empty, Bytes, IoResult, ok, err,
  would_block, Outcome, returns, panics,
}

abbrev pub Script : Type 0
Script = List (IoResult Bytes)

-- A buffer whose front a read has overwritten.
abbrev pub overwritten : Bytes → Bytes → Bytes
overwritten buf x = x ++ drop (length x) buf

-- `if n > 0 && b[n - 1] == c { n -= 1 }`
abbrev pub chomp : ℕ → Bytes → ℕ → ℕ
chomp c b zero = zero
chomp c b (suc n) = if get_or b n 0 == c then n else suc n

-- `b[i] = c`
abbrev pub set : ℕ → ℕ → Bytes → Bytes
set i c b = take i b ++ c ∷ drop (suc i) b

-- The loop that replaces line breaks by spaces in the first `n` bytes.
unfoldable pub replace_newlines : ℕ → Bytes → Bytes
replace_newlines zero b = b
replace_newlines (suc n) [] = []
replace_newlines (suc n) (c ∷ b) =
    (if c == b'\n' || c == b'\r' then b' ' else c) ∷ replace_newlines n b

pub record Packet2LineWrapper : Type 0 where
  pub inner : Script
  pub null_terminated : Bool

-- What a read leaves: the reader, the caller's buffer, and the result.
pub record LineRead {ℓ} (A : Type ℓ) : Type ℓ where
  pub after : A
  pub buf : Bytes
  pub result : IoResult ℕ

-- A message of `n` bytes at the front of `b`, made a line.
unfoldable pub newline_terminated : Bytes → ℕ → Bytes × ℕ
newline_terminated b n =
    let m = chomp b'\r' b (chomp b'\n' b n) in (set m b'\n' (replace_newlines m b), suc m)

unfoldable pub zero_terminated : Bytes → ℕ → Bytes × ℕ
zero_terminated b n = let m = chomp 0 b n in (set m 0 b, suc m)

abbrev pub terminated : Bool → Bytes → ℕ → Bytes × ℕ
terminated null_terminated b n =
    if null_terminated then zero_terminated b n else newline_terminated b n

abbrev pub packet_result : Packet2LineWrapper → Bytes × ℕ → LineRead Packet2LineWrapper
packet_result s p = record { after = s; buf = p.0; result = ok p.1 }

-- `read` of `Packet2LineWrapper` behind its assertion.
unfoldable pub packet_step : Bool → Script → Bytes → LineRead Packet2LineWrapper
packet_step z [] b = record {
  after = record { inner = []; null_terminated = z };
  buf = b;
  result = err would_block;
}
packet_step z (err e ∷ rs) b = record {
  after = record { inner = rs; null_terminated = z };
  buf = b;
  result = err e;
}
packet_step z (ok [] ∷ rs) b = record {
  after = record { inner = rs; null_terminated = z };
  buf = b;
  result = ok 0;
}
packet_step z (ok (c ∷ x) ∷ rs) b =
    packet_result (record { inner = rs; null_terminated = z })
      (terminated z (overwritten b (c ∷ x)) (suc (length x)))

-- `impl Read for Packet2LineWrapper`; the inner reader is given all of the buffer but its last byte.
unfoldable pub packet_read : Packet2LineWrapper → Bytes → Outcome (LineRead Packet2LineWrapper)
packet_read s b =
    if ltb 1 (length b) then returns (packet_step s.null_terminated s.inner b) else panics

pub record Line2PacketWrapper : Type 0 where
  pub inner : Script
  pub queue : Bytes
  pub retain_newlines : Bool
  pub allow_incomplete_lines : Bool
  pub drop_too_long_lines : Bool
  pub eof : Bool
  pub null_terminated : Bool

-- The wrapper that `line2packet_peer` makes.
unfoldable pub line2packet_peer : Script → Bool → Bool → Bool → Line2PacketWrapper
line2packet_peer inner retain_newlines strict null_terminated = record {
  inner = inner;
  queue = [];
  retain_newlines = retain_newlines;
  allow_incomplete_lines = not strict;
  drop_too_long_lines = strict;
  eof = false;
  null_terminated = null_terminated;
}

pub record Delivered : Type 0 where
  pub after : Line2PacketWrapper
  pub buf : Bytes
  pub result : Option ℕ

-- The three tests for a terminator at `buf[n - 1]`.
unfoldable pub chomp_terminator : Line2PacketWrapper → Bytes → ℕ → ℕ
chomp_terminator s buf n =
    let m =
      if not s.retain_newlines && not s.null_terminated
      then chomp b'\r' buf (chomp b'\n' buf n)
      else n in
    if s.null_terminated then chomp 0 buf m else m

-- From `buf[0..n].copy_from_slice` on.
abbrev pub hand_over : Line2PacketWrapper → Bytes → ℕ → Delivered
hand_over s buf n = record {
  after = record s { queue = drop n s.queue };
  buf = overwritten buf (take n s.queue);
  result = some n;
}

unfoldable pub deliver_the_line : Line2PacketWrapper → Bytes → ℕ → Delivered
deliver_the_line s buf n =
    if ltb (length buf) n
    then (if s.drop_too_long_lines
        then record { after = record s { queue = drop n s.queue }; buf = buf; result = none }
        else hand_over s buf (length buf))
    else hand_over s buf (chomp_terminator s buf n)

abbrev pub char_to_look_at : Line2PacketWrapper → ℕ
char_to_look_at s = if s.null_terminated then 0 else b'\n'

-- The index of the first `c`.
unfoldable pub position : ℕ → Bytes → Option ℕ
position c [] = none
position c (x ∷ xs) =
    if x == c then some 0 else elim (position c xs) [ none ↦ none | some i ↦ some (suc i) ]

-- The branch on a zero-length inner read.
unfoldable pub at_eof : Line2PacketWrapper → Bytes → LineRead Line2PacketWrapper
at_eof s buf =
    if is_empty s.queue || not s.allow_incomplete_lines
    then record { after = s; buf = buf; result = ok 0 }
    else (let d = deliver_the_line s buf (length s.queue) in
        record {
          after = d.after;
          buf = d.buf;
          result = elim d.result [ some n ↦ ok n | none ↦ ok 0 ];
        })

-- `contains`
unfoldable pub has : ℕ → Bytes → Bool
has c [] = false
has c (x ∷ xs) = x == c || has c xs

-- `n` bytes `x` were read: nothing is queued, and the only terminator read is the last byte.
unfoldable pub happy_case : Line2PacketWrapper → Bytes → Bool
happy_case s x =
    let c = char_to_look_at s in
    let last = length x - 1 in
    is_empty s.queue && (not (has c (take last x)) && get_or x last 0 == c)

-- One call of `read`: it answers, or calls itself.
pub data Round : Type 0 where
  answer : LineRead Line2PacketWrapper → Round
  recurse : Line2PacketWrapper → Bytes → Round

-- A line of `n` bytes is queued.
unfoldable pub queued_round : Delivered → Round
queued_round d = elim d.result [
  | some n ↦ answer (record { after = d.after; buf = d.buf; result = ok n })
  | none ↦ recurse d.after d.buf
]

-- The inner read gave `x`, not empty.
unfoldable pub read_round : Line2PacketWrapper → Bytes → Bytes → Round
read_round s buf x =
    if happy_case s x
    then answer (record {
      after = s;
      buf = overwritten buf x;
      result = ok (chomp_terminator s (overwritten buf x) (length x));
    })
    else recurse (record s { queue = s.queue ++ x }) (overwritten buf x)

-- No whole line is queued.
unfoldable pub inner_round : Script → Line2PacketWrapper → Bytes → Round
inner_round [] s buf = answer (record { after = s; buf = buf; result = err would_block })
inner_round (err e ∷ rs) s buf =
    answer (record { after = record s { inner = rs }; buf = buf; result = err e })
inner_round (ok [] ∷ rs) s buf = answer (at_eof (record s { inner = rs; eof = true }) buf)
inner_round (ok (c ∷ x) ∷ rs) s buf = read_round (record s { inner = rs }) buf (c ∷ x)

unfoldable pub line_round : Line2PacketWrapper → Bytes → Round
line_round s buf =
    if s.eof
    then answer (record { after = s; buf = buf; result = ok 0 })
    else elim (position (char_to_look_at s) s.queue) [
      | some i ↦ queued_round (deliver_the_line s buf (suc i))
      | none ↦ inner_round s.inner s buf
    ]

-- `impl Read for Line2PacketWrapper`; `none` when the fuel runs out.
unfoldable pub line_read : ℕ → Line2PacketWrapper → Bytes → Option (LineRead Line2PacketWrapper)
line_read zero s buf = none
line_read (suc f) s buf = elim (line_round s buf) [
  | answer r ↦ some r
  | recurse s' buf' ↦ line_read f s' buf'
]
