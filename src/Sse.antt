-- ===== src/Sse.antt =====
-- http_peer.rs, `SseStream`: a writer that makes each message a server-sent event. What the writes of the
-- inner writer give is a script.
pub mod Events
pub mod Rounds
mod Tests
use websocat.Base.{
  ℕ, suc, zero, ◌+◌, ◌-◌, Bool, true, false, List, [], ◌∷◌, ◌++◌, min, length, take, drop, get_or,
  Bytes, codes, IoResult, ok, err, would_block, Outcome, returns, panics, ltb, ◌==◌, if◌then◌else◌,
}

pub data SseState : Type 0 where
  before_line : ℕ → SseState
  inside_line after_line trailer : SseState

-- What the next writes of `io` give, and what it has taken.
pub record SseStream : Type 0 where
  pub writes : List (IoResult ℕ)
  pub output : Bytes
  pub state : SseState
  pub consumed_actual_buffer : ℕ

-- `SseStream::new`
unfoldable pub new_sse_stream : List (IoResult ℕ) → SseStream
new_sse_stream ws = record {
  writes = ws;
  output = [];
  state = before_line 0;
  consumed_actual_buffer = 0;
}

abbrev pub data_prefix : Bytes
data_prefix = b'd' ∷ b'a' ∷ b't' ∷ b'a' ∷ b':' ∷ b' ' ∷ []

abbrev pub newline : Bytes
newline = b'\n' ∷ []

-- `position(|&x| x == b'\n').unwrap_or(buf.len())`, and the bytes before it.
abbrev pub until_newline : Bytes → Bytes
until_newline [] = []
until_newline (x ∷ xs) = if x == b'\n' then [] else x ∷ until_newline xs

-- What is given to `io.write`; `&buf[self.consumed_actual_buffer..]` panics beyond the buffer.
unfoldable pub offered : SseState → ℕ → Bytes → Outcome Bytes
offered (before_line x) c buf = returns (drop x data_prefix)
offered inside_line c buf =
    if ltb (length buf) c then panics else returns (until_newline (drop c buf))
offered after_line c buf = returns newline
offered trailer c buf = returns newline

abbrev pub past_newline : ℕ → Bytes → ℕ
past_newline c buf = if get_or buf c 0 == b'\n' then c + 1 else c

-- The second `match s`, where `ll` of `need_write` bytes were taken: the state, and the bytes consumed.
-- `none` of it is the `Trailer`, which returns.
unfoldable pub advanced : SseState → ℕ → ℕ → ℕ → Bytes → SseState × ℕ
advanced (before_line x) ll need c buf =
    (if ll + x == 6 then inside_line else before_line (ll + x), c)
advanced inside_line ll need c buf = (if ltb ll need then inside_line else after_line, c + ll)
advanced after_line ll need c buf =
    if ltb c (length buf) then (before_line 0, past_newline c buf) else (trailer, c)
advanced trailer ll need c buf = (before_line 0, 0)

pub record SseWritten : Type 0 where
  pub after : SseStream
  pub result : IoResult ℕ

abbrev pub is_trailer : SseState → Bool
is_trailer trailer = true
is_trailer st = false

-- The loop of `write`: the state and the bytes consumed, and what was taken before.
unfoldable pub sse_loop : List (IoResult ℕ) → Bytes → SseState → ℕ → Bytes → Outcome SseWritten
unfolding offered advanced
sse_loop [] out st c buf = elim (offered st c buf) [
  | panics ↦ panics
  | returns o ↦ returns (record {
    after = record { writes = []; output = out; state = st; consumed_actual_buffer = c };
    result = err would_block;
  })
]
sse_loop (err e ∷ ws) out st c buf = elim (offered st c buf) [
  | panics ↦ panics
  | returns o ↦ returns (record {
    after = record { writes = ws; output = out; state = st; consumed_actual_buffer = c };
    result = err e;
  })
]
sse_loop (ok n ∷ ws) out st c buf = elim (offered st c buf) [
  | panics ↦ panics
  | returns o ↦
      let ll = min n (length o) in
      let next = advanced st ll (length o) c buf in
      let rest = sse_loop ws (out ++ take ll o) next.0 next.1 buf in
      elim (is_trailer st) [
        | true ↦ returns (record {
          after = record {
            writes = ws;
            output = out ++ take ll o;
            state = next.0;
            consumed_actual_buffer = next.1;
          };
          result = ok c;
        })
        | false ↦ rest
      ]
]

-- `SseStream::write`
unfoldable pub sse_write : SseStream → Bytes → Outcome SseWritten
unfolding sse_loop
sse_write s buf = sse_loop s.writes s.output s.state s.consumed_actual_buffer buf
