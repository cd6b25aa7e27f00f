-- ===== src/HttpHead.antt =====
-- http_peer.rs: `WaitForHttpHead`, the future that reads until the end of an HTTP head. The reader is a
-- script of read results; a read puts at most the bytes that its buffer has room for.
pub mod Heads
pub mod Ends
pub mod Amid
pub mod Polling
mod Tests
use websocat.Base.{
  ℕ, suc, zero, ◌+◌, ◌-◌, Bool, true, false, Option, none, some, List, [], ◌∷◌, ◌++◌, ltb, ◌==◌,
  if◌then◌else◌, length, take, drop, replicate, is_empty, Bytes, IoResult, ok, err, ErrorKind,
  would_block,
}

pub data HttpHeaderEndDetectionState : Type 0 where
  neutral first_cr first_lf second_cr found_header_end : HttpHeaderEndDetectionState

pub record WaitForHttpHead : Type 0 where
  pub buf : Option Bytes
  pub offset : ℕ
  pub state : HttpHeaderEndDetectionState
  pub io : Option (List (IoResult Bytes))

-- `WaitForHttpHead::new`
unfoldable pub wait_for_http_head : List (IoResult Bytes) → WaitForHttpHead
wait_for_http_head io = record { buf = some []; offset = 0; state = neutral; io = some io }

pub data HeadError : Type 0 where
  polled_after_completion trimmed_http_head http_head_too_long : HeadError
  io_error : ErrorKind → HeadError

-- `Poll`; a ready one has the buffer and the offset of `WaitForHttpHeadResult`.
pub data HeadPoll : Type 0 where
  ready : Bytes → ℕ → HeadPoll
  not_ready : HeadPoll
  failed : HeadError → HeadPoll

-- The `match` of the parser.
unfoldable pub next_state : HttpHeaderEndDetectionState → ℕ → HttpHeaderEndDetectionState
next_state neutral x = if x == b'\r' then first_cr else neutral
next_state first_cr x = if x == b'\n' then first_lf else neutral
next_state first_lf x = if x == b'\r' then second_cr else neutral
next_state second_cr x = if x == b'\n' then found_header_end else neutral
next_state found_header_end x = neutral

-- What a run of the parser gives: the offset behind the head, or the state it is left in.
pub data Parsing : Type 0 where
  found : ℕ → Parsing
  still : HttpHeaderEndDetectionState → Parsing

abbrev pub is_found : HttpHeaderEndDetectionState → Bool
is_found found_header_end = true
is_found _ = false

-- The `for` loop over the bytes from index `i` on.
unfoldable pub parse : HttpHeaderEndDetectionState → Bytes → ℕ → Parsing
parse s [] i = still s
parse s (x ∷ xs) i = elim (is_found (next_state s x)) [
  | true ↦ found (i + 1)
  | false ↦ parse (next_state s x) xs (i + 1)
]

-- `buf.resize(n, 0u8)`
abbrev pub resize : ℕ → Bytes → Bytes
resize n b = take n b ++ replicate (n - length b) 0

-- Room for 1024 bytes behind the offset.
abbrev pub grown : ℕ → Bytes → Bytes
grown offset b = if ltb (length b) (offset + 1024) then resize (offset + 1024) b else b

-- `io.read(&mut buf[offset..])` gave `x`.
abbrev pub read_at : ℕ → Bytes → Bytes → Bytes
read_at offset x b = take offset b ++ (x ++ drop (offset + length x) b)

abbrev pub reading :
    Bytes → ℕ → HttpHeaderEndDetectionState → List (IoResult Bytes) → WaitForHttpHead
reading b offset s io = record { buf = some b; offset = offset; state = s; io = some io }

-- An error of the reader: `try_nb!`.
abbrev pub read_failed : ErrorKind → HeadPoll
read_failed would_block = not_ready
read_failed e = failed (io_error e)

-- A turn of the loop: it returns, or goes on with `buf`, `offset` and `state`.
pub data Turn : Type 0 where
  leaves : WaitForHttpHead × HeadPoll → Turn
  again : Bytes → ℕ → HttpHeaderEndDetectionState → Turn

-- Behind the parser's run over the `n` bytes read.
unfoldable pub parsed_turn : Parsing → ℕ → Bytes → ℕ → List (IoResult Bytes) → Turn
parsed_turn (found o) n b offset rs = leaves (
  record { buf = none; offset = offset; state = found_header_end; io = none },
  ready (resize (offset + n) b) o,
)
parsed_turn (still s) n b offset rs =
    if ltb 60000 (offset + n)
    then leaves (reading b (offset + n) s rs, failed http_head_too_long)
    else again b (offset + n) s

-- `n` bytes were read into `b` at the offset.
unfoldable pub read_turn :
    ℕ → Bytes → ℕ → HttpHeaderEndDetectionState → List (IoResult Bytes) → Turn
unfolding parse parsed_turn
read_turn zero b offset s rs = leaves (reading b offset s rs, failed trimmed_http_head)
read_turn (suc n) b offset s rs =
    parsed_turn (parse s (take (suc n) (drop offset b)) offset) (suc n) b offset rs

-- What a successful read gives, as much as there is room for.
abbrev pub received : Bytes → Bytes → ℕ → Bytes
received x b offset = take (length (grown offset b) - offset) x

-- The loop, by the results of the reader.
unfoldable pub wait_loop :
    List (IoResult Bytes) → Bytes → ℕ → HttpHeaderEndDetectionState → WaitForHttpHead × HeadPoll
unfolding read_turn
wait_loop [] b offset s = (reading (grown offset b) offset s [], not_ready)
wait_loop (err e ∷ rs) b offset s = (reading (grown offset b) offset s rs, read_failed e)
wait_loop (ok x ∷ rs) b offset s =
    let y = received x b offset in
    elim (read_turn (length y) (read_at offset y (grown offset b)) offset s rs) [
      | leaves r ↦ r
      | again b' offset' s' ↦ wait_loop rs b' offset' s'
    ]

unfoldable pub wait_poll : WaitForHttpHead → WaitForHttpHead × HeadPoll
unfolding wait_loop
wait_poll w = elim w.buf [
  | none ↦ (w, failed polled_after_completion)
  | some b ↦ elim w.io [
    | none ↦ (w, failed polled_after_completion)
    | some io ↦ wait_loop io b w.offset w.state
  ]
]
