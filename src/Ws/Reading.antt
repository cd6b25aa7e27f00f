-- ===== src/Ws/Reading.antt =====
-- `impl Read for WsReadWrapper`: the loop over what the source gives. The clock stands still during one
-- call of `read`.
use websocat.Base.{
  ◌*◌, ◌/◌, ℕ, ◌+◌, Bool, true, false, ◌&&◌, Option, none, some, List, [], ◌∷◌, ◌++◌, ltb, leb,
  ◌==◌, if◌then◌else◌, length, take, drop, Bytes, IoResult, err, would_block, broken_pipe, other,
  Outcome, returns, panics,
}
use websocat.ReadDebt.{ReadDebt, Processed, return, recurse, process_message, check_debt}
use websocat.Ws.{
  OwnedMessage, text, binary, close, ping, pong, DelayPoll, fires, Foreign, uncompress, SendReply,
  taken, refused, CompleteReply, Sink, start_send, poll_complete, SourcePoll, message, ended,
  not_ready, failed, WsReadWrapper,
}

pub record WsRead : Type 0 where
  pub after : WsReadWrapper
  pub buf : Bytes
  pub result : IoResult ℕ

-- `base64::encode_config_slice` into a slice of `room` bytes.
unfoldable pub encode_config_slice : Foreign → Bytes → ℕ → Outcome Bytes
encode_config_slice o q room =
    if ltb room (length (o.base64_encode q)) then panics else returns (o.base64_encode q)

abbrev pub before_newline : Bytes → Outcome Bytes → Outcome Bytes
before_newline prefix panics = panics
before_newline prefix (returns r) = returns (prefix ++ (r ++ b'\n' ∷ []))

-- `process_prefixes_and_base64`: the bytes that `q` is then.
unfoldable pub process_prefixes_and_base64 : Foreign → Option Bytes → Bool → Bytes → Outcome Bytes
unfolding encode_config_slice
process_prefixes_and_base64 o none false q = returns q
process_prefixes_and_base64 o (some pr) false q = returns (pr ++ q)
process_prefixes_and_base64 o none true q =
    before_newline [] (encode_config_slice o q (length q * 3 / 2 + 3))
process_prefixes_and_base64 o (some pr) true q =
    before_newline pr (encode_config_slice o q (length q * 3 / 2 + 3))

-- `abort_and_broken_pipe!`
abbrev pub abort_and_broken_pipe : WsReadWrapper → Bytes → Outcome WsRead
abort_and_broken_pipe w buf = returns (record {
  after = if w.ping_aborter then record w { ping_aborter = false; aborted = true } else w;
  buf = buf;
  result = err broken_pipe;
})

abbrev pub read_gives : WsReadWrapper → Bytes → IoResult ℕ → Outcome WsRead
read_gives w buf r = returns (record { after = w; buf = buf; result = r })

-- `from_be_bytes` of the bytes behind those worth `acc`.
abbrev pub be_value : ℕ → Bytes → ℕ
be_value acc [] = acc
be_value acc (c ∷ cs) = be_value (acc * 256 + c) cs

-- 2 ^ 64, what the seconds of a `Duration` stay below.
abbrev pub seconds_modulus : ℕ
seconds_modulus = 18446744073709551616

-- `Duration::new` panics if the seconds overflow by the carry from the nanoseconds.
unfoldable pub overflows : ℕ → ℕ → Bool
overflows secs nanos = leb seconds_modulus (secs + nanos / 1000000000)

-- The time stamp of a pong of twelve bytes.
unfoldable pub bad_timestamp : Bytes → Bool
unfolding overflows
bad_timestamp b =
    length b == 12 && overflows (be_value 0 (take 8 b)) (be_value 0 (take 4 (drop 8 b)))

abbrev pub reset_timeout : ℕ → Option (ℕ × ℕ) → Option (ℕ × ℕ)
reset_timeout now none = none
reset_timeout now (some (deadline, interval)) = some (now + interval, interval)

-- `poll_complete` behind a pong that was taken; only its error ends the read.
abbrev pub pong_completed :
    (WsReadWrapper → Bytes → Outcome WsRead)
    → WsReadWrapper
    → Bytes
    → Sink × CompleteReply
    → Outcome WsRead
pong_completed again w buf (sink, CompleteReply.broken) =
    read_gives (record w { pingreply = sink }) buf (err other)
pong_completed again w buf (sink, _) = again (record w { pingreply = sink }) buf

abbrev pub ponged :
    (WsReadWrapper → Bytes → Outcome WsRead)
    → WsReadWrapper
    → Bytes
    → Sink × SendReply
    → Outcome WsRead
ponged again w buf (sink, taken) = pong_completed again w buf (poll_complete sink)
ponged again w buf (sink, refused) = again (record w { pingreply = sink }) buf
ponged again w buf (sink, SendReply.broken) =
    read_gives (record w { pingreply = sink }) buf (err other)

abbrev pub processed :
    (WsReadWrapper → Bytes → Outcome WsRead) → WsReadWrapper → Outcome Processed → Outcome WsRead
processed again w panics = panics
processed again w (returns p) = elim p.result [
  | return x ↦ read_gives (record w { debt = p.after }) p.buf x
  | recurse ↦ again (record w { debt = p.after }) p.buf
]

abbrev pub incoming :
    (WsReadWrapper → Bytes → Outcome WsRead)
    → WsReadWrapper
    → Bytes
    → Outcome Bytes
    → Outcome WsRead
incoming again w buf panics = panics
incoming again w buf (returns q) = processed again w (process_message w.debt buf q)

abbrev pub timed_out : Option DelayPoll → Bool
timed_out (some fires) = true
timed_out (some _) = false
timed_out none = false

abbrev pub deadline_poll : Foreign → ℕ → Option (ℕ × ℕ) → Option DelayPoll
deadline_poll o now none = none
deadline_poll o now (some (deadline, interval)) = some (o.poll_delay deadline now)

-- What a message makes of the read: it answers, or goes `again` through the loop.
unfoldable pub receive_message :
    Foreign
    → ℕ
    → (WsReadWrapper → Bytes → Outcome WsRead)
    → OwnedMessage
    → WsReadWrapper
    → Bytes
    → Outcome WsRead
unfolding start_send poll_complete uncompress process_prefixes_and_base64 bad_timestamp
receive_message o now again (close x) w buf = abort_and_broken_pipe w buf
receive_message o now again (ping x) w buf = ponged again w buf (start_send w.pingreply (pong x))
receive_message o now again (pong b) w buf =
    if bad_timestamp b
    then panics
    else again (record w { pong_timeout = reset_timeout now w.pong_timeout }) buf
receive_message o now again (text x) w buf =
    incoming again w buf (process_prefixes_and_base64 o w.text_prefix w.text_base64 x)
receive_message o now again (binary x) w buf =
    incoming again w buf
      (process_prefixes_and_base64 o w.binary_prefix w.binary_base64 (uncompress o w.uncompress x))

-- The source is not ready.
abbrev pub wait : Foreign → ℕ → WsReadWrapper → Bytes → Outcome WsRead
wait o now w buf =
    if timed_out (deadline_poll o now w.pong_timeout)
    then abort_and_broken_pipe w buf
    else read_gives w buf (err would_block)

unfoldable pub read_loop : Foreign → ℕ → List SourcePoll → WsReadWrapper → Bytes → Outcome WsRead
unfolding receive_message
read_loop o now [] w buf = wait o now (record w { s = [] }) buf
read_loop o now (message m ∷ ps) w buf =
    receive_message o now (read_loop o now ps) m (record w { s = ps }) buf
read_loop o now (ended ∷ ps) w buf = abort_and_broken_pipe (record w { s = ps }) buf
read_loop o now (not_ready ∷ ps) w buf = wait o now (record w { s = ps }) buf
read_loop o now (failed ∷ ps) w buf = read_gives (record w { s = ps }) buf (err other)

abbrev pub after_debt :
    Foreign
    → ℕ
    → WsReadWrapper
    → Bytes
    → Outcome (Option (ReadDebt × Bytes × IoResult ℕ))
    → Outcome WsRead
unfolding read_loop
after_debt o now w buf panics = panics
after_debt o now w buf (returns none) = read_loop o now w.s w buf
after_debt o now w buf (returns (some (debt, paid, ret))) =
    read_gives (record w { debt = debt }) paid ret

-- `impl Read for WsReadWrapper`
unfoldable pub ws_read : Foreign → ℕ → WsReadWrapper → Bytes → Outcome WsRead
unfolding read_loop
ws_read o now w buf = after_debt o now w buf (check_debt w.debt buf)
