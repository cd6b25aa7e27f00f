-- ===== src/Ws/Writing.antt =====
-- `impl Write for WsWriteWrapper`, and its shutdown.
use websocat.Base.{
  ℕ, Bool, true, false, Option, none, some, [], ◌∷◌, ◌==◌, if◌then◌else◌, length, Bytes, IoResult,
  ok, err, would_block, other,
}
use websocat.Ws.{
  CloseData, OwnedMessage, text, binary, close, Foreign, compress, SendReply, taken, refused,
  CompleteReply, complete, pending, Sink, start_send, poll_complete, Mode1, text_mode, binary_mode,
  WsWriteWrapper,
}

pub record WsWrite : Type 0 where
  pub after : WsWriteWrapper
  pub result : IoResult ℕ

-- `starts_with`, and the rest if it does.
abbrev pub strip : Bytes → Bytes → Option Bytes
strip [] buf = some buf
strip (c ∷ cs) [] = none
strip (c ∷ cs) (d ∷ ds) = if c == d then strip cs ds else none

-- One of the two tests for a prefix: it sets the mode, and shortens what is sent.
abbrev pub without : Mode1 → Mode1 → Bytes → Option Bytes → Mode1 × Bytes
without mode current buf none = (current, buf)
without mode current buf (some rest) = (mode, rest)

unfoldable pub by_prefix : Option Bytes → Mode1 → Mode1 × Bytes → Mode1 × Bytes
by_prefix none mode (current, buf) = (current, buf)
by_prefix (some pr) mode (current, buf) = without mode current buf (strip pr buf)

-- `if buf.last() == Some(&c) { buf = &buf[..(buf.len()-1)]; }`
unfoldable pub chop : ℕ → Bytes → Bytes
chop c [] = []
chop c (x ∷ []) = if x == c then [] else x ∷ []
chop c (x ∷ (y ∷ ys)) = x ∷ chop c (y ∷ ys)

abbrev pub or_as_is : Bytes → Option Bytes → Bytes
or_as_is buf none = buf
or_as_is buf (some v) = v

unfoldable pub decoded : Foreign → Bool → Bytes → Bytes
unfolding chop
decoded o false buf = buf
decoded o true buf =
    or_as_is (chop b'\r' (chop b'\n' buf)) (o.base64_decode (chop b'\r' (chop b'\n' buf)))

abbrev pub has_base64 : WsWriteWrapper → Mode1 → Bool
has_base64 w binary_mode = w.binary_base64
has_base64 w text_mode = w.text_base64

abbrev pub message_in : Foreign → WsWriteWrapper → Mode1 → Bytes → OwnedMessage
message_in o w binary_mode buf = binary (compress o w.compress buf)
message_in o w text_mode buf = text (if o.is_utf8 buf then buf else o.from_utf8_lossy buf)

abbrev pub message_by : Foreign → WsWriteWrapper → Mode1 × Bytes → OwnedMessage
unfolding decoded
message_by o w (mode, buf) = message_in o w mode (decoded o (has_base64 w mode) buf)

-- The message that a write sends.
unfoldable pub message_of : Foreign → WsWriteWrapper → Bytes → OwnedMessage
unfolding compress by_prefix decoded
message_of o w buf =
    message_by o w
      (by_prefix w.binary_prefix binary_mode (by_prefix w.text_prefix text_mode (w.mode, buf)))

abbrev pub write_gives : WsWriteWrapper → ℕ → Sink × SendReply → WsWrite
write_gives w n (sink, taken) = record { after = record w { sink = sink }; result = ok n }
write_gives w n (sink, refused) = record {
  after = record w { sink = sink };
  result = err would_block;
}
write_gives w n (sink, SendReply.broken) = record {
  after = record w { sink = sink };
  result = err other;
}

unfoldable pub ws_write : Foreign → WsWriteWrapper → Bytes → WsWrite
unfolding message_of start_send
ws_write o w buf = write_gives w (length buf) (start_send w.sink (message_of o w buf))

abbrev pub flushed : WsWriteWrapper → Sink × CompleteReply → WsWriteWrapper × IoResult (Unit {0})
flushed w (sink, complete) = (record w { sink = sink }, ok tt)
flushed w (sink, pending) = (record w { sink = sink }, err would_block)
flushed w (sink, CompleteReply.broken) = (record w { sink = sink }, err other)

unfoldable pub ws_flush : WsWriteWrapper → WsWriteWrapper × IoResult (Unit {0})
unfolding poll_complete
ws_flush w = flushed w (poll_complete w.sink)

abbrev pub or_empty : Option Bytes → Bytes
or_empty none = []
or_empty (some r) = r

abbrev pub close_data : Option ℕ → Option Bytes → Option CloseData
close_data none reason = none
close_data (some code) reason = some (record { status_code = code; reason = or_empty reason })

-- What became of the close message; an error of `poll_complete` is dropped.
abbrev pub close_gives : WsWriteWrapper → Sink × SendReply → WsWriteWrapper × IoResult (Unit {0})
close_gives w (sink, taken) = (record w { sink = (poll_complete sink).0 }, ok tt)
close_gives w (sink, refused) = (record w { sink = sink }, err would_block)
close_gives w (sink, SendReply.broken) = (record w { sink = sink }, err other)

unfoldable pub ws_shutdown : WsWriteWrapper → WsWriteWrapper × IoResult (Unit {0})
unfolding start_send poll_complete
ws_shutdown w =
    if w.close_on_shutdown
    then close_gives w (start_send w.sink (close (close_data w.close_status_code w.close_reason)))
    else (w, ok tt)
