-- ===== src/Ws.antt =====
-- ws_peer.rs: the messages of a WebSocket, compression, and what the options make of a connection.
-- Framing is the websocket crate's, compression flate2's, base64 the base64 crate's.
pub mod Reading
pub mod Writing
pub mod Pinger
pub mod Encoded
pub mod Stamps
pub mod Channel
pub mod Lines
pub mod RoundTrip
pub mod Pings
pub mod Beats
mod Tests
use websocat.Base.{
  ℕ, suc, zero, ◌+◌, Bool, true, false, Option, none, some, List, [], ◌∷◌, ◌++◌, Bytes, IoResult,
  ok, err, would_block, broken_pipe, other,
}
use websocat.ReadDebt.{DebtHandling, ZeroMessagesHandling, ReadDebt}

pub record CloseData : Type 0 where
  pub status_code : ℕ
  pub reason : Bytes

-- A text is the bytes that encode it.
pub data OwnedMessage : Type 0 where
  text : Bytes → OwnedMessage
  binary : Bytes → OwnedMessage
  close : Option CloseData → OwnedMessage
  ping : Bytes → OwnedMessage
  pong : Bytes → OwnedMessage

pub data CompressionMethod : Type 0 where
  uncompressed deflate zlib gzip : CompressionMethod

-- What a timer says of a deadline.
pub data DelayPoll : Type 0 where
  fires waits fails : DelayPoll

-- What the code relies on of other crates: encoders and decoders, as the bytes that they give, and the
-- timer's answer for a deadline at a moment.
pub record Foreign : Type 0 where
  pub base64_encode : Bytes → Bytes
  pub base64_decode : Bytes → Option Bytes
  pub is_utf8 : Bytes → Bool
  pub from_utf8_lossy : Bytes → Bytes
  pub encoder : CompressionMethod → Bytes → Bytes
  pub decoder : CompressionMethod → Bytes → Bytes
  pub poll_delay : ℕ → ℕ → DelayPoll

-- `CompressionMethod::compress`
unfoldable pub compress : Foreign → CompressionMethod → Bytes → Bytes
compress o uncompressed x = x
compress o method x = o.encoder method x

-- `CompressionMethod::uncompress`
unfoldable pub uncompress : Foreign → CompressionMethod → Bytes → Bytes
uncompress o uncompressed x = x
uncompress o method x = o.decoder method x

pub data SendReply : Type 0 where
  taken refused broken : SendReply

pub data CompleteReply : Type 0 where
  complete pending broken : CompleteReply

-- The sink that both wrappers and the pinger share: what it answers next, and what it has taken.
pub record Sink : Type 0 where
  pub sends : List SendReply
  pub completes : List CompleteReply
  pub sent : List OwnedMessage

-- `start_send`; with no further answer known the sink is not ready.
abbrev pub sending : List SendReply → Sink → OwnedMessage → Sink × SendReply
sending [] sink m = (sink, refused)
sending (taken ∷ rs) sink m = (record sink { sends = rs; sent = sink.sent ++ m ∷ [] }, taken)
sending (refused ∷ rs) sink m = (record sink { sends = rs }, refused)
sending (SendReply.broken ∷ rs) sink m = (record sink { sends = rs }, SendReply.broken)

unfoldable pub start_send : Sink → OwnedMessage → Sink × SendReply
start_send sink m = sending sink.sends sink m

abbrev pub completing : List CompleteReply → Sink → Sink × CompleteReply
completing [] sink = (sink, pending)
completing (r ∷ rs) sink = (record sink { completes = rs }, r)

unfoldable pub poll_complete : Sink → Sink × CompleteReply
poll_complete sink = completing sink.completes sink

pub data Mode1 : Type 0 where
  text_mode binary_mode : Mode1

-- What one poll of the source gives.
pub data SourcePoll : Type 0 where
  message : OwnedMessage → SourcePoll
  ended not_ready failed : SourcePoll

-- `pong_timeout` is a deadline and the interval to the next; `ping_aborter` is whether it is there, and
-- `aborted` whether it has been used. Times of pings are for printing only, and are left out.
pub record WsReadWrapper : Type 0 where
  pub s : List SourcePoll
  pub pingreply : Sink
  pub debt : ReadDebt
  pub pong_timeout : Option (ℕ × ℕ)
  pub ping_aborter : Bool
  pub aborted : Bool
  pub text_prefix : Option Bytes
  pub binary_prefix : Option Bytes
  pub binary_base64 : Bool
  pub text_base64 : Bool
  pub uncompress : CompressionMethod

pub record WsWriteWrapper : Type 0 where
  pub sink : Sink
  pub mode : Mode1
  pub close_on_shutdown : Bool
  pub text_prefix : Option Bytes
  pub binary_prefix : Option Bytes
  pub binary_base64 : Bool
  pub text_base64 : Bool
  pub close_status_code : Option ℕ
  pub close_reason : Option Bytes
  pub compress : CompressionMethod

-- The options that `finish_building_ws_peer` reads.
pub record WsOptions : Type 0 where
  pub websocket_text_mode : Bool
  pub ws_ping_interval : Option ℕ
  pub ws_ping_timeout : Option ℕ
  pub no_exit_on_zeromsg : Bool
  pub compress_deflate : Bool
  pub compress_gzip : Bool
  pub compress_zlib : Bool
  pub uncompress_deflate : Bool
  pub uncompress_gzip : Bool
  pub uncompress_zlib : Bool
  pub read_debt_handling : DebtHandling
  pub ws_text_prefix : Option Bytes
  pub ws_binary_prefix : Option Bytes
  pub ws_binary_base64 : Bool
  pub ws_text_base64 : Bool
  pub close_status_code : Option ℕ
  pub close_reason : Option Bytes

-- The flags for deflate, gzip and zlib, in this order.
unfoldable pub method_of : Bool → Bool → Bool → CompressionMethod
method_of true false false = deflate
method_of false true false = gzip
method_of false false true = zlib
method_of false false false = uncompressed
method_of true true _ = uncompressed
method_of true false true = uncompressed
method_of false true true = uncompressed

abbrev pub zero_messages_of : Bool → ZeroMessagesHandling
zero_messages_of true = ZeroMessagesHandling.drop
zero_messages_of false = ZeroMessagesHandling.deliver

abbrev pub mode_of : Bool → Mode1
mode_of true = text_mode
mode_of false = binary_mode

abbrev pub pong_timeout_of : ℕ → Option ℕ → Option (ℕ × ℕ)
pong_timeout_of now none = none
pong_timeout_of now (some to) = some (now + to, to)

abbrev pub is_given : Option ℕ → Bool
is_given none = false
is_given (some _) = true

-- The two wrappers that `finish_building_ws_peer` makes of a connection, at the moment `now`.
unfoldable pub finish_building_ws_peer :
    WsOptions → ℕ → List SourcePoll → Sink → Bool → WsReadWrapper × WsWriteWrapper
unfolding method_of
finish_building_ws_peer opts now stream sink close_on_shutdown = (
  record {
    s = stream;
    pingreply = sink;
    debt = record {
      debt = none;
      handling = opts.read_debt_handling;
      zero_messages = zero_messages_of opts.no_exit_on_zeromsg;
    };
    pong_timeout = pong_timeout_of now opts.ws_ping_timeout;
    ping_aborter = is_given opts.ws_ping_interval;
    aborted = false;
    text_prefix = opts.ws_text_prefix;
    binary_prefix = opts.ws_binary_prefix;
    binary_base64 = opts.ws_binary_base64;
    text_base64 = opts.ws_text_base64;
    uncompress = method_of opts.uncompress_deflate opts.uncompress_gzip opts.uncompress_zlib;
  },
  record {
    sink = sink;
    mode = mode_of opts.websocket_text_mode;
    close_on_shutdown = close_on_shutdown;
    text_prefix = opts.ws_text_prefix;
    binary_prefix = opts.ws_binary_prefix;
    binary_base64 = opts.ws_binary_base64;
    text_base64 = opts.ws_text_base64;
    close_status_code = opts.close_status_code;
    close_reason = opts.close_reason;
    compress = method_of opts.compress_deflate opts.compress_gzip opts.compress_zlib;
  },
)
