-- ===== src/Ws/Channel.antt =====
-- ws_peer.rs and mirror_peer.rs: a WebSocket reader is a reader of a channel of its data messages.
use websocat.Base.{
  ◌*◌, ◌/◌, ℕ, ◌+◌, ◌≤◌, ◌≡◌, ◌≢◌, ◌⊎◌, inl, inr, refl, Bool, false, Option, none, some, List, [],
  ◌∷◌, length, All, Bytes, IoResult, Outcome, returns, panics, Outcome-cases, Bool-cases, err,
  broken_pipe,
}
use websocat.ReadDebt.{ReadDebt, ProcessMessageResult, return, recurse, process_message, check_debt}
use websocat.Mirror.{ChannelPoll, item, closed, Read, poll_loop, read_with, MirrorRead}
use websocat.Mirror
use websocat.Ws.{
  OwnedMessage, text, binary, close, ping, pong, CompressionMethod, Foreign, uncompress, SendReply,
  taken, refused, CompleteReply, complete, pending, Sink, start_send, poll_complete, SourcePoll,
  message, ended, not_ready, failed, WsReadWrapper,
}
use websocat.Ws.Reading.{
  WsRead, abort_and_broken_pipe, bad_timestamp, pong_completed, ponged, incoming, receive_message,
  read_loop, after_debt, ws_read,
}
use websocat.Ws.Encoded.{line, process_prefixes_and_base64-line}

-- What a reader's options make of data messages; it stays as it is.
pub record Format : Type 0 where
  pub text_prefix : Option Bytes
  pub text_base64 : Bool
  pub binary_prefix : Option Bytes
  pub binary_base64 : Bool
  pub method : CompressionMethod

abbrev pub format : WsReadWrapper → Format
format w = record {
  text_prefix = w.text_prefix;
  text_base64 = w.text_base64;
  binary_prefix = w.binary_prefix;
  binary_base64 = w.binary_base64;
  method = w.uncompress;
}

-- The channel behind the source: data messages as lines, pings and pongs left out.
abbrev pub channel : Foreign → Format → List SourcePoll → List (ChannelPoll Bytes)
channel o f [] = []
channel o f (message (text x) ∷ ps) = item (line o f.text_prefix f.text_base64 x) ∷ channel o f ps
channel o f (message (binary x) ∷ ps) =
    item (line o f.binary_prefix f.binary_base64 (uncompress o f.method x)) ∷ channel o f ps
channel o f (message (close x) ∷ ps) = closed ∷ channel o f ps
channel o f (message (ping x) ∷ ps) = channel o f ps
channel o f (message (pong x) ∷ ps) = channel o f ps
channel o f (ended ∷ ps) = closed ∷ channel o f ps
channel o f (not_ready ∷ ps) = Mirror.not_ready ∷ channel o f ps
channel o f (failed ∷ ps) = Mirror.failed ∷ channel o f ps

-- The source does not fail, and the time stamps of pongs do not overflow.
abbrev pub IsSteady : SourcePoll → Type 0
IsSteady failed = ⊥
IsSteady (message (pong b)) = bad_timestamp b ≡ false
IsSteady _ = Unit

-- The sink does not fail.
pub record IsCalm (sink : Sink) : Type 0 where
  pub sends : All (λ r. r ≢ SendReply.broken) sink.sends
  pub completes : All (λ r. r ≢ CompleteReply.broken) sink.completes

-- Both reads panic, or they leave the same buffer, debt and result, and the one's source is the other's
-- channel.
abbrev pub SameRead : Foreign → Format → Outcome WsRead → Outcome (Read Bytes) → Type 0
SameRead o f panics panics = Unit
SameRead o f (returns a) (returns r) =
    (a.buf ≡ r.buf)
    × (a.result ≡ r.result)
    × (a.after.debt ≡ r.after.debt)
    × (channel o f a.after.s ≡ r.after.ch)
SameRead o f panics (returns r) = ⊥
SameRead o f (returns a) panics = ⊥

pub result-cases : (r : ProcessMessageResult) → ((x : IoResult ℕ) × (r ≡ return x)) ⊎ (r ≡ recurse)
result-cases (return x) = inl (x, refl)
result-cases recurse = inr refl

send-IsCalm :
    (rs : List SendReply) (cs : List CompleteReply) (sent : List OwnedMessage) (m : OwnedMessage)
    → All (λ r. r ≢ SendReply.broken) rs
    → All (λ r. r ≢ CompleteReply.broken) cs
    → IsCalm (start_send (record { sends = rs; completes = cs; sent = sent }) m).0
      × ((start_send (record { sends = rs; completes = cs; sent = sent }) m).1 ≢ SendReply.broken)
unfolding start_send
send-IsCalm [] cs sent m safe ok = (record { sends = safe; completes = ok }, λ e. cc)
send-IsCalm (taken ∷ rs) cs sent m safe ok = (record { sends = safe.1; completes = ok }, λ e. cc)
send-IsCalm (refused ∷ rs) cs sent m safe ok = (record { sends = safe.1; completes = ok }, λ e. cc)
send-IsCalm (SendReply.broken ∷ rs) cs sent m safe ok = absurd (safe.0 refl)

complete-IsCalm :
    (rs : List SendReply) (cs : List CompleteReply) (sent : List OwnedMessage)
    → All (λ r. r ≢ SendReply.broken) rs
    → All (λ r. r ≢ CompleteReply.broken) cs
    → IsCalm (poll_complete (record { sends = rs; completes = cs; sent = sent })).0
      × ((poll_complete (record { sends = rs; completes = cs; sent = sent })).1
          ≢ CompleteReply.broken)
unfolding poll_complete
complete-IsCalm rs [] sent safe ok = (record { sends = safe; completes = ok }, λ e. cc)
complete-IsCalm rs (c ∷ cs) sent safe ok = (record { sends = safe; completes = ok.1 }, ok.0)

module _ (o : Foreign) (now : ℕ) (f : Format) where
  pong_completed-SameRead :
      (again : WsReadWrapper → Bytes → Outcome WsRead) (w : WsReadWrapper) (buf : Bytes)
      (p : Sink × CompleteReply) (other : Outcome (Read Bytes))
      → IsCalm p.0
      → p.1 ≢ CompleteReply.broken
      → ((sink : Sink)
          → IsCalm sink
          → SameRead o f (again (record w { pingreply = sink }) buf) other)
      → SameRead o f (pong_completed again w buf p) other
  pong_completed-SameRead again w buf (sink, complete) other calm safe same = same sink calm
  pong_completed-SameRead again w buf (sink, pending) other calm safe same = same sink calm
  pong_completed-SameRead again w buf (sink, CompleteReply.broken) other calm safe same =
      absurd (safe refl)

  ponged-SameRead :
      (again : WsReadWrapper → Bytes → Outcome WsRead) (w : WsReadWrapper) (buf : Bytes)
      (p : Sink × SendReply) (other : Outcome (Read Bytes))
      → IsCalm p.0
      → p.1 ≢ SendReply.broken
      → ((sink : Sink)
          → IsCalm sink
          → SameRead o f (again (record w { pingreply = sink }) buf) other)
      → SameRead o f (ponged again w buf p) other
  ponged-SameRead again w buf (sink, taken) other calm safe same =
      let (calm', safe') =
        complete-IsCalm sink.sends sink.completes sink.sent calm.sends calm.completes in
      pong_completed-SameRead again w buf (poll_complete sink) other calm' safe' same
  ponged-SameRead again w buf (sink, refused) other calm safe same = same sink calm
  ponged-SameRead again w buf (sink, SendReply.broken) other calm safe same = absurd (safe refl)

  -- One data message.
  incoming-SameRead :
      (again : WsReadWrapper → Bytes → Outcome WsRead) (w : WsReadWrapper) (buf q : Bytes)
      (ch : List (ChannelPoll Bytes))
      → channel o f w.s ≡ ch
      → ((debt : ReadDebt) (b : Bytes)
          → SameRead o f (again (record w { debt = debt }) b) (poll_loop (λ m. m) ch debt b))
      → SameRead o f
          (incoming again w buf (returns q))
          (poll_loop (λ m. m) (item q ∷ ch) w.debt buf)
  unfolding poll_loop
  incoming-SameRead again w buf q ch rest same =
      elim (Outcome-cases (process_message w.debt buf q)) [
        | inl e ↦ rw (e, poll_loop) tt
        | inr (p, e) ↦ elim (result-cases p.result) [
          | inl (x, r) ↦ rw (e, poll_loop, r) (refl, refl, refl, rest)
          | inr r ↦ rw (e, poll_loop, r) (same p.after p.buf)
        ]
      ]

abort-SameRead :
    (o : Foreign) (w : WsReadWrapper) (buf : Bytes)
    → SameRead o (format w) (abort_and_broken_pipe w buf) (
        returns (record {
          after = record { debt = w.debt; ch = channel o (format w) w.s };
          buf = buf;
          result = err broken_pipe;
        }))
abort-SameRead o w buf = elim (Bool-cases w.ping_aborter) [
  | inl there ↦ rw there (refl, refl, refl, refl)
  | inr gone ↦ rw gone (refl, refl, refl, refl)
]

module _ (o : Foreign) (now : ℕ)
    (fits : (q : Bytes) → length (o.base64_encode q) ≤ length q * 3 / 2 + 3) where
  read_loop-SameRead :
      (ps : List SourcePoll) (w : WsReadWrapper) (buf : Bytes)
      → All IsSteady ps
      → IsCalm w.pingreply
      → w.pong_timeout ≡ none
      → SameRead o
          (format w)
          (read_loop o now ps w buf)
          (poll_loop (λ m. m) (channel o (format w) ps) w.debt buf)
  unfolding read_loop receive_message poll_loop
  read_loop-SameRead [] w buf steady calm never = rw never (refl, refl, refl, refl)
  read_loop-SameRead (ended ∷ ps) w buf steady calm never =
      abort-SameRead o (record w { s = ps }) buf
  read_loop-SameRead (not_ready ∷ ps) w buf steady calm never = rw never (refl, refl, refl, refl)
  read_loop-SameRead (failed ∷ ps) w buf steady calm never = absurd steady.0
  read_loop-SameRead (message (close x) ∷ ps) w buf steady calm never =
      abort-SameRead o (record w { s = ps }) buf
  read_loop-SameRead (message (ping x) ∷ ps) w buf steady calm never =
      let (calm', safe) =
        send-IsCalm w.pingreply.sends w.pingreply.completes w.pingreply.sent (pong x) calm.sends
          calm.completes in
      ponged-SameRead o now (format w) (read_loop o now ps) (record w { s = ps }) buf _ _ calm' safe
        (λ sink c.
          read_loop-SameRead ps (record w { s = ps; pingreply = sink }) buf steady.1 c never)
  read_loop-SameRead (message (pong x) ∷ ps) w buf steady calm never =
      rw (steady.0, never)
        (read_loop-SameRead ps (record w { s = ps; pong_timeout = none }) buf steady.1 calm refl)
  read_loop-SameRead (message (text x) ∷ ps) w buf steady calm never =
      rw (process_prefixes_and_base64-line o w.text_prefix w.text_base64 x (fits x)) (
        incoming-SameRead o now (format w) (read_loop o now ps) (record w { s = ps }) buf _
          (channel o (format w) ps) refl
          (λ debt b.
            read_loop-SameRead ps (record w { s = ps; debt = debt }) b steady.1 calm never))
  read_loop-SameRead (message (binary x) ∷ ps) w buf steady calm never =
      rw
        (process_prefixes_and_base64-line o w.binary_prefix w.binary_base64
          (uncompress o w.uncompress x) (fits (uncompress o w.uncompress x)))
        (incoming-SameRead o now (format w) (read_loop o now ps) (record w { s = ps }) buf _
          (channel o (format w) ps) refl
          (λ debt b.
            read_loop-SameRead ps (record w { s = ps; debt = debt }) b steady.1 calm never))

  after_debt-SameRead :
      (w : WsReadWrapper) (buf : Bytes) (paid : Outcome (Option (ReadDebt × Bytes × IoResult ℕ)))
      → paid ≡ check_debt w.debt buf
      → All IsSteady w.s
      → IsCalm w.pingreply
      → w.pong_timeout ≡ none
      → SameRead o
          (format w)
          (after_debt o now w buf paid)
          (read_with (λ m. m) (record { debt = w.debt; ch = channel o (format w) w.s }) buf)
  unfolding read_with read_loop
  after_debt-SameRead w buf panics e steady calm never = rw (← e, read_with) tt
  after_debt-SameRead w buf (returns none) e steady calm never =
      rw (← e, read_with) (read_loop-SameRead w.s w buf steady calm never)
  after_debt-SameRead w buf (returns (some (debt, paid, ret))) e steady calm never =
      rw (← e, read_with) (refl, refl, refl, refl)

  -- A WebSocket reader without a ping timeout refines the reader of a channel that `mirror:` has, over
  -- the channel of the data messages as lines: each read panics, or leaves the buffer, the debt, the
  -- result and the rest of the channel, as that of the channel does, while the source and the sink do
  -- not fail, whatever pings come between, and pongs whose time stamps do not overflow; encodings fit the
  -- slices made for them.
  pub ws_read-SameRead :
      (w : WsReadWrapper) (buf : Bytes)
      → All IsSteady w.s
      → IsCalm w.pingreply
      → w.pong_timeout ≡ none
      → SameRead o
          (format w)
          (ws_read o now w buf)
          (read_with (λ m. m) (record { debt = w.debt; ch = channel o (format w) w.s }) buf)
  unfolding ws_read
  ws_read-SameRead w buf steady calm never =
      after_debt-SameRead w buf (check_debt w.debt buf) refl steady calm never
