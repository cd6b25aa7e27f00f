-- ===== src/Ws/Pings.antt =====
-- ws_peer.rs: pings are answered.
use websocat.Base.{
  ℕ, ◌≤◌, ◌≡◌, inl, inr, refl, Option, none, some, List, [], ◌∷◌, ◌++◌, append_assoc, subst, arith,
  length, All, Bytes, IoResult, Outcome, returns, panics, Bool-cases,
}
use websocat.ReadDebt.{ReadDebt, Processed, process_message, check_debt}
use websocat.Ws.{
  OwnedMessage, text, binary, close, ping, pong, Foreign, uncompress, SendReply, taken, refused,
  CompleteReply, complete, pending, Sink, start_send, sending, poll_complete, SourcePoll, message,
  ended, not_ready, failed, WsReadWrapper,
}
use websocat.Ws.Channel.{result-cases}
use websocat.Ws.Reading.{
  WsRead, abort_and_broken_pipe, wait, timed_out, deadline_poll, bad_timestamp, pong_completed,
  ponged, processed, incoming, receive_message, read_loop, after_debt, ws_read,
  process_prefixes_and_base64,
}

-- The pongs that answer the pings of a source.
abbrev pub pongs : List SourcePoll → List OwnedMessage
pongs [] = []
pongs (message (ping x) ∷ ps) = pong x ∷ pongs ps
pongs (message (pong x) ∷ ps) = pongs ps
pongs (message (text x) ∷ ps) = pongs ps
pongs (message (binary x) ∷ ps) = pongs ps
pongs (message (close x) ∷ ps) = pongs ps
pongs (ended ∷ ps) = pongs ps
pongs (not_ready ∷ ps) = pongs ps
pongs (failed ∷ ps) = pongs ps

-- What is sent and what is still to answer, if the read returns.
abbrev pub Answers : List OwnedMessage → Outcome WsRead → Type 0
Answers all panics = Unit
Answers all (returns a) = a.after.pingreply.sent ++ pongs a.after.s ≡ all

abort-Answers :
    (w : WsReadWrapper) (buf : Bytes)
    → Answers (w.pingreply.sent ++ pongs w.s) (abort_and_broken_pipe w buf)
abort-Answers w buf = elim (Bool-cases w.ping_aborter) [
  | inl there ↦ rw there refl
  | inr gone ↦ rw gone refl
]

wait-Answers :
    (o : Foreign) (now : ℕ) (w : WsReadWrapper) (buf : Bytes)
    → Answers (w.pingreply.sent ++ pongs w.s) (wait o now w buf)
wait-Answers o now w buf = elim (Bool-cases (timed_out (deadline_poll o now w.pong_timeout))) [
  | inl late ↦ rw late (abort-Answers w buf)
  | inr early ↦ rw early refl
]

processed-Answers :
    (again : WsReadWrapper → Bytes → Outcome WsRead) (w : WsReadWrapper) (p : Outcome Processed)
    → ((debt : ReadDebt) (b : Bytes)
        → Answers (w.pingreply.sent ++ pongs w.s) (again (record w { debt = debt }) b))
    → Answers (w.pingreply.sent ++ pongs w.s) (processed again w p)
processed-Answers again w panics h = tt
processed-Answers again w (returns p) h = elim (result-cases p.result) [
  | inl (x, r) ↦ rw r refl
  | inr r ↦ rw r (h p.after p.buf)
]

incoming-Answers :
    (again : WsReadWrapper → Bytes → Outcome WsRead) (w : WsReadWrapper) (buf : Bytes)
    (q : Outcome Bytes)
    → ((debt : ReadDebt) (b : Bytes)
        → Answers (w.pingreply.sent ++ pongs w.s) (again (record w { debt = debt }) b))
    → Answers (w.pingreply.sent ++ pongs w.s) (incoming again w buf q)
incoming-Answers again w buf panics h = tt
incoming-Answers again w buf (returns q) h =
    processed-Answers again w (process_message w.debt buf q) h

-- The sink takes what is sent, for as many messages as the source gives.
abbrev pub Takes : List SourcePoll → List SendReply → Type 0
Takes ps rs = All (λ r. r ≡ taken) rs × (length ps ≤ length rs)

pong_completed-Answers :
    (again : WsReadWrapper → Bytes → Outcome WsRead) (w : WsReadWrapper) (buf : Bytes)
    (cs : List CompleteReply)
    → ((cs' : List CompleteReply)
        → Answers
            (w.pingreply.sent ++ pongs w.s)
            (again (record w { pingreply = record w.pingreply { completes = cs' } }) buf))
    → Answers
        (w.pingreply.sent ++ pongs w.s)
        (pong_completed again w buf (poll_complete (record w.pingreply { completes = cs })))
unfolding poll_complete
pong_completed-Answers again w buf [] h = h []
pong_completed-Answers again w buf (complete ∷ cs) h = h cs
pong_completed-Answers again w buf (pending ∷ cs) h = h cs
pong_completed-Answers again w buf (CompleteReply.broken ∷ cs) h = refl

ping-Answers :
    (again : WsReadWrapper → Bytes → Outcome WsRead) (w : WsReadWrapper) (buf x : Bytes)
    (sends rs : List SendReply)
    → sends ≡ taken ∷ rs
    → ((sink : Sink)
        → sink.sends ≡ rs
        → sink.sent ≡ w.pingreply.sent ++ pong x ∷ []
        → Answers
            ((w.pingreply.sent ++ pong x ∷ []) ++ pongs w.s)
            (again (record w { pingreply = sink }) buf))
    → Answers
        (w.pingreply.sent ++ pong x ∷ pongs w.s)
        (ponged again w buf (sending sends w.pingreply (pong x)))
ping-Answers again w buf x sends rs e h =
    rw (e, ← append_assoc w.pingreply.sent (pong x ∷ []) (pongs w.s))
      (pong_completed-Answers again
        (record w {
          pingreply = record w.pingreply { sends = rs; sent = w.pingreply.sent ++ pong x ∷ [] };
        })
        buf w.pingreply.completes
        (λ cs'.
          h (record { sends = rs; completes = cs'; sent = w.pingreply.sent ++ pong x ∷ [] }) refl
            refl))

module _ (o : Foreign) (now : ℕ) where
  read_loop-Answers :
      (ps : List SourcePoll) (rs : List SendReply) (w : WsReadWrapper) (buf : Bytes)
      → w.pingreply.sends ≡ rs
      → Takes ps rs
      → Answers (w.pingreply.sent ++ pongs ps) (read_loop o now ps w buf)
  unfolding read_loop receive_message start_send
  read_loop-Answers [] rs w buf e takes = wait-Answers o now (record w { s = [] }) buf
  read_loop-Answers (ended ∷ ps) rs w buf e takes = abort-Answers (record w { s = ps }) buf
  read_loop-Answers (not_ready ∷ ps) rs w buf e takes = wait-Answers o now (record w { s = ps }) buf
  read_loop-Answers (failed ∷ ps) rs w buf e takes = refl
  read_loop-Answers (message (close x) ∷ ps) rs w buf e takes =
      abort-Answers (record w { s = ps }) buf
  read_loop-Answers (message (text x) ∷ ps) rs w buf e takes =
      incoming-Answers (read_loop o now ps) (record w { s = ps }) buf
        (process_prefixes_and_base64 o w.text_prefix w.text_base64 x)
        (λ debt b.
          read_loop-Answers ps rs (record w { s = ps; debt = debt }) b e (takes.0, omega arith))
  read_loop-Answers (message (binary x) ∷ ps) rs w buf e takes =
      incoming-Answers (read_loop o now ps) (record w { s = ps }) buf
        (process_prefixes_and_base64 o w.binary_prefix w.binary_base64
          (uncompress o w.uncompress x))
        (λ debt b.
          read_loop-Answers ps rs (record w { s = ps; debt = debt }) b e (takes.0, omega arith))
  read_loop-Answers (message (pong x) ∷ ps) rs w buf e takes = elim (Bool-cases (bad_timestamp x)) [
    | inl bad ↦ rw bad tt
    | inr good ↦ rw good (read_loop-Answers ps rs _ buf e (takes.0, omega arith))
  ]
  read_loop-Answers (message (ping x) ∷ ps) [] w buf e takes = absurd (omega arith)
  read_loop-Answers (message (ping x) ∷ ps) (refused ∷ rs) w buf e takes = cc
  read_loop-Answers (message (ping x) ∷ ps) (SendReply.broken ∷ rs) w buf e takes = cc
  read_loop-Answers (message (ping x) ∷ ps) (taken ∷ rs) w buf e takes =
      ping-Answers (read_loop o now ps) (record w { s = ps }) buf x w.pingreply.sends rs e
        (λ sink same sent.
          subst
            (λ z.
              Answers (z ++ pongs ps)
                (read_loop o now ps (record w { s = ps; pingreply = sink }) buf))
            sent
            (read_loop-Answers ps rs (record w { s = ps; pingreply = sink }) buf same
              (takes.0.1, omega arith)))

  after_debt-Answers :
      (w : WsReadWrapper) (buf : Bytes) (paid : Outcome (Option (ReadDebt × Bytes × IoResult ℕ)))
      → Takes w.s w.pingreply.sends
      → Answers (w.pingreply.sent ++ pongs w.s) (after_debt o now w buf paid)
  unfolding read_loop
  after_debt-Answers w buf panics takes = tt
  after_debt-Answers w buf (returns none) takes =
      read_loop-Answers w.s w.pingreply.sends w buf refl takes
  after_debt-Answers w buf (returns (some (debt, paid, ret))) takes = refl

  -- Pings are answered in their order, each by one pong with the same payload, and no other message is
  -- sent, whatever a read that returns makes of the rest of the source: what has been sent, followed by the
  -- pongs for the pings still to come, is what it was before the read, if the sink takes what is sent.
  pub ws_read-Answers :
      (w : WsReadWrapper) (buf : Bytes)
      → Takes w.s w.pingreply.sends
      → Answers (w.pingreply.sent ++ pongs w.s) (ws_read o now w buf)
  unfolding ws_read
  ws_read-Answers w buf takes = after_debt-Answers w buf (check_debt w.debt buf) takes
