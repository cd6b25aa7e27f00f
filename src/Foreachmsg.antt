-- ===== src/Foreachmsg.antt =====
-- foreachmsg_peer.rs: `foreachmsg:` gives each message a peer of its own. The peers, the futures that
-- give them and what they answer are scripts.
pub mod Stages
pub mod Phases
pub mod Messages
pub mod Waiting
mod Tests
use websocat.Base.{
  ℕ, suc, zero, ◌+◌, Bool, true, false, Option, none, some, List, [], ◌∷◌, ◌++◌, ◌==◌, min, length,
  take, drop, Bytes, IoResult, ok, err, ErrorKind, would_block, broken_pipe, write_zero, other,
  Outcome, returns, panics, if◌then◌else◌,
}
use websocat.Reconnect.{FuturePoll, connected, connecting, refused}

pub data ShutdownPoll : Type 0 where
  shut shutting : ShutdownPoll
  shut_failed : ErrorKind → ShutdownPoll

-- A peer of one message: what its next reads, writes, flushes and shutdowns give, and what it has seen.
pub record SubPeer : Type 0 where
  pub reads : List (IoResult Bytes)
  pub writes : List (IoResult ℕ)
  pub flushes : List (IoResult (Unit {0}))
  pub shutdowns : List ShutdownPoll
  pub written : Bytes
  pub is_flushed : Bool
  pub is_shut : Bool

pub data Phase : Type 0 where
  idle flushing closing waiting_for_read_to_finish : Phase
  write_debt : Bytes → Phase

-- Both ends of a oneshot channel: not there, with nothing sent, and with the sender gone after sending.
pub data Oneshot : Type 0 where
  absent waiting sent : Oneshot

-- `dropped` are the peers that writes have let go of, in order.
pub record State : Type 0 where
  pub p : Option SubPeer
  pub n : Option (List (FuturePoll SubPeer))
  pub supply : List (List (FuturePoll SubPeer))
  pub already_warned : Bool
  pub ph : Phase
  pub finished_reading : Bool
  pub read_waiter : Oneshot
  pub wait_for_new_peer : Oneshot
  pub need_wait_for_reading : Bool
  pub dropped : List SubPeer

-- `foreachmsg_peer`
unfoldable pub foreachmsg_peer : Bool → List (List (FuturePoll SubPeer)) → State
foreachmsg_peer need_wait_for_reading supply = record {
  p = none;
  n = none;
  supply = supply;
  already_warned = false;
  ph = idle;
  finished_reading = false;
  read_waiter = absent;
  wait_for_new_peer = absent;
  need_wait_for_reading = need_wait_for_reading;
  dropped = [];
}

-- `if let Some(tx) = ....take() { let _ = tx.send(()); }`
abbrev pub send : Oneshot → Oneshot
send waiting = sent
send absent = absent
send sent = sent

pub data Polled : Type 0 where
  is_ready : State → SubPeer → Polled
  is_not_ready : State → Polled

-- The future under way; behind a peer that is made, the loop goes round once and returns it.
abbrev pub poll_future : (State → Polled) → List (FuturePoll SubPeer) → State → Polled
poll_future construct [] s = is_not_ready (record s { n = some [] })
poll_future construct (connecting ∷ fs) s = is_not_ready (record s { n = some fs })
poll_future construct (connected x ∷ fs) s =
    is_ready (record s { p = some x; n = none; wait_for_new_peer = send s.wait_for_new_peer }) x
poll_future construct (refused ∷ fs) s = construct (record s { n = none; already_warned = true })

-- The end of the loop's body, and the next round; a future that is not known is connecting.
unfoldable pub construct : List (List (FuturePoll SubPeer)) → State → Polled
construct [] s = is_not_ready (record s {
  n = some [];
  supply = [];
  ph = idle;
  finished_reading = false;
  read_waiter = absent;
})
construct (f ∷ fs) s = poll_future (construct fs) f (record s {
  n = some f;
  supply = fs;
  ph = idle;
  finished_reading = false;
  read_waiter = absent;
})

abbrev pub poll_next : Option (List (FuturePoll SubPeer)) → State → Polled
unfolding construct
poll_next none s = construct s.supply s
poll_next (some f) s = poll_future (construct s.supply) f s

abbrev pub poll_peer : Option SubPeer → State → Polled
unfolding construct
poll_peer (some x) s = is_ready s x
poll_peer none s = poll_next s.n s

-- `State::poll`
unfoldable pub poll_state : State → Polled
unfolding construct
poll_state s = poll_peer s.p s

-- What a call leaves: the state, the caller's buffer and the result.
pub record Called : Type 0 where
  pub after : State
  pub buf : Bytes
  pub result : IoResult ℕ

-- The reader has finished with the peer: it waits for a new one, and the write that waits is told.
abbrev pub loop_around : State → State
loop_around s = record s {
  finished_reading = true;
  wait_for_new_peer = waiting;
  read_waiter = send s.read_waiter;
}

-- The end of a peer, or an error of it. The next round finds nothing sent to the reader, and would block.
abbrev pub finish_reading : IoResult ℕ → State → Bytes → Called
finish_reading r s b =
    if s.need_wait_for_reading
    then record { after = loop_around s; buf = b; result = err would_block }
    else record { after = record s { finished_reading = true }; buf = b; result = r }

abbrev pub read_peer : List (IoResult Bytes) → SubPeer → State → Bytes → Called
read_peer [] x s b = record { after = s; buf = b; result = err would_block }
read_peer (err would_block ∷ rs) x s b = record {
  after = record s { p = some (record x { reads = rs }) };
  buf = b;
  result = err would_block;
}
read_peer (err e ∷ rs) x s b =
    finish_reading (err e) (record s { p = some (record x { reads = rs }) }) b
read_peer (ok [] ∷ rs) x s b =
    finish_reading (ok 0) (record s { p = some (record x { reads = rs }) }) b
read_peer (ok (c ∷ cs) ∷ rs) x s b = record {
  after = record s { p = some (record x { reads = rs }) };
  buf = take (length b) (c ∷ cs) ++ drop (length (c ∷ cs)) b;
  result = ok (min (length b) (length (c ∷ cs)));
}

abbrev pub read_polled : Bytes → Polled → Called
read_polled b (is_not_ready s) = record { after = s; buf = b; result = err would_block }
read_polled b (is_ready s x) = read_peer x.reads x s b

abbrev pub read_waiting : Oneshot → State → Bytes → Called
unfolding poll_state
read_waiting waiting s b = record { after = s; buf = b; result = err would_block }
read_waiting sent s b = read_polled b (poll_state (record s { wait_for_new_peer = absent }))
read_waiting absent s b = read_polled b (poll_state s)

-- `impl Read for PeerHandle`
unfoldable pub foreachmsg_read : State → Bytes → Called
unfolding poll_state
foreachmsg_read s b = read_waiting s.wait_for_new_peer s b

-- What a write leaves: the state and the result.
pub record Written : Type 0 where
  pub after : State
  pub result : IoResult ℕ

abbrev pub write_fails : State → ErrorKind → Outcome Written
write_fails s e = returns (record { after = s; result = err e })

-- `finished`: the peer is let go.
abbrev pub write_finished : State → SubPeer → ℕ → Outcome Written
write_finished s x l = returns (record {
  after = record s { p = none; ph = idle; dropped = s.dropped ++ x ∷ [] };
  result = ok l;
})

-- `Phase::WaitingForReadToFinish`, with the `unwrap` of the waiter.
abbrev pub wait_for_read : Oneshot → State → SubPeer → ℕ → Outcome Written
wait_for_read absent s x l = panics
wait_for_read waiting s x l = write_fails (record s { ph = waiting_for_read_to_finish }) would_block
wait_for_read sent s x l = write_finished s x l

-- Behind the shutdown. A waiter that is new has nothing sent.
abbrev pub when_shut : State → SubPeer → ℕ → Outcome Written
when_shut s x l =
    if s.need_wait_for_reading
    then if s.finished_reading
      then write_finished s x l
      else wait_for_read waiting (record s { read_waiter = waiting }) x l
    else write_finished s x l

-- The phases, each of which goes on with the next one; the peer is there, and stays.
unfoldable pub close_phase : List ShutdownPoll → State → SubPeer → ℕ → Outcome Written
close_phase [] s x l = write_fails (record s { p = some x; ph = closing }) would_block
close_phase (shutting ∷ rs) s x l =
    write_fails (record s { p = some (record x { shutdowns = rs }); ph = closing }) would_block
close_phase (shut_failed e ∷ rs) s x l =
    write_fails (record s { p = some (record x { shutdowns = rs }); ph = closing }) e
close_phase (shut ∷ rs) s x l =
    when_shut (record s { p = some (record x { shutdowns = rs; is_shut = true }) })
      (record x { shutdowns = rs; is_shut = true }) l

unfoldable pub flush_phase : List (IoResult (Unit {0})) → State → SubPeer → ℕ → Outcome Written
unfolding close_phase
flush_phase [] s x l = write_fails (record s { p = some x; ph = flushing }) would_block
flush_phase (err e ∷ rs) s x l =
    write_fails (record s { p = some (record x { flushes = rs }); ph = flushing }) e
flush_phase (ok u ∷ rs) s x l =
    close_phase x.shutdowns s (record x { flushes = rs; is_flushed = true }) l

-- A write of `d`, in the phase `now`; the rest of a partial write is the debt.
unfoldable pub writing_phase :
    List (IoResult ℕ) → Phase → State → SubPeer → Bytes → ℕ → Outcome Written
unfolding flush_phase
writing_phase [] now s x d l = write_fails (record s { p = some x; ph = now }) would_block
writing_phase (err e ∷ rs) now s x d l =
    write_fails (record s { p = some (record x { writes = rs }); ph = now }) e
writing_phase (ok n ∷ rs) now s x d l = elim (min n (length d)) [
  | zero ↦
      returns (record {
        after = record s { p = some (record x { writes = rs }); ph = now };
        result = ok 0;
      })
  | suc m ↦
      let x' = record x { writes = rs; written = x.written ++ take (suc m) d } in
      let rest = writing_phase rs (write_debt (drop (suc m) d)) s x' (drop (suc m) d) l in
      if suc m == length d then flush_phase x.flushes s x' l else rest
]

abbrev pub by_phase : Phase → State → SubPeer → Bytes → Outcome Written
unfolding writing_phase flush_phase close_phase
by_phase idle s x b = writing_phase x.writes idle s x b (length b)
by_phase (write_debt d) s x b = writing_phase x.writes (write_debt d) s x d (length b)
by_phase flushing s x b = flush_phase x.flushes s x (length b)
by_phase closing s x b = close_phase x.shutdowns s x (length b)
by_phase waiting_for_read_to_finish s x b = wait_for_read s.read_waiter s x (length b)

abbrev pub write_polled : Phase → Bytes → Polled → Outcome Written
unfolding writing_phase flush_phase close_phase
write_polled ph b (is_not_ready s) = write_fails s would_block
write_polled ph b (is_ready s x) = by_phase ph s x b

-- `impl Write for PeerHandle`; the phase is that before the poll. A flush and a shutdown do nothing.
unfoldable pub foreachmsg_write : State → Bytes → Outcome Written
unfolding poll_state writing_phase flush_phase close_phase
foreachmsg_write s b = write_polled s.ph b (poll_state s)

-- `State::reconnect`, which no call makes now.
unfoldable pub reconnect_peer : State → State
reconnect_peer s = record s { p = none; ph = idle; finished_reading = false; read_waiter = absent }
