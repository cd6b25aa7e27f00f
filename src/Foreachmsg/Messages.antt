-- ===== src/Foreachmsg/Messages.antt =====
-- foreachmsg_peer.rs: each message goes to a peer of its own.
use websocat.Base.{◌≡◌, refl, true, Option, none, some, List, [], ◌∷◌, All, Bytes, err, would_block}
use websocat.Reconnect.{FuturePoll, connected, connecting, refused}
use websocat.Foreachmsg.{
  SubPeer, Phase, idle, flushing, closing, waiting_for_read_to_finish, write_debt, State, Polled,
  is_ready, is_not_ready, poll_future, construct, poll_next, poll_peer, poll_state, close_phase,
  flush_phase, writing_phase, write_polled, foreachmsg_write,
}
use websocat.Foreachmsg.Stages.{FreshPoll, FreshFuture, FreshSupply, Stage, IsSending, Wrote, again}
use websocat.Foreachmsg.Phases.{by_phase-Wrote}

module _ (b : Bytes) (gone : List SubPeer) where
  -- A poll of a state with no peer keeps to `idle`; a peer that it makes is fresh.
  abbrev Supplied : Polled → Type 0
  Supplied (is_not_ready t) = IsSending b t × (t.dropped ≡ gone)
  Supplied (is_ready t x) =
      (t.dropped ≡ gone)
      × (t.p ≡ some x)
      × FreshFuture t.n
      × FreshSupply t.supply
      × (x.written ≡ [])

  poll_future-Supplied :
      (k : State → Polled) (f : List (FuturePoll SubPeer)) (s : State)
      → s.dropped ≡ gone
      → s.ph ≡ idle
      → s.p ≡ none
      → All FreshPoll f
      → FreshSupply s.supply
      → ((t : State)
          → t.dropped ≡ gone
          → t.ph ≡ idle
          → t.p ≡ none
          → t.supply ≡ s.supply
          → Supplied (k t))
      → Supplied (poll_future k f s)
  poll_future-Supplied k [] s same at_rest empty fresh to_come h =
      (record { stage = rw (at_rest, empty) tt; future = tt; to_come = to_come }, same)
  poll_future-Supplied k (connecting ∷ f) s same at_rest empty fresh to_come h =
      (record { stage = rw (at_rest, empty) tt; future = fresh.1; to_come = to_come }, same)
  poll_future-Supplied k (connected x ∷ f) s same at_rest empty fresh to_come h =
      (same, refl, tt, to_come, fresh.0)
  poll_future-Supplied k (refused ∷ f) s same at_rest empty fresh to_come h =
      h (record s { n = none; already_warned = true }) same at_rest empty refl

  construct-Supplied :
      (l : List (List (FuturePoll SubPeer))) (s : State)
      → s.dropped ≡ gone
      → s.p ≡ none
      → FreshSupply l
      → Supplied (construct l s)
  unfolding construct
  construct-Supplied [] s same empty fresh =
      (record { stage = rw empty tt; future = tt; to_come = tt }, same)
  construct-Supplied (f ∷ l) s same empty fresh =
      poll_future-Supplied (construct l) f _ same refl empty fresh.0 fresh.1
        (λ t same' at_rest empty' e. construct-Supplied l t same' empty' fresh.1)

  poll_next-Supplied :
      (n : Option (List (FuturePoll SubPeer))) (s : State)
      → s.dropped ≡ gone
      → s.ph ≡ idle
      → s.p ≡ none
      → FreshFuture n
      → FreshSupply s.supply
      → Supplied (poll_next n s)
  unfolding construct
  poll_next-Supplied none s same at_rest empty fresh to_come =
      construct-Supplied s.supply s same empty to_come
  poll_next-Supplied (some f) s same at_rest empty fresh to_come =
      poll_future-Supplied (construct s.supply) f s same at_rest empty fresh to_come
        (λ t same' at_rest' empty' e. construct-Supplied s.supply t same' empty' to_come)

  supplied-Wrote : (r : Polled) → Supplied r → Wrote b gone (write_polled idle b r)
  unfolding writing_phase flush_phase close_phase
  supplied-Wrote (is_not_ready t) h = again t (err would_block) h.0 h.1 tt
  supplied-Wrote (is_ready t x) h = by_phase-Wrote b gone idle t x h.0 h.1 h.2 h.3 h.4

  written-Wrote :
      (ph : Phase) (p : Option SubPeer) (s : State)
      → s.ph ≡ ph
      → s.p ≡ p
      → s.dropped ≡ gone
      → FreshFuture s.n
      → FreshSupply s.supply
      → Stage b ph p s.read_waiter
      → Wrote b gone (write_polled ph b (poll_peer p s))
  unfolding construct writing_phase flush_phase close_phase
  written-Wrote ph (some x) s e held same future to_come stage =
      by_phase-Wrote b gone ph s x same held future to_come stage
  written-Wrote idle none s e empty same future to_come stage =
      supplied-Wrote (poll_next s.n s) (poll_next-Supplied s.n s same e empty future to_come)
  written-Wrote (write_debt d) none s e empty same future to_come stage = absurd stage
  written-Wrote flushing none s e empty same future to_come stage = absurd stage
  written-Wrote closing none s e empty same future to_come stage = absurd stage
  written-Wrote waiting_for_read_to_finish none s e empty same future to_come stage = absurd stage

-- A write of a message, tried until it is taken, gives the message to one peer and to no other: it does not
-- panic; where it fails, would block or takes nothing, the message is as far in the same or in a fresh peer
-- as the state says, and the same write goes on from there; where it succeeds, a peer that has taken the
-- whole message and nothing else, and has been flushed and shut down, is let go, and none is held. Peers
-- that are to come have not seen a byte.
pub foreachmsg_write-Wrote :
    (s : State) (b : Bytes) → IsSending b s → Wrote b s.dropped (foreachmsg_write s b)
unfolding foreachmsg_write poll_state
foreachmsg_write-Wrote s b on =
    written-Wrote b s.dropped s.ph s.p s refl refl refl on.future on.to_come on.stage
