-- ===== src/Reconnect.antt =====
-- reconnect_peer.rs: `autoreconnect:` makes a new peer whenever the inner one ends or fails. What the
-- inner peer does in a call is a record of functions; futures and the delay are scripts.
pub mod Polling
pub mod Calls
mod Tests
use websocat.Base.{
  ℕ, suc, zero, ◌+◌, Bool, true, false, Option, none, some, List, [], ◌∷◌, Bytes, IoResult, ok, err,
  ErrorKind, would_block, broken_pipe, write_zero, other,
}
use websocat.Reuse.{Inner}
use websocat.Ws.{DelayPoll, fires, waits, fails}

-- What a poll of `BoxedNewPeerFuture` gives.
pub data FuturePoll (P : Type 0) : Type 0 where
  connected : P → FuturePoll P
  connecting : FuturePoll P
  refused : FuturePoll P

-- `n` is the future under way, as its next polls; `supply` are those that `construct` gives next;
-- `delays` is what the delay answers next, if it is there. The specifier, its parameters and the length of
-- the delay do not change.
pub record State (P : Type 0) : Type 0 where
  pub p : Option P
  pub n : Option (List (FuturePoll P))
  pub already_warned : Bool
  pub ratelimiter : Bool
  pub supply : List (List (FuturePoll P))
  pub delays : List DelayPoll

-- A part of `poll`: it returns, or the loop goes on.
pub data Turned (P : Type 0) : Type 0 where
  is_ready : State P → P → Turned P
  is_not_ready : State P → Turned P
  goes_on : State P → Turned P

module _ {P : Type 0} where
  -- `autoreconnector`
  pub autoreconnector : List (List (FuturePoll P)) → List DelayPoll → State P
  autoreconnector supply delays = record {
    p = none;
    n = none;
    already_warned = false;
    ratelimiter = false;
    supply = supply;
    delays = delays;
  }

  -- The delay at the head of the loop, if there is one; an error is only logged.
  abbrev pub delay_poll : List DelayPoll → (State P → Turned P) → State P → Turned P
  delay_poll [] rest s = is_not_ready s
  delay_poll (fires ∷ ds) rest s = rest (record s { ratelimiter = false; delays = ds })
  delay_poll (waits ∷ ds) rest s = is_not_ready (record s { delays = ds })
  delay_poll (fails ∷ ds) rest s = rest (record s { delays = ds })

  unfoldable pub after_delay : Bool → (State P → Turned P) → State P → Turned P
  after_delay false rest s = rest s
  after_delay true rest s = delay_poll s.delays rest s

  -- The poll of the future under way; with no further answer known it is connecting.
  unfoldable pub connect : List (FuturePoll P) → State P → Turned P
  connect [] s = is_not_ready (record s { n = some [] })
  connect (connecting ∷ fs) s = is_not_ready (record s { n = some fs })
  connect (connected x ∷ fs) s = goes_on (record s { p = some x; n = none })
  connect (refused ∷ fs) s =
      goes_on (record s { n = none; already_warned = true; ratelimiter = true })

  -- `self.s.construct(cp)` and `get_only_first_conn`; with no further future known it is connecting.
  unfoldable pub construct : List (List (FuturePoll P)) → State P → Turned P
  construct [] s = goes_on (record s { n = some [] })
  construct (f ∷ fs) s = goes_on (record s { n = some f; supply = fs })

  abbrev pub take_future : Option (List (FuturePoll P)) → State P → Turned P
  take_future none s = construct s.supply s
  take_future (some f) s = connect f s

  abbrev pub have_peer : Option P → State P → Turned P
  have_peer (some x) s = is_ready s x
  have_peer none s = take_future s.n s

  -- One round of the loop in `poll`.
  unfoldable pub turn : State P → Turned P
  unfolding after_delay connect construct
  turn s = after_delay s.ratelimiter (λ t. have_peer t.p t) s

  abbrev pub or_again : (State P → Option (Turned P)) → Turned P → Option (Turned P)
  or_again again (is_ready t x) = some (is_ready t x)
  or_again again (is_not_ready t) = some (is_not_ready t)
  or_again again (goes_on t) = again t

  -- `State::poll`, with fuel for its rounds.
  unfoldable pub poll_state : ℕ → State P → Option (Turned P)
  unfolding turn
  poll_state zero s = none
  poll_state (suc f) s = or_again (poll_state f) (turn s)

  -- `State::reconnect`
  abbrev pub reconnect : State P → State P
  reconnect s = record s { p = none }

-- What the macro's match makes of a result.
pub data Verdict (R : Type 0) : Type 0 where
  answers : IoResult R → Verdict R
  do_reconnect : Verdict R

-- `bytes`
abbrev pub by_bytes : IoResult ℕ → Verdict ℕ
by_bytes (ok zero) = do_reconnect
by_bytes (ok (suc n)) = answers (ok (suc n))
by_bytes (err would_block) = answers (err would_block)
by_bytes (err e) = do_reconnect

-- `none`
abbrev pub by_none : {R : Type 0} → IoResult R → Verdict R
by_none (ok u) = answers (ok u)
by_none (err would_block) = answers (err would_block)
by_none (err e) = do_reconnect

-- What a call leaves: the state, the caller's buffer and the result.
pub record Called (P B R : Type 0) : Type 0 where
  pub after : State P
  pub buf : B
  pub result : IoResult R

module _ {P B R : Type 0} (op : P → B → P × B × Verdict R) where
  abbrev pub by_verdict :
      (State P → B → Option (Called P B R)) → State P → P × B × Verdict R → Option (Called P B R)
  by_verdict again s (x, b, answers r) =
      some (record { after = record s { p = some x }; buf = b; result = r })
  by_verdict again s (x, b, do_reconnect) = again (reconnect (record s { p = some x })) b

  -- `getpeer!` and the match.
  abbrev pub with_state :
      (State P → B → Option (Called P B R)) → B → Option (Turned P) → Option (Called P B R)
  with_state again b none = none
  with_state again b (some (is_ready s x)) = by_verdict again s (op x b)
  with_state again b (some (is_not_ready s)) =
      some (record { after = s; buf = b; result = err would_block })
  with_state again b (some (goes_on s)) = none

  -- `main_loop!`, with fuel for its peers and for the rounds of each poll.
  unfoldable pub main_loop : ℕ → ℕ → State P → B → Option (Called P B R)
  unfolding poll_state
  main_loop zero g s b = none
  main_loop (suc f) g s b = with_state (main_loop f g) b (poll_state g s)

-- A read of `PeerHandle`.
unfoldable pub reconnect_read :
    {P : Type 0} → Inner P → ℕ → ℕ → State P → Bytes → Option (Called P Bytes ℕ)
unfolding main_loop
reconnect_read i = main_loop (λ x b. (let r = i.read x b in (r.0, r.1.0, by_bytes r.1.1)))

-- A write; the bytes to write are not changed.
unfoldable pub reconnect_write :
    {P : Type 0} → Inner P → ℕ → ℕ → State P → Bytes → Option (Called P Bytes ℕ)
unfolding main_loop
reconnect_write i = main_loop (λ x b. (let r = i.write x b in (r.0, b, by_bytes r.1)))

-- A flush.
unfoldable pub reconnect_flush :
    {P : Type 0} → Inner P → ℕ → ℕ → State P → Unit {0} → Option (Called P (Unit {0}) ℕ)
unfolding main_loop
reconnect_flush i = main_loop (λ x b. (let r = i.flush x in (r.0, b, by_none r.1)))

-- `shutdown` drops the peer, and is ready.
unfoldable pub reconnect_shutdown : {P : Type 0} → State P → State P
reconnect_shutdown s = record s { p = none }
