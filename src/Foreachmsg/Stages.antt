-- ===== src/Foreachmsg/Stages.antt =====
-- How far a message of `foreachmsg:` is, and what a write of it does.
use websocat.Base.{
  ℕ, ◌≡◌, ◌≢◌, true, Option, none, some, List, [], ◌∷◌, ◌++◌, length, All, Bytes, IoResult, ok, err,
  Outcome, returns,
}
use websocat.Reconnect.{FuturePoll, connected, connecting, refused}
use websocat.Foreachmsg.{
  SubPeer, Phase, idle, flushing, closing, waiting_for_read_to_finish, write_debt, Oneshot, absent,
  State, Written,
}

-- Peers that are to come have not seen a byte.
abbrev pub FreshPoll : FuturePoll SubPeer → Type 0
FreshPoll (connected x) = x.written ≡ []
FreshPoll connecting = Unit
FreshPoll refused = Unit

abbrev pub FreshFuture : Option (List (FuturePoll SubPeer)) → Type 0
FreshFuture none = Unit
FreshFuture (some f) = All FreshPoll f

abbrev pub FreshSupply : List (List (FuturePoll SubPeer)) → Type 0
FreshSupply = All (All FreshPoll)

-- How far the message `b` is.
abbrev pub Stage : Bytes → Phase → Option SubPeer → Oneshot → Type 0
Stage b idle none w = Unit
Stage b idle (some x) w = x.written ≡ []
Stage b (write_debt d) (some x) w = x.written ++ d ≡ b
Stage b flushing (some x) w = x.written ≡ b
Stage b closing (some x) w = (x.written ≡ b) × (x.is_flushed ≡ true)
Stage b waiting_for_read_to_finish (some x) w =
    (x.written ≡ b) × (x.is_flushed ≡ true) × (x.is_shut ≡ true) × (w ≢ absent)
Stage b (write_debt d) none w = ⊥
Stage b flushing none w = ⊥
Stage b closing none w = ⊥
Stage b waiting_for_read_to_finish none w = ⊥

-- Of the message `b`, so much has been taken by the peer as the phase says.
pub record IsSending (b : Bytes) (s : State) : Type 0 where
  pub stage : Stage b s.ph s.p s.read_waiter
  pub future : FreshFuture s.n
  pub to_come : FreshSupply s.supply

pub record IsDelivered (b : Bytes) (x : SubPeer) : Type 0 where
  pub whole : x.written ≡ b
  pub flushed : x.is_flushed ≡ true
  pub closed : x.is_shut ≡ true

abbrev pub IsUnfinished : IoResult ℕ → Type 0
IsUnfinished (ok n) = n ≡ 0
IsUnfinished (err e) = Unit

-- What a write of `b` does, where `gone` are the peers let go before: it is to be tried again, or a peer
-- that has the message is let go.
pub data Wrote (b : Bytes) (gone : List SubPeer) : Outcome Written → Type 0 where
  again :
      (t : State) (r : IoResult ℕ)
      → IsSending b t
      → t.dropped ≡ gone
      → IsUnfinished r
      → Wrote b gone (returns (record { after = t; result = r }))
  done :
      (t : State) (x : SubPeer)
      → IsDelivered b x
      → t.dropped ≡ gone ++ x ∷ []
      → t.ph ≡ idle
      → t.p ≡ none
      → FreshFuture t.n
      → FreshSupply t.supply
      → Wrote b gone (returns (record { after = t; result = ok (length b) }))
