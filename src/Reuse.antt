-- ===== src/Reuse.antt =====
-- primitive_reuse_peer.rs: `reuse:` serves all its clients through one inner peer. The slot is shared by
-- the global state and by every handle; what the inner peer does in a call is a parameter.
pub mod Handles
mod Tests
use websocat.Base.{
  ℕ, suc, zero, ◌+◌, Bool, true, false, Option, none, some, [], Bytes, IoResult, Outcome, returns,
  panics, if◌then◌else◌,
}
use websocat.Constructor.{PeerResult, peer, failed}

-- The slot, how many calls of `inner_peer` have not resolved, and how many peers were handed out.
pub record Reuser (P : Type 0) : Type 0 where
  pub slot : Option P
  pub initializing : ℕ
  pub handles : ℕ

abbrev pub default : {P : Type 0} → Reuser P
default = record { slot = none; initializing = 0; handles = 0 }

-- `connection_reuser`, when it is called: the peer is made later, or handed out at once.
unfoldable pub connection_reuser : {P : Type 0} → Reuser P → Reuser P
connection_reuser s = elim s.slot [
  | none ↦ record s { initializing = s.initializing + 1 }
  | some x ↦ record s { handles = s.handles + 1 }
]

-- The closure of `and_then` in `connection_reuser`, when a call of `inner_peer` resolves.
unfoldable pub initialized : {P E : Type 0} → ℕ → Reuser P → PeerResult P E → Reuser P
initialized n s (peer inner) = record {
  slot = some inner;
  initializing = n;
  handles = s.handles + 1;
}
initialized n s (failed e) = record s { initializing = n }

-- What the inner peer does: its state after a call, with the buffer of a read, and the result.
pub record Inner (P : Type 0) : Type 0 where
  pub read : P → Bytes → P × (Bytes × IoResult ℕ)
  pub write : P → Bytes → P × IoResult ℕ
  pub flush : P → P × IoResult ℕ

module _ {P : Type 0} where
  -- `if let Some(ref mut x) = ... else unreachable!()`
  unfoldable pub with_peer : {A : Type 0} → (P → P × A) → Option P → Outcome (Option P × A)
  with_peer f none = panics
  with_peer f (some x) = let r = f x in returns (some r.0, r.1)

  -- The methods of `PeerHandle`, each with what it returns.
  abbrev pub handle_read : Inner P → Bytes → Option P → Outcome (Option P × (Bytes × IoResult ℕ))
  handle_read i b = with_peer (λ x. i.read x b)

  abbrev pub handle_write : Inner P → Bytes → Option P → Outcome (Option P × IoResult ℕ)
  handle_write i b = with_peer (λ x. i.write x b)

  abbrev pub handle_flush : Inner P → Option P → Outcome (Option P × IoResult ℕ)
  handle_flush i = with_peer (λ x. i.flush x)

  -- After the message: shutdown itself is ignored, and is ready.
  abbrev pub ignore_shutdown : Option P → Outcome (Option P)
  ignore_shutdown none = panics
  ignore_shutdown (some x) = returns (some x)

  abbrev pub after_message : Outcome (Option P × IoResult ℕ) → Outcome (Option P)
  after_message panics = panics
  after_message (returns r) = ignore_shutdown r.0

  abbrev pub handle_shutdown : Inner P → Bool → Option P → Outcome (Option P)
  handle_shutdown i true slot = after_message (handle_write i [] slot)
  handle_shutdown i false slot = ignore_shutdown slot
