-- ===== src/Broadcast.antt =====
-- broadcast_reuse_peer.rs: `broadcast:` serves all its clients through one inner peer, and gives each of
-- them what the inner peer sends. The slab of the clients and the channels to them are parameters.
pub mod Channels
pub mod Delivery
pub mod Reading
pub mod Clients
pub mod Handles
pub mod Replaced
mod Tests
use websocat.Base.{
  ℕ, suc, zero, ◌+◌, Bool, true, false, Option, none, some, List, [], ◌∷◌, Bytes, IoResult, ok, err,
  ErrorKind, would_block, Outcome, returns, panics, if◌then◌else◌, ltb, ◌==◌, length, is_empty,
}
use websocat.Constructor.{PeerResult, peer, failed}

-- A slab of senders: an insertion gives the index, a removal of an index that is not there panics. A sender
-- is told by the number of its channel.
pub record Slab (T : Type 0) : Type 0 where
  pub empty : T
  pub insert : ℕ → T → T × ℕ
  pub remove : ℕ → T → Outcome (T × ℕ)
  pub senders : T → List ℕ

pub data Sent : Type 0 where
  ready not_ready closed : Sent

-- What a receiver gives: a message, the end when the sender is gone, nothing yet.
pub data Received : Type 0 where
  message : Bytes → Received
  end nothing : Received

-- The channels of futures::unsync::mpsc.
pub record Mpsc (C : Type 0) : Type 0 where
  pub channel : ℕ → C
  pub start_send : Bytes → C → C × Sent
  pub poll_complete : C → C
  pub poll : C → C × Received
  pub drop_sender : C → C
  pub drop_receiver : C → C

-- The inner peer: what its next reads give, its writer, and the writer's methods.
pub record Writer (W : Type 0) : Type 0 where
  pub write : Bytes → W → W × IoResult ℕ
  pub flush : W → W × IoResult (Unit {0})

pub record InnerPeer (W : Type 0) : Type 0 where
  pub reads : List (IoResult Bytes)
  pub writer : W

pub record Broadcaster (T W : Type 0) : Type 0 where
  pub inner_peer : InnerPeer W
  pub clients : T

-- The slot that is shared, all channels, and the number of the next one.
pub record World (T C W : Type 0) : Type 0 where
  pub slot : Option (Broadcaster T W)
  pub channels : ℕ → C
  pub next_channel : ℕ

-- `PeerHandleR`, and the `PeerHandleW` with it.
pub record Handle : Type 0 where
  pub receiver : ℕ
  pub index : ℕ

abbrev pub set_channel : {C : Type 0} → ℕ → C → (ℕ → C) → ℕ → C
set_channel k c channels = λ j. if j == k then c else channels j

-- What a poll of `InnerPeerReader` returns.
pub data InnerPoll : Type 0 where
  finished waits fails : InnerPoll

module _ {C : Type 0} (mpsc : Mpsc C) where
  -- `start_send`, with `poll_complete` where it is ready; what a warning is about is left as it is.
  abbrev pub after_send : C × Sent → C
  after_send (c, ready) = mpsc.poll_complete c
  after_send (c, not_ready) = c
  after_send (c, closed) = c

  abbrev pub send_to : Bytes → C → C
  send_to m c = after_send (mpsc.start_send m c)

  -- `for (_, client) in me.clients.iter_mut()`
  unfoldable pub send_all : Bytes → List ℕ → (ℕ → C) → ℕ → C
  send_all m [] channels = channels
  send_all m (k ∷ ks) channels = send_all m ks (set_channel k (send_to m (channels k)) channels)

  -- The senders of a slab that is dropped.
  abbrev pub drop_senders : List ℕ → (ℕ → C) → ℕ → C
  drop_senders [] channels = channels
  drop_senders (k ∷ ks) channels =
      drop_senders ks (set_channel k (mpsc.drop_sender (channels k)) channels)

  -- The loop of `InnerPeerReader::poll`: the reads that are left, and the channels.
  unfoldable pub poll_reads :
      List ℕ → List (IoResult Bytes) → (ℕ → C) → List (IoResult Bytes) × (ℕ → C) × InnerPoll
  poll_reads clients [] channels = ([], channels, waits)
  poll_reads clients (ok [] ∷ reads) channels = (reads, channels, finished)
  poll_reads clients (ok (b ∷ m) ∷ reads) channels =
      let rest =
        poll_reads clients reads
          (if is_empty clients then channels else send_all (b ∷ m) clients channels) in
      rest
  poll_reads clients (err would_block ∷ reads) channels = (reads, channels, waits)
  poll_reads clients (err e ∷ reads) channels = (reads, channels, fails)

  -- `PeerHandleR::read` into a buffer of this size, and what was put into it.
  unfoldable pub broadcast_read : ℕ → ℕ → C → Option (C × Bytes × IoResult ℕ)
  broadcast_read zero size c = none
  broadcast_read (suc fuel) size c =
      let rest = broadcast_read fuel size (mpsc.poll c).0 in
      elim (mpsc.poll c).1 [
        | message m ↦ if ltb size (length m) then rest else some ((mpsc.poll c).0, m, ok (length m))
        | end ↦ some ((mpsc.poll c).0, [], err ErrorKind.broken_pipe)
        | nothing ↦ some ((mpsc.poll c).0, [], err would_block)
      ]

module _ {T C W : Type 0} where
  abbrev pub handed_out :
      {E : Type 0} → Outcome (World T C W × Handle) → Outcome (World T C W × PeerResult Handle E)
  handed_out panics = panics
  handed_out (returns r) = returns (r.0, peer r.1)

module _ {T C W : Type 0} (slab : Slab T) (mpsc : Mpsc C) where
  -- `InnerPeerReader::poll`
  unfoldable pub broadcast_poll : World T C W → Outcome (World T C W × InnerPoll)
  unfolding poll_reads
  broadcast_poll s = elim s.slot [
    | none ↦ panics
    | some b ↦
        let (reads, channels, polled) =
          poll_reads mpsc (slab.senders b.clients) b.inner_peer.reads s.channels in
        returns (
          record s {
            slot = some (record b { inner_peer = record b.inner_peer { reads = reads } });
            channels = channels;
          },
          polled,
        )
  ]

  -- `makeclient`
  unfoldable pub makeclient : ℕ → World T C W → Outcome (World T C W × Handle)
  makeclient queue_len s = elim s.slot [
    | none ↦ panics
    | some b ↦
        let (clients, k) = slab.insert s.next_channel b.clients in
        returns (
          record {
            slot = some (record b { clients = clients });
            channels = set_channel s.next_channel (mpsc.channel queue_len) s.channels;
            next_channel = suc s.next_channel;
          },
          record { receiver = s.next_channel; index = k },
        )
  ]

  -- `*x = Some(...)` drops the broadcaster that was there.
  abbrev pub drop_broadcaster : Option (Broadcaster T W) → (ℕ → C) → ℕ → C
  drop_broadcaster none channels = channels
  drop_broadcaster (some b) channels = drop_senders mpsc (slab.senders b.clients) channels

  -- The closure of `and_then` in `connection_reuser`, when a call of `inner_peer` resolves.
  unfoldable pub broadcast_init :
      {E : Type 0}
      → ℕ
      → PeerResult (InnerPeer W) E
      → World T C W
      → Outcome (World T C W × PeerResult Handle E)
  unfolding makeclient
  broadcast_init queue_len (peer inner) s = handed_out (
      makeclient queue_len (record s {
        slot = some (record { inner_peer = inner; clients = slab.empty });
        channels = drop_broadcaster s.slot s.channels;
      }))
  broadcast_init queue_len (failed e) s = returns (s, failed e)

  -- `connection_reuser`, when it is called: `none` if an inner peer has to be made before.
  unfoldable pub broadcast_reuser : ℕ → World T C W → Option (Outcome (World T C W × Handle))
  unfolding makeclient
  broadcast_reuser queue_len s = elim s.slot [
    | none ↦ none
    | some b ↦ some (makeclient queue_len s)
  ]

  -- `PeerHandleR::drop`, and the drop of its receiver behind it.
  unfoldable pub drop_handle : Handle → World T C W → Outcome (World T C W)
  drop_handle h s = elim s.slot [
    | none ↦ panics
    | some b ↦ elim (slab.remove h.index b.clients) [
      | panics ↦ panics
      | returns r ↦
          let without = set_channel r.1 (mpsc.drop_sender (s.channels r.1)) s.channels in
          returns (record s {
            slot = some (record b { clients = r.0 });
            channels = set_channel h.receiver (mpsc.drop_receiver (without h.receiver)) without;
          })
    ]
  ]

-- The methods of `PeerHandleW`.
module _ {T W : Type 0} (w : Writer W) where
  unfoldable pub with_writer :
      {A : Type 0} → (W → W × A) → Option (Broadcaster T W) → Outcome (Option (Broadcaster T W) × A)
  with_writer f none = panics
  with_writer f (some b) =
      let r = f b.inner_peer.writer in
      returns (some (record b { inner_peer = record b.inner_peer { writer = r.0 } }), r.1)

  abbrev pub broadcast_write :
      Bytes → Option (Broadcaster T W) → Outcome (Option (Broadcaster T W) × IoResult ℕ)
  broadcast_write m = with_writer (λ x. w.write m x)

  abbrev pub broadcast_flush :
      Option (Broadcaster T W) → Outcome (Option (Broadcaster T W) × IoResult (Unit {0}))
  broadcast_flush = with_writer (λ x. w.flush x)

  -- Attempts are ignored.
  abbrev pub broadcast_shutdown : Option (Broadcaster T W) → Outcome (Option (Broadcaster T W))
  broadcast_shutdown none = panics
  broadcast_shutdown (some b) = returns (some b)
