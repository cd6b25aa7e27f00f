-- ===== src/Broadcast/Replaced.antt =====
-- Two clients of `broadcast:` that come before the inner peer is there.
use websocat.Base.{ℕ, ◌≡◌, ◌==◌, false, refl, sym, ap, subst, none, some, returns, panics}
use websocat.Constructor.{PeerResult, peer}
use websocat.Broadcast.{
  Slab, Mpsc, InnerPeer, Broadcaster, World, set_channel, Handle, makeclient, broadcast_init,
  broadcast_reuser, drop_handle, drop_senders,
}
use websocat.Broadcast.Channels.{SlabLaws}

abbrev pub empty_world : {T C W : Type 0} → (ℕ → C) → World T C W
empty_world channels = record { slot = none; channels = channels; next_channel = 0 }

abbrev pub resolved : {W : Type 0} (E : Type 0) → InnerPeer W → PeerResult (InnerPeer W) E
resolved E inner = peer inner

module _ {T C W : Type 0} (slab : Slab T) (mpsc : Mpsc C) where
  -- What is left when the handle is gone.
  abbrev pub dropped : Handle → World T C W → Broadcaster T W → T × ℕ → World T C W
  dropped h s b r =
      let without = set_channel r.1 (mpsc.drop_sender (s.channels r.1)) s.channels in
      record s {
        slot = some (record b { clients = r.0 });
        channels = set_channel h.receiver (mpsc.drop_receiver (without h.receiver)) without;
      }

  pub drop_handle-removes :
      (h : Handle) (s : World T C W) (b : Broadcaster T W) (r : T × ℕ)
      → s.slot ≡ some b
      → slab.remove h.index b.clients ≡ returns r
      → drop_handle slab mpsc h s ≡ returns (dropped h s b r)
  unfolding drop_handle
  drop_handle-removes h s b r slot removes = rw (slot, removes, drop_handle)

  pub drop_handle-panics :
      (h : Handle) (s : World T C W) (b : Broadcaster T W)
      → s.slot ≡ some b
      → slab.remove h.index b.clients ≡ panics
      → drop_handle slab mpsc h s ≡ panics
  unfolding drop_handle
  drop_handle-panics h s b slot panicking = rw (slot, panicking, drop_handle)

-- What becomes of two clients that each make an inner peer, `a` and `b`, from a world with no broadcaster:
-- `s` and `t` are the worlds when these resolve, with the handles `g` and `h`, and `u` that when `g` is gone.
pub record Replacement {T C W : Type 0} {slab : Slab T} (laws : SlabLaws slab) (mpsc : Mpsc C)
    (q : ℕ) (E : Type 0) (a b : InnerPeer W) (channels : ℕ → C) : Type 0 where
  pub s : World T C W
  pub t : World T C W
  pub u : World T C W
  pub g : Handle
  pub h : Handle
  pub clients : T
  pub left : T
  pub first : broadcast_init slab mpsc q (resolved E a) (empty_world channels) ≡ returns (s, peer g)
  pub second : broadcast_init slab mpsc q (resolved E b) s ≡ returns (t, peer h)
  pub one_index : g.index ≡ h.index
  pub two_channels : (g.receiver == h.receiver) ≡ false
  pub replaced : t.slot ≡ some (record { inner_peer = b; clients = clients })
  pub only_second : laws.get h.index clients ≡ some h.receiver
  pub first_closed : t.channels g.receiver ≡ mpsc.drop_sender (s.channels g.receiver)
  pub first_goes : drop_handle slab mpsc g t ≡ returns u
  pub remaining : u.slot ≡ some (record { inner_peer = b; clients = left })
  pub second_removed : laws.get h.index left ≡ none
  pub second_closed : u.channels h.receiver ≡ mpsc.drop_sender (t.channels h.receiver)
  pub second_goes : drop_handle slab mpsc h u ≡ panics

-- Two clients come while there is no broadcaster, so that each makes an inner peer, and both resolve. The
-- second replaces the first's broadcaster, so that the first client's channel is closed, and its own client
-- has the index of the first in the new slab. When the first client goes, it removes the second's sender,
-- which closes the second's channel; when the second goes, its removal panics.
pub broadcast_init-replaces :
    {T C W : Type 0} {slab : Slab T} (laws : SlabLaws slab) (mpsc : Mpsc C) (q : ℕ) (E : Type 0)
    (a b : InnerPeer W) (channels : ℕ → C)
    → (broadcast_reuser slab mpsc q (empty_world {T = T} {W = W} channels) ≡ none)
      × Replacement laws mpsc q E a b channels
unfolding broadcast_reuser broadcast_init makeclient
broadcast_init-replaces {slab = slab} laws mpsc q E a b channels =
    let one = slab.insert 0 slab.empty in
    let two = slab.insert 1 slab.empty in
    let same = laws.insert-same 1 0 slab.empty in
    let there = subst (λ k. laws.get k two.0 ≡ some 1) same (laws.get-insert 1 slab.empty) in
    let (left, removes, gone, others) = laws.remove-taken one.1 1 two.0 there in
    let panicking =
      subst (λ k. slab.remove k left ≡ panics) (sym same) (laws.remove-vacant one.1 left gone) in
    let open_channels = set_channel 0 (mpsc.channel q) channels in
    (
      refl,
      record {
        s = _;
        t = _;
        u = _;
        g = _;
        h = _;
        clients = two.0;
        left = left;
        first = refl;
        second = refl;
        one_index = sym same;
        two_channels = refl;
        replaced = refl;
        only_second = laws.get-insert 1 slab.empty;
        first_closed = ap (λ ks. drop_senders mpsc ks open_channels 0) (laws.senders-one 0);
        first_goes = drop_handle-removes slab mpsc _ _ _ (left, 1) refl removes;
        remaining = refl;
        second_removed = subst (λ k. laws.get k left ≡ none) (sym same) gone;
        second_closed = refl;
        second_goes = drop_handle-panics slab mpsc _ _ _ refl panicking;
      },
    )
