-- ===== src/Broadcast/Handles.antt =====
-- Clients of `broadcast:` that come and go once the inner peer is there.
use websocat.Base.{
  ℕ, suc, ◌≡◌, refl, sym, ap, ◌∙◌, subst, Option, some, List, [], ◌∷◌, ◌++◌, Outcome, returns,
  panics, AreSeparate-take_out, equal_false, Bytes, IoResult,
}
use websocat.Constructor.{PeerResult, peer, failed}
use websocat.Broadcast.{
  Slab, Mpsc, InnerPeer, Broadcaster, World, Handle, InnerPoll, set_channel, broadcast_poll,
  makeclient, broadcast_init, broadcast_reuser, drop_handle, handed_out, Writer, with_writer,
  broadcast_write, broadcast_flush, broadcast_shutdown,
}
use websocat.Broadcast.Channels.{SlabLaws}
use websocat.Broadcast.Replaced.{drop_handle-removes, resolved, empty_world}
use websocat.Broadcast.Delivery.{broadcast_poll-some}
use websocat.Broadcast.Clients.{
  comes, polls, goes, start, next, Serving, Step, Steps, AreClients, IsServing, AreClients-insert,
  AreClients-kept,
}

module _ {T C W : Type 0} {slab : Slab T} (laws : SlabLaws slab) (mpsc : Mpsc C)
    (queue_len : ℕ) where
  world_of : World T C W → Outcome (World T C W) → World T C W
  world_of s panics = s
  world_of s (returns t) = t

  pair_of : World T C W → Outcome (World T C W × InnerPoll) → World T C W
  pair_of s panics = s
  pair_of s (returns r) = r.0

  client_of : World T C W → Handle → Option (Outcome (World T C W × Handle)) → World T C W × Handle
  client_of s h (some (returns r)) = r
  client_of s h _ = (s, h)

  -- `makeclient`, where there is a broadcaster.
  abbrev with_client : World T C W → Broadcaster T W → World T C W × Handle
  with_client s b = (
    record {
      slot = some (record b { clients = (slab.insert s.next_channel b.clients).0 });
      channels = set_channel s.next_channel (mpsc.channel queue_len) s.channels;
      next_channel = suc s.next_channel;
    },
    record { receiver = s.next_channel; index = (slab.insert s.next_channel b.clients).1 },
  )

  makeclient-makes :
      (s : World T C W) (b : Broadcaster T W)
      → s.slot ≡ some b
      → makeclient slab mpsc queue_len s ≡ returns (with_client s b)
  unfolding makeclient
  makeclient-makes s b slot = rw (slot, makeclient)

  broadcast_reuser-joins :
      (s : World T C W) (b : Broadcaster T W)
      → s.slot ≡ some b
      → broadcast_reuser slab mpsc queue_len s ≡ some (returns (with_client s b))
  unfolding broadcast_reuser
  broadcast_reuser-joins s b slot =
      rw (slot, broadcast_reuser) (ap some (makeclient-makes s b slot))

  with_client-IsServing :
      (s : World T C W) (b : Broadcaster T W) (hs : List Handle)
      → AreClients laws b.clients hs
      → IsServing laws (record { world = (with_client s b).0; handles = (with_client s b).1 ∷ hs })
  with_client-IsServing s b hs all =
      let (rest, others) = AreClients-insert laws s.next_channel b.clients hs all in
      (_, refl, (laws.get-insert s.next_channel b.clients, others, rest))

  comes-IsServing :
      (s : Serving T C W) (t : World T C W) (h : Handle)
      → broadcast_reuser slab mpsc queue_len s.world ≡ some (returns (t, h))
      → IsServing laws s
      → IsServing laws (record { world = t; handles = h ∷ s.handles })
  unfolding client_of
  comes-IsServing s t h e (b, slot, all) =
      subst (λ r. IsServing laws (record { world = r.0; handles = r.1 ∷ s.handles }))
        (ap (client_of s.world h) (sym (broadcast_reuser-joins s.world b slot) ∙ e))
        (with_client-IsServing s.world b s.handles all)

  polls-IsServing :
      (s : Serving T C W) (t : World T C W) (p : InnerPoll)
      → broadcast_poll slab mpsc s.world ≡ returns (t, p)
      → IsServing laws s
      → IsServing laws (record s { world = t })
  unfolding pair_of
  polls-IsServing s t p e (b, slot, all) =
      subst (λ w. IsServing laws (record s { world = w }))
        (ap (pair_of s.world) (sym (broadcast_poll-some slab mpsc s.world b slot) ∙ e))
        (_, refl, all)

  -- A handle that is dropped finds its sender, and the others keep theirs.
  drop_handle-IsServing :
      (s : Serving T C W) (before after : List Handle) (h : Handle)
      → s.handles ≡ before ++ h ∷ after
      → IsServing laws s
      → (t : World T C W) × (drop_handle slab mpsc h s.world ≡ returns t)
        × IsServing laws (record { world = t; handles = before ++ after })
  drop_handle-IsServing s before after h e (b, slot, all) =
      let (there, others, rest) =
        AreSeparate-take_out _ _ (λ g h. equal_false g.index h.index) before after h
          (subst (AreClients laws b.clients) e all) in
      let (u, removes, gone, kept) = laws.remove-taken h.index h.receiver b.clients there in
      (
        _,
        drop_handle-removes slab mpsc h s.world b (u, h.receiver) slot removes,
        (_, refl, AreClients-kept laws h.index b.clients u (before ++ after) kept others rest),
      )

  goes-IsServing :
      (s : Serving T C W) (before after : List Handle) (h : Handle) (t : World T C W)
      → s.handles ≡ before ++ h ∷ after
      → drop_handle slab mpsc h s.world ≡ returns t
      → IsServing laws s
      → IsServing laws (record { world = t; handles = before ++ after })
  unfolding world_of
  goes-IsServing s before after h t e dropping serving =
      let (u, returning, still) = drop_handle-IsServing s before after h e serving in
      subst (λ w. IsServing laws (record { world = w; handles = before ++ after }))
        (ap (world_of s.world) (sym returning ∙ dropping)) still

  Step-IsServing :
      {s t : Serving T C W} → Step slab mpsc queue_len s t → IsServing laws s → IsServing laws t
  Step-IsServing (comes s t h e) serving = comes-IsServing s t h e serving
  Step-IsServing (polls s t p e) serving = polls-IsServing s t p e serving
  Step-IsServing (goes s before after h t e dropping) serving =
      goes-IsServing s before after h t e dropping serving

  Steps-IsServing :
      {s t : Serving T C W} → Steps slab mpsc queue_len s t → IsServing laws s → IsServing laws t
  Steps-IsServing start serving = serving
  Steps-IsServing (next t u steps step) serving =
      Step-IsServing step (Steps-IsServing steps serving)

  with_writer-some :
      {A : Type 0} (w : Writer W) (f : W → W × A) (slot : Option (Broadcaster T W))
      (b : Broadcaster T W)
      → slot ≡ some b
      → let r = f b.inner_peer.writer in
        with_writer w f slot
        ≡ returns (some (record b { inner_peer = record b.inner_peer { writer = r.0 } }), r.1)
  unfolding with_writer
  with_writer-some w f slot b e = rw (e)

  init_of :
      World T C W × Handle
      → {E : Type 0} → Outcome (World T C W × PeerResult Handle E)
      → World T C W × Handle
  init_of r panics = r
  init_of r (returns (s, peer h)) = (s, h)
  init_of r (returns (s, failed e)) = r

  -- Once the first client's inner peer is there, and whatever clients come and handles are dropped behind
  -- it, with polls of the inner peer between, in any order: no use of a handle that is left, not its drop,
  -- write, flush or shutdown, and no poll of the inner peer, comes to a failed assertion or to `unreachable!()`.
  pub handles-AreSafe :
      {E : Type 0} (inner : InnerPeer W) (channels : ℕ → C) (w : Writer W) (m : Bytes)
      (first : World T C W) (g h : Handle) (s : Serving T C W) (before after : List Handle)
      → broadcast_init slab mpsc queue_len (resolved E inner) (empty_world channels)
        ≡ returns (first, peer g)
      → Steps slab mpsc queue_len (record { world = first; handles = g ∷ [] }) s
      → s.handles ≡ before ++ h ∷ after
      → ((t : World T C W) × (drop_handle slab mpsc h s.world ≡ returns t))
        × ((t : World T C W) × (p : InnerPoll) × (broadcast_poll slab mpsc s.world
              ≡ returns (t, p)))
        × ((r : Option (Broadcaster T W) × IoResult ℕ) × (broadcast_write w m s.world.slot
              ≡ returns r))
        × ((r : Option (Broadcaster T W) × IoResult (Unit {0})) × (broadcast_flush w s.world.slot
              ≡ returns r))
        × ((r : Option (Broadcaster T W)) × (broadcast_shutdown w s.world.slot ≡ returns r))
  unfolding broadcast_init init_of
  handles-AreSafe inner channels w m first g h s before after init steps e =
      let begun : World T C W = record {
        slot = some (record { inner_peer = inner; clients = slab.empty });
        channels = channels;
        next_channel = 0;
      } in
      let b : Broadcaster T W = record { inner_peer = inner; clients = slab.empty } in
      let made = ap handed_out (makeclient-makes begun b refl) in
      let serving =
        subst (λ r. IsServing laws (record { world = r.0; handles = r.1 ∷ [] }))
          (ap (init_of (first, g)) (sym made ∙ init)) (with_client-IsServing begun b [] tt) in
      let (c, slot, all) = Steps-IsServing steps serving in
      let (t, dropping, still) = drop_handle-IsServing s before after h e (c, slot, all) in
      (
        (t, dropping),
        (_, _, broadcast_poll-some slab mpsc s.world c slot),
        (_, with_writer-some w (λ x. w.write m x) s.world.slot c slot),
        (_, with_writer-some w (λ x. w.flush x) s.world.slot c slot),
        (some c, ap (broadcast_shutdown w) slot),
      )
