-- ===== src/Broadcast/Delivery.antt =====
-- What each client of `broadcast:` is given, and what its reads make of it.
use websocat.Base.{
  ℕ, ◌≡◌, refl, sym, ap, ◌∙◌, ◌⊎◌, inl, inr, Bool, true, false, some, List, [], ◌∷◌, ◌++◌,
  append_assoc, append-nil, Bytes, IoResult, ok, err, ErrorKind, would_block, returns,
  if◌then◌else◌, ◌==◌, is_empty, All, if-true, if-false, ==_iff,
}
use websocat.Broadcast.{
  Slab, Sent, ready, not_ready, closed, Mpsc, Broadcaster, World, InnerPoll, after_send, send_to,
  send_all, poll_reads, broadcast_poll,
}
use websocat.Broadcast.Channels.{MpscLaws}

-- The messages that a poll reads: up to the end, an error, or a read that would block.
abbrev pub messages_of : List (IoResult Bytes) → List Bytes
messages_of [] = []
messages_of (ok [] ∷ reads) = []
messages_of (ok (b ∷ m) ∷ reads) = (b ∷ m) ∷ messages_of reads
messages_of (err e ∷ reads) = []

-- Some of the messages, in their order.
pub data AreSome : List Bytes → List Bytes → Type 0 where
  no_more : AreSome [] []
  taken : {m : Bytes} {ks ms : List Bytes} → AreSome ks ms → AreSome (m ∷ ks) (m ∷ ms)
  dropped : {m : Bytes} {ks ms : List Bytes} → AreSome ks ms → AreSome ks (m ∷ ms)

abbrev pub AreOthers : ℕ → List ℕ → Type 0
AreOthers k ks = All (λ j. (k == j) ≡ false) ks

module _ {C : Type 0} (mpsc : Mpsc C) where
  -- The messages, sent to one channel.
  abbrev pub send_each : List Bytes → C → C
  send_each [] c = c
  send_each (m ∷ ms) c = send_each ms (send_to mpsc m c)

  send_all-others :
      (m : Bytes) (k : ℕ) (ks : List ℕ) (channels : ℕ → C)
      → AreOthers k ks
      → send_all mpsc m ks channels k ≡ channels k
  unfolding send_all
  send_all-others m k [] channels others = refl
  send_all-others m k (j ∷ ks) channels others =
      send_all-others m k ks _ others.1 ∙ if-false _ _ others.0

  send_all-one :
      (m : Bytes) (k : ℕ) (before after : List ℕ) (channels : ℕ → C)
      → AreOthers k before
      → AreOthers k after
      → send_all mpsc m (before ++ k ∷ after) channels k ≡ send_to mpsc m (channels k)
  unfolding send_all
  send_all-one m k [] after channels b a =
      send_all-others m k after _ a ∙ if-true _ _ ((==_iff k k).1 refl)
  send_all-one m k (j ∷ before) after channels b a =
      send_all-one m k before after _ b.1 a ∙ ap (send_to mpsc m) (if-false _ _ b.0)

  is_empty-middle : (k : ℕ) (before after : List ℕ) → is_empty (before ++ k ∷ after) ≡ false
  is_empty-middle k [] after = refl
  is_empty-middle k (j ∷ before) after = refl

  poll_reads-one :
      (k : ℕ) (before after : List ℕ) (reads : List (IoResult Bytes)) (channels : ℕ → C)
      → AreOthers k before
      → AreOthers k after
      → (poll_reads mpsc (before ++ k ∷ after) reads channels).1 k
        ≡ send_each (messages_of reads) (channels k)
  unfolding poll_reads
  poll_reads-one k before after [] channels b a = refl
  poll_reads-one k before after (ok [] ∷ reads) channels b a = refl
  poll_reads-one k before after (ok (x ∷ m) ∷ reads) channels b a =
      poll_reads-one k before after reads _ b a
      ∙ ap (send_each (messages_of reads)) (
          ap (λ f. f k)
            (if-false channels (send_all mpsc (x ∷ m) (before ++ k ∷ after) channels)
              (is_empty-middle k before after))
          ∙ send_all-one (x ∷ m) k before after channels b a)
  poll_reads-one k before after (err would_block ∷ reads) channels b a = refl
  poll_reads-one k before after (err ErrorKind.broken_pipe ∷ reads) channels b a = refl
  poll_reads-one k before after (err ErrorKind.write_zero ∷ reads) channels b a = refl
  poll_reads-one k before after (err ErrorKind.other ∷ reads) channels b a = refl

  if-same :
      (k : ℕ) (t : Bool) (f g : ℕ → C) (c : C) → f k ≡ c → g k ≡ c → (if t then f else g) k ≡ c
  if-same k true f g c e d = e
  if-same k false f g c e d = d

  poll_reads-others :
      (k : ℕ) (clients : List ℕ) (reads : List (IoResult Bytes)) (channels : ℕ → C)
      → AreOthers k clients
      → (poll_reads mpsc clients reads channels).1 k ≡ channels k
  unfolding poll_reads
  poll_reads-others k clients [] channels others = refl
  poll_reads-others k clients (ok [] ∷ reads) channels others = refl
  poll_reads-others k clients (ok (x ∷ m) ∷ reads) channels others =
      poll_reads-others k clients reads _ others
      ∙ if-same k (is_empty clients) channels _ (channels k) refl
          (send_all-others (x ∷ m) k clients channels others)
  poll_reads-others k clients (err would_block ∷ reads) channels others = refl
  poll_reads-others k clients (err ErrorKind.broken_pipe ∷ reads) channels others = refl
  poll_reads-others k clients (err ErrorKind.write_zero ∷ reads) channels others = refl
  poll_reads-others k clients (err ErrorKind.other ∷ reads) channels others = refl

  module _ (laws : MpscLaws mpsc) where
    -- What one message does to the contents.
    IsSent : Bytes → C → C → Type 0
    IsSent m c d =
        (laws.contents d ≡ laws.contents c ++ m ∷ []) ⊎ (laws.contents d ≡ laws.contents c)

    after_send-IsSent :
        (m : Bytes) (c d : C) (sent : Sent)
        → (sent ≡ ready → laws.contents d ≡ laws.contents c ++ m ∷ [])
        → ((sent ≡ not_ready) ⊎ (sent ≡ closed) → laws.contents d ≡ laws.contents c)
        → IsSent m c (after_send mpsc (d, sent))
    unfolding IsSent
    after_send-IsSent m c d ready takes refuses = inl (laws.completes d ∙ takes refl)
    after_send-IsSent m c d not_ready takes refuses = inr (refuses (inl refl))
    after_send-IsSent m c d closed takes refuses = inr (refuses (inr refl))

    send_each-AreSome :
        (ms : List Bytes) (c : C)
        → (ks : List Bytes) × AreSome ks ms
          × (laws.contents (send_each ms c) ≡ laws.contents c ++ ks)
    unfolding IsSent
    send_each-AreSome [] c = ([], no_more, sym (append-nil (laws.contents c)))
    send_each-AreSome (m ∷ ms) c =
        let (ks, some_of, e) = send_each-AreSome ms (send_to mpsc m c) in
        let r = mpsc.start_send m c in
        elim (after_send-IsSent m c r.0 r.1 (laws.sends m c) (laws.refuses m c)) [
          | inl taken_in ↦ (m ∷ ks, taken some_of, e ∙ rw (taken_in, append_assoc))
          | inr not_in ↦ (ks, dropped some_of, e ∙ ap (λ x. x ++ ks) not_in)
        ]

pub broadcast_poll-some :
    {T C W : Type 0} (slab : Slab T) (mpsc : Mpsc C) (s : World T C W) (b : Broadcaster T W)
    → s.slot ≡ some b
    → let (reads, channels, polled) =
        poll_reads mpsc (slab.senders b.clients) b.inner_peer.reads s.channels in
      broadcast_poll slab mpsc s
      ≡ returns (
        record s {
          slot = some (record b { inner_peer = record b.inner_peer { reads = reads } });
          channels = channels;
        },
        polled,
      )
unfolding broadcast_poll
broadcast_poll-some slab mpsc s b slot = rw (slot)

-- A poll of the inner peer, while there is a broadcaster with the client of channel `k` in its slab once:
-- it returns, and its channel is as if the messages that were read had been sent to it alone, in their
-- order; of these its contents grow by some, those that it took. The channel of no client is as it was.
pub broadcast_poll-delivers :
    {T C W : Type 0} (slab : Slab T) (mpsc : Mpsc C) (laws : MpscLaws mpsc) (s : World T C W)
    (b : Broadcaster T W) (k j : ℕ) (before after : List ℕ)
    → s.slot ≡ some b
    → slab.senders b.clients ≡ before ++ k ∷ after
    → AreOthers k before
    → AreOthers k after
    → AreOthers j (before ++ k ∷ after)
    → (t : World T C W) × (p : InnerPoll) × (broadcast_poll slab mpsc s ≡ returns (t, p))
      × (t.channels k ≡ send_each mpsc (messages_of b.inner_peer.reads) (s.channels k))
      × ((ks : List Bytes) × AreSome ks (messages_of b.inner_peer.reads)
          × (laws.contents (t.channels k) ≡ laws.contents (s.channels k) ++ ks))
      × (t.channels j ≡ s.channels j)
broadcast_poll-delivers slab mpsc laws s b k j before after slot senders b_others a_others j_other =
    let reads = b.inner_peer.reads in
    let one =
      ap (λ ks. (poll_reads mpsc ks reads s.channels).1 k) senders
      ∙ poll_reads-one mpsc k before after reads s.channels b_others a_others in
    let (ks, some_of, e) = send_each-AreSome mpsc laws (messages_of reads) (s.channels k) in
    (
      _,
      _,
      broadcast_poll-some slab mpsc s b slot,
      one,
      (ks, some_of, ap laws.contents one ∙ e),
      ap (λ ks. (poll_reads mpsc ks reads s.channels).1 j) senders
          ∙ poll_reads-others mpsc j (before ++ k ∷ after) reads s.channels j_other,
    )
