-- ===== src/Broadcast/Tests.antt =====
-- A slab that only grows, channels that hold a bounded number of messages, and two clients.
use websocat.Base.{
  ℕ, suc, zero, ◌+◌, ◌≡◌, refl, ap, Option, none, some, List, [], ◌∷◌, ◌++◌, true, false, Bool,
  Outcome, returns, panics, ◌==◌, ◌⊎◌, inl, inr, Bytes, IoResult, ok, err, would_block, codes,
  length, ltb, if◌then◌else◌, Bool-cases, arith,
}
use websocat.Constructor.{peer}
use websocat.Broadcast.{
  Slab, Sent, ready, not_ready, closed, Received, message, end, nothing, Mpsc, InnerPeer,
  Broadcaster, World, Handle, InnerPoll, Writer, set_channel, broadcast_poll, broadcast_read,
  broadcast_init, broadcast_reuser, makeclient, drop_handle, broadcast_write, broadcast_flush,
  broadcast_shutdown,
}
use websocat.Broadcast.Replaced.{empty_world, resolved, Replacement, broadcast_init-replaces}
use websocat.Broadcast.Delivery.{AreSome, send_each, broadcast_poll-delivers}
use websocat.Broadcast.Reading.{broadcast_read-first}
use websocat.Broadcast.Clients.{Steps, comes, start, next}
use websocat.Broadcast.Handles.{handles-AreSafe}
use websocat.Broadcast.Channels.{SlabLaws, MpscLaws}

abbrev Table : Type 0
Table = List (Option ℕ)

abbrev get : ℕ → Table → Option ℕ
get j [] = none
get zero (x ∷ t) = x
get (suc j) (x ∷ t) = get j t

abbrev clear : ℕ → Table → Table
clear k [] = []
clear zero (x ∷ t) = none ∷ t
clear (suc k) (x ∷ t) = x ∷ clear k t

abbrev senders : Table → List ℕ
senders [] = []
senders (none ∷ t) = senders t
senders (some c ∷ t) = c ∷ senders t

abbrev taken_out : ℕ → Table → Option ℕ → Outcome (Table × ℕ)
taken_out k t none = panics
taken_out k t (some c) = returns (clear k t, c)

abbrev table : Slab Table
table = record {
  empty = [];
  insert = λ c t. (t ++ some c ∷ [], length t);
  remove = λ k t. taken_out k t (get k t);
  senders = senders;
}

get-append : (c : ℕ) (t : Table) → get (length t) (t ++ some c ∷ []) ≡ some c
get-append c [] = refl
get-append c (x ∷ t) = get-append c t

get-append_other :
    (c j : ℕ) (t : Table) → (j == length t) ≡ false → get j (t ++ some c ∷ []) ≡ get j t
get-append_other c zero [] other = ground arith
get-append_other c (suc j) [] other = refl
get-append_other c zero (x ∷ t) other = refl
get-append_other c (suc j) (x ∷ t) other = get-append_other c j t (ground arith)

get-length : (t : Table) → get (length t) t ≡ none
get-length [] = refl
get-length (x ∷ t) = get-length t

get-clear : (k : ℕ) (t : Table) → get k (clear k t) ≡ none
get-clear k [] = refl
get-clear zero (x ∷ t) = refl
get-clear (suc k) (x ∷ t) = get-clear k t

get-clear_other : (k j : ℕ) (t : Table) → (j == k) ≡ false → get j (clear k t) ≡ get j t
get-clear_other k j [] other = refl
get-clear_other zero zero (x ∷ t) other = ground arith
get-clear_other zero (suc j) (x ∷ t) other = refl
get-clear_other (suc k) zero (x ∷ t) other = refl
get-clear_other (suc k) (suc j) (x ∷ t) other = get-clear_other k j t (ground arith)

abbrev table_laws : SlabLaws table
table_laws = record {
  get = get;
  get-empty = λ j. refl;
  get-insert = get-append;
  get-insert_other = get-append_other;
  insert-vacant = λ c t. get-length t;
  insert-same = λ c d t. refl;
  senders-one = λ c. refl;
  remove-vacant = λ k t e. ap (taken_out k t) e;
  remove-taken = λ k c t e.
      (clear k t, ap (taken_out k t) e, get-clear k t, λ j other. get-clear_other k j t other);
}

record Queue : Type 0 where
  capacity : ℕ
  messages : List Bytes
  is_open : Bool

abbrev next_of : Queue → List Bytes → Queue × Received
next_of c [] = (c, if c.is_open then nothing else end)
next_of c (m ∷ ms) = (record c { messages = ms }, message m)

abbrev sent_to : Bool → Bytes → Queue → Queue × Sent
sent_to true m c = (c, not_ready)
sent_to false m c = (record c { messages = c.messages ++ m ∷ [] }, ready)

abbrev queues : Mpsc Queue
queues = record {
  channel = λ n. record { capacity = n; messages = []; is_open = true };
  start_send = λ m c. sent_to (ltb c.capacity (length c.messages)) m c;
  poll_complete = λ c. c;
  poll = λ c. next_of c c.messages;
  drop_sender = λ c. record c { is_open = false };
  drop_receiver = λ c. c;
}

queues-sends :
    (full : Bool) (m : Bytes) (c : Queue)
    → (sent_to full m c).1 ≡ ready
    → (sent_to full m c).0.messages ≡ c.messages ++ m ∷ []
queues-sends true m c e = cc
queues-sends false m c e = refl

queues-refuses :
    (full : Bool) (m : Bytes) (c : Queue)
    → ((sent_to full m c).1 ≡ not_ready) ⊎ ((sent_to full m c).1 ≡ closed)
    → (sent_to full m c).0.messages ≡ c.messages
queues-refuses true m c e = refl
queues-refuses false m c (inl e) = cc
queues-refuses false m c (inr e) = cc

next_of-empty :
    (c : Queue) (ms : List Bytes)
    → c.messages ≡ ms
    → ms ≡ []
    → (((next_of c ms).1 ≡ end) ⊎ ((next_of c ms).1 ≡ nothing)) × ((next_of c ms).0.messages ≡ [])
next_of-empty c [] same e = elim (Bool-cases c.is_open) [
  | inl alive ↦ (inr (rw (alive)), same)
  | inr shut ↦ (inl (rw (shut)), same)
]
next_of-empty c (m ∷ ms) same e = cc

abbrev queues_laws : MpscLaws queues
queues_laws = record {
  contents = λ c. c.messages;
  contents-channel = λ n. refl;
  sends = λ m c. queues-sends (ltb c.capacity (length c.messages)) m c;
  refuses = λ m c. queues-refuses (ltb c.capacity (length c.messages)) m c;
  completes = λ c. refl;
  polls = λ m ms c e. (ap (λ x. (next_of c x).1) e, ap (λ x. (next_of c x).0.messages) e);
  polls-empty = λ c e. next_of-empty c c.messages refl e;
}

abbrev no_channels : ℕ → Queue
no_channels k = record { capacity = 1; messages = []; is_open = false }

abbrev inner : InnerPeer ℕ
inner = record { reads = ok (codes "hello") ∷ ok (codes "a") ∷ err would_block ∷ []; writer = 0 }

broadcast_init-replaces_example :
    (broadcast_reuser table queues 1 (empty_world {W = ℕ} no_channels) ≡ none)
    × Replacement table_laws queues 1 ℕ inner inner no_channels
broadcast_init-replaces_example =
    broadcast_init-replaces table_laws queues 1 ℕ inner inner no_channels

abbrev open_queue : ℕ → Queue
open_queue n = record { capacity = n; messages = []; is_open = true }

abbrev broadcaster : Table → Broadcaster Table ℕ
broadcaster t = record { inner_peer = inner; clients = t }

abbrev one_client : World Table Queue ℕ
one_client = record {
  slot = some (broadcaster (some 0 ∷ []));
  channels = set_channel 0 (open_queue 1) no_channels;
  next_channel = 1;
}

abbrev two_clients : World Table Queue ℕ
two_clients = record {
  slot = some (broadcaster (some 0 ∷ some 1 ∷ []));
  channels = set_channel 1 (open_queue 1) one_client.channels;
  next_channel = 2;
}

broadcast_poll-delivers_example :
    (t : World Table Queue ℕ) × (p : InnerPoll) × (broadcast_poll table queues two_clients
      ≡ returns (t, p))
    × (t.channels 1 ≡ send_each queues (codes "hello" ∷ codes "a" ∷ []) (open_queue 1))
    × ((ks : List Bytes) × AreSome ks (codes "hello" ∷ codes "a" ∷ [])
        × ((t.channels 1).messages ≡ ks))
    × (t.channels 2 ≡ no_channels 2)
broadcast_poll-delivers_example =
    broadcast_poll-delivers table queues queues_laws two_clients
      (broadcaster (some 0 ∷ some 1 ∷ [])) 1 2 (0 ∷ []) [] refl refl (refl, tt) tt
      (refl, (refl, tt))

abbrev filled : Queue
filled = record (open_queue 1) { messages = codes "hello" ∷ codes "a" ∷ codes "b" ∷ [] }

broadcast_read-first_example :
    (d : Queue) × (broadcast_read queues 2 3 filled ≡ some (d, codes "a", ok 1))
    × (d.messages ≡ codes "b" ∷ [])
broadcast_read-first_example =
    broadcast_read-first queues queues_laws 2 3 (codes "hello" ∷ []) (codes "b" ∷ []) (codes "a")
      filled refl (omega arith, tt) (omega arith) (omega arith)

abbrev handle : ℕ → Handle
handle k = record { receiver = k; index = k }

abbrev counter : Writer ℕ
counter = record { write = λ m n. (n + 1, ok (length m)); flush = λ n. (n, ok tt) }

one_more :
    Steps table queues 1
      (record { world = one_client; handles = handle 0 ∷ [] })
      (record { world = two_clients; handles = handle 1 ∷ handle 0 ∷ [] })
unfolding broadcast_reuser makeclient
one_more = next _ _ start (comes _ two_clients (handle 1) refl)

first_client :
    broadcast_init table queues 1 (resolved ℕ inner) (empty_world no_channels)
    ≡ returns (one_client, peer (handle 0))
unfolding broadcast_init makeclient
first_client = refl

handles-AreSafe_example :
    ((t : World Table Queue ℕ) × (drop_handle table queues (handle 0) two_clients ≡ returns t))
    × ((t : World Table Queue ℕ) × (p : InnerPoll) × (broadcast_poll table queues two_clients
          ≡ returns (t, p)))
    × ((r : Option (Broadcaster Table ℕ) × IoResult ℕ) × (broadcast_write counter
            (codes "x")
            two_clients.slot
          ≡ returns r))
    × ((r : Option (Broadcaster Table ℕ) × IoResult (Unit {0})) × (broadcast_flush counter
            two_clients.slot
          ≡ returns r))
    × ((r : Option (Broadcaster Table ℕ)) × (broadcast_shutdown counter two_clients.slot
          ≡ returns r))
handles-AreSafe_example =
    handles-AreSafe table_laws queues 1 inner no_channels counter (codes "x") one_client (handle 0)
      (handle 0) (record { world = two_clients; handles = handle 1 ∷ handle 0 ∷ [] })
      (handle 1 ∷ []) [] first_client one_more refl
