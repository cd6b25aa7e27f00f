-- ===== src/Reuse/Handles.antt =====
-- Clients that come, connections that are made, and calls of handles, in any order.
use websocat.Base.{
  ℕ, suc, ◌<◌, ◌≡◌, refl, sym, ap, ◌∙◌, [], Bool, true, false, Option, none, some, Bytes, IoResult,
  Outcome, returns, panics, arith,
}
use websocat.Constructor.{PeerResult, peer, failed}
use websocat.Reuse.{
  Reuser, default, connection_reuser, initialized, Inner, with_peer, handle_read, handle_write,
  handle_flush, handle_shutdown,
}

-- One event of a reuser.
pub data Step {P : Type 0} (E : Type 0) (i : Inner P) : Reuser P → Reuser P → Type 0 where
  client : (s : Reuser P) → Step E i s (connection_reuser s)
  resolves :
      (s : Reuser P) (n : ℕ) (r : PeerResult P E)
      → s.initializing ≡ suc n
      → Step E i s (initialized n s r)
  reads :
      (s : Reuser P) (b : Bytes) (q : Option P) (a : Bytes × IoResult ℕ)
      → handle_read i b s.slot ≡ returns (q, a)
      → Step E i s (record s { slot = q })
  writes :
      (s : Reuser P) (b : Bytes) (q : Option P) (a : IoResult ℕ)
      → handle_write i b s.slot ≡ returns (q, a)
      → Step E i s (record s { slot = q })
  flushes :
      (s : Reuser P) (q : Option P) (a : IoResult ℕ)
      → handle_flush i s.slot ≡ returns (q, a)
      → Step E i s (record s { slot = q })
  shuts_down :
      (s : Reuser P) (zero_message : Bool) (q : Option P)
      → handle_shutdown i zero_message s.slot ≡ returns q
      → Step E i s (record s { slot = q })

pub data Steps {P : Type 0} (E : Type 0) (i : Inner P) (s : Reuser P) : Reuser P → Type 0 where
  start : Steps E i s s
  next : (t u : Reuser P) → Steps E i s t → Step E i t u → Steps E i s u

abbrev pub IsFilled : {P : Type 0} → Option P → Type 0
IsFilled {P} slot = (x : P) × (slot ≡ some x)

-- Every handle has a peer behind it.
abbrev pub IsServed : {P : Type 0} → Reuser P → Type 0
IsServed s = 0 < s.handles → IsFilled s.slot

-- A peer is there, and no connection is being made.
abbrev pub IsConnected : {P : Type 0} → Reuser P → Type 0
IsConnected s = (s.initializing ≡ 0) × IsFilled s.slot

module _ {P : Type 0} where
  abbrev slot_of : {A : Type 0} → Outcome (Option P × A) → Option P
  slot_of panics = none
  slot_of (returns r) = r.0

  abbrev slot_left : Outcome (Option P) → Option P
  slot_left panics = none
  slot_left (returns q) = q

  with_peer-IsFilled :
      {A : Type 0} (f : P → P × A) (slot q : Option P) (a : A)
      → with_peer f slot ≡ returns (q, a)
      → IsFilled q × IsFilled slot
  unfolding with_peer
  with_peer-IsFilled f none q a e = cc
  with_peer-IsFilled f (some x) q a e = (((f x).0, sym (ap slot_of e)), (x, refl))

  handle_shutdown-IsFilled :
      (i : Inner P) (zero_message : Bool) (slot q : Option P)
      → handle_shutdown i zero_message slot ≡ returns q
      → IsFilled q × IsFilled slot
  unfolding with_peer
  handle_shutdown-IsFilled i true none q e = cc
  handle_shutdown-IsFilled i true (some x) q e =
      (((i.write x []).0, sym (ap slot_left e)), (x, refl))
  handle_shutdown-IsFilled i false none q e = cc
  handle_shutdown-IsFilled i false (some x) q e = ((x, sym (ap slot_left e)), (x, refl))

  connection_reuser-IsServed :
      (slot : Option P) (n h : ℕ)
      → IsServed (record { slot = slot; initializing = n; handles = h })
      → IsServed (connection_reuser (record { slot = slot; initializing = n; handles = h }))
  unfolding connection_reuser
  connection_reuser-IsServed none n h served = served
  connection_reuser-IsServed (some x) n h served = λ _. (x, refl)

  connection_reuser-keeps :
      (slot : Option P) (n h : ℕ)
      → IsFilled slot
      → (connection_reuser (record { slot = slot; initializing = n; handles = h })).initializing ≡ n
        × IsFilled (connection_reuser (record { slot = slot; initializing = n; handles = h })).slot
  unfolding connection_reuser
  connection_reuser-keeps none n h (x, e) = cc
  connection_reuser-keeps (some x) n h filled = (refl, (x, refl))

  filled-IsSafe :
      (i : Inner P) (slot : Option P) (b : Bytes) (zero_message : Bool)
      → IsFilled slot
      → ((r : Option P × (Bytes × IoResult ℕ)) × (handle_read i b slot ≡ returns r))
        × ((r : Option P × IoResult ℕ) × (handle_write i b slot ≡ returns r))
        × ((r : Option P × IoResult ℕ) × (handle_flush i slot ≡ returns r))
        × ((r : Option P) × (handle_shutdown i zero_message slot ≡ returns r))
  unfolding with_peer
  filled-IsSafe i none b z (x, e) = cc
  filled-IsSafe i (some x) b true filled = ((_, refl), (_, refl), (_, refl), (_, refl))
  filled-IsSafe i (some x) b false filled = ((_, refl), (_, refl), (_, refl), (_, refl))

module _ {P E : Type 0} (i : Inner P) where
  initialized-IsServed :
      (n : ℕ) (s : Reuser P) (r : PeerResult P E) → IsServed s → IsServed (initialized n s r)
  unfolding initialized
  initialized-IsServed n s (peer p) served = λ _. (p, refl)
  initialized-IsServed n s (failed e) served = served

  Step-IsServed : {s t : Reuser P} → Step E i s t → IsServed s → IsServed t
  Step-IsServed (client s) served =
      connection_reuser-IsServed s.slot s.initializing s.handles served
  Step-IsServed (resolves s n r e) served = initialized-IsServed n s r served
  Step-IsServed (reads s b q a e) served = λ _. (with_peer-IsFilled _ s.slot q a e).0
  Step-IsServed (writes s b q a e) served = λ _. (with_peer-IsFilled _ s.slot q a e).0
  Step-IsServed (flushes s q a e) served = λ _. (with_peer-IsFilled _ s.slot q a e).0
  Step-IsServed (shuts_down s z q e) served = λ _. (handle_shutdown-IsFilled i z s.slot q e).0

  Steps-IsServed : {s t : Reuser P} → Steps E i s t → IsServed s → IsServed t
  Steps-IsServed start served = served
  Steps-IsServed (next t u steps step) served = Step-IsServed step (Steps-IsServed steps served)

  -- Once a peer has been handed out, no method of a handle comes to its `unreachable!()`, whatever
  -- clients came, connections were made or failed, and handles were used before, in any order.
  pub handles-IsSafe :
      (s : Reuser P) (b : Bytes) (zero_message : Bool)
      → Steps E i default s
      → 0 < s.handles
      → ((r : Option P × (Bytes × IoResult ℕ)) × (handle_read i b s.slot ≡ returns r))
        × ((r : Option P × IoResult ℕ) × (handle_write i b s.slot ≡ returns r))
        × ((r : Option P × IoResult ℕ) × (handle_flush i s.slot ≡ returns r))
        × ((r : Option P) × (handle_shutdown i zero_message s.slot ≡ returns r))
  handles-IsSafe s b zero_message steps some_handle =
      filled-IsSafe i s.slot b zero_message (Steps-IsServed steps (λ lt. grind arith) some_handle)

  Step-IsConnected : {s t : Reuser P} → Step E i s t → IsConnected s → IsConnected t
  Step-IsConnected (client s) (n0, filled) =
      let kept = connection_reuser-keeps s.slot s.initializing s.handles filled in
      (kept.0 ∙ n0, kept.1)
  Step-IsConnected (resolves s n r e) (n0, filled) = grind arith
  Step-IsConnected (reads s b q a e) (n0, filled) = (n0, (with_peer-IsFilled _ s.slot q a e).0)
  Step-IsConnected (writes s b q a e) (n0, filled) = (n0, (with_peer-IsFilled _ s.slot q a e).0)
  Step-IsConnected (flushes s q a e) (n0, filled) = (n0, (with_peer-IsFilled _ s.slot q a e).0)
  Step-IsConnected (shuts_down s z q e) (n0, filled) =
      (n0, (handle_shutdown-IsFilled i z s.slot q e).0)

  -- When a peer is there and no connection is being made, none is ever made again: whatever clients come
  -- and whatever the handles are used for, a peer stays in the slot, and no call of `inner_peer` is under
  -- way.
  pub Steps-IsConnected :
      (s t : Reuser P)
      → Steps E i s t
      → s.initializing ≡ 0
      → IsFilled s.slot
      → (t.initializing ≡ 0) × IsFilled t.slot
  Steps-IsConnected s _ start n0 filled = (n0, filled)
  Steps-IsConnected s _ (next t u steps step) n0 filled =
      Step-IsConnected step (Steps-IsConnected s t steps n0 filled)
