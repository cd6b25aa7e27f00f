-- ===== src/Foreachmsg/Waiting.antt =====
-- foreachmsg_peer.rs: a write that waits for the replies to its message, and the reader.
use websocat.Base.{
  ℕ, ◌≡◌, refl, ap, false, true, Bool, Option, none, some, List, [], ◌∷◌, ◌++◌, map, length, Bytes,
  IoResult, ok, err, would_block, returns,
}
use websocat.Reconnect.{FuturePoll}
use websocat.Foreachmsg.{
  ShutdownPoll, shut, SubPeer, Phase, closing, idle, waiting_for_read_to_finish, Oneshot, absent,
  waiting, State, foreachmsg_read, foreachmsg_write, Written, close_phase,
}

-- The state of a handle that is to wait for the reader, which has not finished with the peer `x`: in the
-- phase `ph`, with the waiter `w`.
module _ (n : Option (List (FuturePoll SubPeer))) (supply : List (List (FuturePoll SubPeer)))
    (warned : Bool) (gone : List SubPeer) where
  abbrev pub replying : Phase → Oneshot → SubPeer → State
  replying ph w x = record {
    p = some x;
    n = n;
    supply = supply;
    already_warned = warned;
    ph = ph;
    finished_reading = false;
    read_waiter = w;
    wait_for_new_peer = absent;
    need_wait_for_reading = true;
    dropped = gone;
  }

  -- The reads of replies, none of them empty.
  abbrev pub chunk : ℕ × Bytes → IoResult Bytes
  chunk (c, cs) = ok (c ∷ cs)

  abbrev pub read_all : List (ℕ × Bytes) → Bytes → State → State
  read_all [] buf s = s
  read_all (r ∷ replies) buf s = read_all replies buf (foreachmsg_read s buf).after

  read_all-replying :
      (replies : List (ℕ × Bytes)) (buf : Bytes) (x : SubPeer) (rs : List (IoResult Bytes))
      → read_all replies buf (
          replying waiting_for_read_to_finish waiting
            (record x { reads = map chunk replies ++ rs }))
        ≡ replying waiting_for_read_to_finish waiting (record x { reads = rs })
  unfolding foreachmsg_read
  read_all-replying [] buf x rs = refl
  read_all-replying (r ∷ replies) buf x rs = read_all-replying replies buf x rs

  -- A write that shuts its peer down before the reader has finished would block. It would still block
  -- behind the reads of any replies; the reader's end of file releases it: that read would block, the write
  -- then succeeds and lets its peer go, and the reader does not come back to the peer, but would block
  -- until there is a new one.
  pub foreachmsg_read-foreachmsg_write :
      (x : SubPeer) (ss : List ShutdownPoll) (w : Oneshot) (replies : List (ℕ × Bytes))
      (rs : List (IoResult Bytes)) (b buf : Bytes)
      → (first second third : Written) × (foreachmsg_write
            (replying closing w
              (record x { reads = map chunk replies ++ ok [] ∷ rs; shutdowns = shut ∷ ss }))
            b
          ≡ returns first)
        × (first.result ≡ err would_block)
        × (foreachmsg_write (read_all replies buf first.after) b ≡ returns second)
        × (second.result ≡ err would_block)
        × ((foreachmsg_read second.after buf).result ≡ err would_block)
        × (foreachmsg_read (foreachmsg_read second.after buf).after buf
            ≡ foreachmsg_read second.after buf)
        × (foreachmsg_write (foreachmsg_read second.after buf).after b ≡ returns third)
        × (third.result ≡ ok (length b))
        × (third.after.p ≡ none)
        × (third.after.ph ≡ idle)
        × (third.after.dropped
            ≡ gone ++ record x { reads = rs; shutdowns = ss; is_shut = true } ∷ [])
  unfolding foreachmsg_read foreachmsg_write close_phase
  foreachmsg_read-foreachmsg_write x ss w replies rs b buf =
      let closed : SubPeer = record x { shutdowns = ss; is_shut = true } in
      let held : SubPeer → Written = λ y. record {
        after = replying waiting_for_read_to_finish waiting y;
        result = err would_block;
      } in
      (
        held (record closed { reads = map chunk replies ++ ok [] ∷ rs }),
        held (record closed { reads = ok [] ∷ rs }),
        _,
        refl,
        refl,
        ap (λ s. foreachmsg_write s b) (read_all-replying replies buf closed (ok [] ∷ rs)),
        refl,
        refl,
        refl,
        refl,
        refl,
        refl,
        refl,
        refl,
      )
