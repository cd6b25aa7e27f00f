-- ===== src/Foreachmsg/Tests.antt =====
-- `foreachmsg:` at concrete inputs.
use websocat.Base.{
  ℕ, Bytes, List, ◌≡◌, refl, false, true, none, [], ◌∷◌, codes, ok, err, would_block, returns,
}
use websocat.Reconnect.{connected, refused}
use websocat.Foreachmsg
use websocat.Foreachmsg.{
  shut, closing, absent, SubPeer, idle, State, foreachmsg_peer, foreachmsg_read, foreachmsg_write,
  Written, poll_state, writing_phase,
}
use websocat.Foreachmsg.Stages.{Wrote, IsSending}
use websocat.Foreachmsg.Messages.{foreachmsg_write-Wrote}
use websocat.Foreachmsg.Waiting.{replying, read_all, foreachmsg_read-foreachmsg_write}

-- It takes two bytes, and then the rest.
abbrev sub : SubPeer
sub = record {
  reads = [];
  writes = ok 2 ∷ (err would_block ∷ (ok 9 ∷ []));
  flushes = ok tt ∷ [];
  shutdowns = shut ∷ [];
  written = [];
  is_flushed = false;
  is_shut = false;
}

abbrev start : State
start = record {
  p = none;
  n = none;
  supply = (refused ∷ []) ∷ ((connected sub ∷ []) ∷ []);
  already_warned = false;
  ph = idle;
  finished_reading = false;
  read_waiter = Foreachmsg.absent;
  wait_for_new_peer = Foreachmsg.absent;
  need_wait_for_reading = false;
  dropped = [];
}

start-IsSending : IsSending (codes "hello") start
start-IsSending = record { stage = tt; future = tt; to_come = ((tt, tt), ((refl, tt), tt)) }

-- The first try takes two bytes, and the second one the rest.
foreachmsg_write-twice :
    (t : Written) × (u : Written) × (foreachmsg_write start (codes "hello") ≡ returns t)
    × (foreachmsg_write t.after (codes "hello") ≡ returns u)
    × (t.result ≡ err would_block)
    × (u.result ≡ ok 5)
    × (u.after.dropped
        ≡ record sub {
          writes = [];
          flushes = [];
          shutdowns = [];
          written = codes "hello";
          is_flushed = true;
          is_shut = true;
        }
          ∷ [])
unfolding foreachmsg_write poll_state
foreachmsg_write-twice = (_, _, refl, refl, refl, refl, refl)

foreachmsg_write-Wrote_example : Wrote (codes "hello") [] (foreachmsg_write start (codes "hello"))
foreachmsg_write-Wrote_example = foreachmsg_write-Wrote start (codes "hello") start-IsSending

abbrev one_reply : List (ℕ × Bytes)
one_reply = (b'h', codes "i") ∷ []

foreachmsg_read-foreachmsg_write_example :
    (first second third : Written) × (foreachmsg_write
        (replying none [] false [] closing absent
          (record sub { reads = ok (codes "hi") ∷ ok [] ∷ []; shutdowns = shut ∷ [] }))
        (codes "hello")
      ≡ returns first)
    × (first.result ≡ err would_block)
    × (foreachmsg_write
          (read_all none [] false [] one_reply (codes "abc") first.after)
          (codes "hello")
        ≡ returns second)
    × (second.result ≡ err would_block)
    × ((foreachmsg_read second.after (codes "abc")).result ≡ err would_block)
    × (foreachmsg_read (foreachmsg_read second.after (codes "abc")).after (codes "abc")
        ≡ foreachmsg_read second.after (codes "abc"))
    × (foreachmsg_write (foreachmsg_read second.after (codes "abc")).after (codes "hello")
        ≡ returns third)
    × (third.result ≡ ok 5)
    × (third.after.p ≡ none)
    × (third.after.ph ≡ idle)
    × (third.after.dropped ≡ record sub { shutdowns = []; is_shut = true } ∷ [])
foreachmsg_read-foreachmsg_write_example =
    foreachmsg_read-foreachmsg_write none [] false [] sub [] absent one_reply [] (codes "hello")
      (codes "abc")
