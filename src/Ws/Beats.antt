-- ===== src/Ws/Beats.antt =====
-- ws_peer.rs: the pinger goes on until it is aborted.
use websocat.Base.{
  ◌≡◌, refl, sym, ap, ◌∙◌, List, [], ◌∷◌, ◌++◌, append_assoc, append-nil, map, Bytes,
}
use websocat.Ws.{
  OwnedMessage, ping, SendReply, taken, CompleteReply, complete, Sink, start_send, poll_complete,
}
use websocat.Ws.Pinger.{
  PingTurn, WsPingerState, aborted, quiet, tick, idle, waiting_for_timer, start_sending,
  poll_completing, ready, ping_poll,
}

-- One beat of the timer, with the time stamp at which its ping is sent.
abbrev pub beat : Bytes → List PingTurn → List PingTurn
beat stamp ts =
    record { aborter = quiet; timer = tick; timestamp = stamp }
    ∷ (record { aborter = quiet; timer = idle; timestamp = stamp }
        ∷ (record { aborter = quiet; timer = idle; timestamp = stamp } ∷ ts))

abbrev pub beats : List Bytes → List PingTurn → List PingTurn
beats [] ts = ts
beats (stamp ∷ stamps) ts = beat stamp (beats stamps ts)

-- A sink that takes and completes as many messages as there are stamps, and answers `rs` and `cs` then.
abbrev pub willing : List Bytes → List SendReply → List CompleteReply → List OwnedMessage → Sink
willing [] rs cs sent = record { sends = rs; completes = cs; sent = sent }
willing (stamp ∷ stamps) rs cs sent = record {
  sends = taken ∷ (willing stamps rs cs sent).sends;
  completes = complete ∷ (willing stamps rs cs sent).completes;
  sent = (willing stamps rs cs sent).sent;
}

willing-sent :
    (stamps : List Bytes) (rs : List SendReply) (cs : List CompleteReply) (sent : List OwnedMessage)
    → (willing stamps rs cs sent).sent ≡ sent
willing-sent [] rs cs sent = refl
willing-sent (stamp ∷ stamps) rs cs sent = willing-sent stamps rs cs sent

willing-more :
    (stamps : List Bytes) (rs : List SendReply) (cs : List CompleteReply)
    (sent more : List OwnedMessage)
    → record (willing stamps rs cs sent) { sent = more } ≡ willing stamps rs cs more
willing-more [] rs cs sent more = refl
willing-more (stamp ∷ stamps) rs cs sent more =
    ap (λ z. record { sends = taken ∷ z.sends; completes = complete ∷ z.completes; sent = z.sent })
      (willing-more stamps rs cs sent more)

beat-ping_poll :
    (stamp : Bytes) (ts : List PingTurn) (sink : Sink)
    → ping_poll (beat stamp ts) (record {
      st = waiting_for_timer;
      si = record {
        sends = taken ∷ sink.sends;
        completes = complete ∷ sink.completes;
        sent = sink.sent;
      };
    })
      ≡ ping_poll ts (record {
        st = waiting_for_timer;
        si = record sink { sent = sink.sent ++ ping stamp ∷ [] };
      })
unfolding ping_poll start_send poll_complete
beat-ping_poll stamp ts sink = refl

beats-ping_poll :
    (stamps : List Bytes) (ts : List PingTurn) (rs : List SendReply) (cs : List CompleteReply)
    (sent : List OwnedMessage)
    → ping_poll
        (beats stamps ts)
        (record { st = waiting_for_timer; si = willing stamps rs cs sent })
      ≡ ping_poll ts (record {
        st = waiting_for_timer;
        si = record { sends = rs; completes = cs; sent = sent ++ map ping stamps };
      })
beats-ping_poll [] ts rs cs sent =
    ap
      (λ z.
        ping_poll ts
          (record { st = waiting_for_timer; si = record { sends = rs; completes = cs; sent = z } }))
      (sym (append-nil sent))
beats-ping_poll (stamp ∷ stamps) ts rs cs sent =
    beat-ping_poll stamp (beats stamps ts) (willing stamps rs cs sent)
    ∙ ap (λ z. ping_poll (beats stamps ts) (record { st = waiting_for_timer; si = z }))
        (ap (λ z. record (willing stamps rs cs sent) { sent = z ++ ping stamp ∷ [] })
            (willing-sent stamps rs cs sent)
          ∙ willing-more stamps rs cs sent (sent ++ ping stamp ∷ []))
    ∙ beats-ping_poll stamps ts rs cs (sent ++ ping stamp ∷ [])
    ∙ ap
        (λ z.
          ping_poll ts (record {
            st = waiting_for_timer;
            si = record { sends = rs; completes = cs; sent = z };
          }))
        (append_assoc sent (ping stamp ∷ []) (map ping stamps))

-- The turns of a beat that take the pinger from the timer to a state.
abbrev pub part_of_beat : WsPingerState → Bytes → List PingTurn → List PingTurn
part_of_beat waiting_for_timer stamp ts = ts
part_of_beat start_sending stamp ts =
    record { aborter = quiet; timer = tick; timestamp = stamp } ∷ ts
part_of_beat poll_completing stamp ts =
    record { aborter = quiet; timer = tick; timestamp = stamp }
    ∷ (record { aborter = quiet; timer = idle; timestamp = stamp } ∷ ts)

-- What the sink answers and gets in these turns.
abbrev pub sends_of_part : WsPingerState → List SendReply → List SendReply
sends_of_part waiting_for_timer rs = rs
sends_of_part start_sending rs = rs
sends_of_part poll_completing rs = taken ∷ rs

abbrev pub sent_in_part : WsPingerState → Bytes → List OwnedMessage
sent_in_part waiting_for_timer stamp = []
sent_in_part start_sending stamp = []
sent_in_part poll_completing stamp = ping stamp ∷ []

part-aborted :
    (st : WsPingerState) (stamp : Bytes) (t : PingTurn) (ts : List PingTurn) (rs : List SendReply)
    (cs : List CompleteReply) (sent : List OwnedMessage)
    → t.aborter ≡ aborted
    → ping_poll (part_of_beat st stamp (t ∷ ts)) (record {
      st = waiting_for_timer;
      si = record { sends = sends_of_part st rs; completes = cs; sent = sent };
    })
      ≡ ready (record {
        st = st;
        si = record { sends = rs; completes = cs; sent = sent ++ sent_in_part st stamp };
      })
unfolding ping_poll start_send
part-aborted waiting_for_timer stamp t ts rs cs sent e = rw (e, append-nil sent)
part-aborted start_sending stamp t ts rs cs sent e = rw (e, append-nil sent)
part-aborted poll_completing stamp t ts rs cs sent e = rw e

-- As long as it is not aborted, the timer beats, and the sink takes and completes what is sent, the pinger
-- sends one ping for each beat, with the time stamp of the moment, and goes on. When it is aborted, in
-- whichever state it is then (at the timer, before a ping is sent, or before it is completed), it ends, and
-- sends no other.
pub ping_poll-beats :
    (stamps : List Bytes) (st : WsPingerState) (stamp : Bytes) (t : PingTurn) (ts : List PingTurn)
    (rs : List SendReply) (cs : List CompleteReply) (sent : List OwnedMessage)
    → t.aborter ≡ aborted
    → ping_poll
        (beats stamps (part_of_beat st stamp (t ∷ ts)))
        (record { st = waiting_for_timer; si = willing stamps (sends_of_part st rs) cs sent })
      ≡ ready (record {
        st = st;
        si = record {
          sends = rs;
          completes = cs;
          sent = (sent ++ map ping stamps) ++ sent_in_part st stamp;
        };
      })
ping_poll-beats stamps st stamp t ts rs cs sent e =
    beats-ping_poll stamps (part_of_beat st stamp (t ∷ ts)) (sends_of_part st rs) cs sent
    ∙ part-aborted st stamp t ts rs cs (sent ++ map ping stamps) e
