-- ===== src/Ws/Pinger.antt =====
-- `WsPinger`: the task that sends a ping at each tick of a timer.
use websocat.Base.{List, [], ◌∷◌, Bytes}
use websocat.Ws.{
  ping, SendReply, taken, refused, CompleteReply, complete, pending, Sink, start_send,
  poll_complete,
}

pub data WsPingerState : Type 0 where
  waiting_for_timer start_sending poll_completing : WsPingerState

pub data AborterPoll : Type 0 where
  aborted quiet broken : AborterPoll

pub data TimerPoll : Type 0 where
  tick idle ended broken : TimerPoll

-- What a turn of the loop meets: the aborter, the timer, and the time stamp of a ping sent now.
pub record PingTurn : Type 0 where
  pub aborter : AborterPoll
  pub timer : TimerPoll
  pub timestamp : Bytes

pub record WsPinger : Type 0 where
  pub st : WsPingerState
  pub si : Sink

-- A poll is not ready, or ready: the task has ended.
pub data Pinged : Type 0 where
  not_ready : WsPinger → Pinged
  ready : WsPinger → Pinged

-- `WsPinger::new`
unfoldable pub new_pinger : Sink → WsPinger
new_pinger sink = record { st = waiting_for_timer; si = sink }

abbrev pub at_timer : (WsPinger → Pinged) → WsPinger → TimerPoll → Pinged
at_timer again p tick = again (record p { st = start_sending })
at_timer again p idle = not_ready p
at_timer again p ended = ready p
at_timer again p TimerPoll.broken = ready p

abbrev pub at_send : (WsPinger → Pinged) → WsPinger → Sink × SendReply → Pinged
at_send again p (sink, taken) = again (record { st = poll_completing; si = sink })
at_send again p (sink, refused) = not_ready (record p { si = sink })
at_send again p (sink, SendReply.broken) = ready (record p { si = sink })

abbrev pub at_complete : (WsPinger → Pinged) → WsPinger → Sink × CompleteReply → Pinged
at_complete again p (sink, complete) = again (record { st = waiting_for_timer; si = sink })
at_complete again p (sink, pending) = not_ready (record p { si = sink })
at_complete again p (sink, CompleteReply.broken) = ready (record p { si = sink })

abbrev pub in_state : (WsPinger → Pinged) → PingTurn → WsPingerState → WsPinger → Pinged
in_state again t waiting_for_timer p = at_timer again p t.timer
in_state again t start_sending p = at_send again p (start_send p.si (ping t.timestamp))
in_state again t poll_completing p = at_complete again p (poll_complete p.si)

-- An aborter in error is only warned of.
abbrev pub unless_aborted : AborterPoll → WsPinger → Pinged → Pinged
unless_aborted aborted p rest = ready p
unless_aborted quiet p rest = rest
unless_aborted AborterPoll.broken p rest = rest

-- `impl Future for WsPinger`; with no further turn known the timer is idle.
unfoldable pub ping_poll : List PingTurn → WsPinger → Pinged
unfolding start_send poll_complete
ping_poll [] p = not_ready p
ping_poll (t ∷ ts) p = unless_aborted t.aborter p (in_state (ping_poll ts) t p.st p)
