-- ===== src/Reconnect/Tests.antt =====
-- A reconnecting peer over inner peers that end after some reads.
use websocat.Base.{ℕ, suc, zero, ◌-◌, ◌≡◌, refl, true, false, some, none, [], ◌∷◌, arith, ok, codes}
use websocat.Reuse.{Inner}
use websocat.Ws.{fires}
use websocat.Reconnect.{
  connected, refused, State, autoreconnector, poll_state, reconnect_read, reconnect_write,
  reconnect_flush,
}
use websocat.Reconnect.Polling.{Answered, poll_state-Answered}
use websocat.Reconnect.Calls.{Gives, IsLively, IsQuiet, reconnect-IsLively}

-- A peer is how many of its reads have a byte.
abbrev candle : Inner ℕ
candle = record {
  read = λ n b. (n - 1, (b, (elim n [ zero ↦ ok 0 | suc m ↦ ok 1 ])));
  write = λ n b. (n, ok 1);
  flush = λ n. (n, ok 0);
}

-- The first attempt is refused, the second has a peer at its end, the third a good one.
abbrev lit : State ℕ
unfolding autoreconnector
lit =
    autoreconnector ((refused ∷ []) ∷ ((connected 0 ∷ []) ∷ ((connected 2 ∷ []) ∷ []))) (fires ∷ [])

reconnect_read-lit :
    reconnect_read candle 4 9 lit (codes "a")
    ≡ some (record {
      after = record {
        p = some 1;
        n = none;
        already_warned = true;
        ratelimiter = false;
        supply = [];
        delays = [];
      };
      buf = codes "a";
      result = ok 1;
    })
unfolding reconnect_read autoreconnector
reconnect_read-lit = refl

poll_state-Answered_example : Answered lit (poll_state 9 lit)
unfolding autoreconnector
poll_state-Answered_example = poll_state-Answered 9 lit (omega arith)

reconnect-IsLively_example :
    Gives IsLively (reconnect_read candle 4 9 lit (codes "a"))
    × Gives IsLively (reconnect_write candle 4 9 lit (codes "a"))
    × Gives IsQuiet (reconnect_flush candle 4 9 lit tt)
unfolding autoreconnector
reconnect-IsLively_example =
    reconnect-IsLively candle 4 9 lit (codes "a") (omega arith) (omega arith)
