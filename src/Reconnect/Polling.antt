-- ===== src/Reconnect/Polling.antt =====
-- reconnect_peer.rs: `State::poll` answers, and connects at the pace of the delay.
use websocat.Base.{
  ◌*◌, ℕ, suc, zero, ◌+◌, ◌<◌, ◌≤◌, ◌≡◌, refl, Bool, true, false, Option, none, some, List, [], ◌∷◌,
  arith, length,
}
use websocat.Ws.{DelayPoll, fires, waits, fails}
use websocat.Reconnect.{
  FuturePoll, connected, connecting, refused, State, Turned, is_ready, is_not_ready, goes_on,
  after_delay, connect, construct, have_peer, turn, or_again, poll_state,
}

module _ {P : Type 0} where
  -- How many rounds are enough, of a state with `l` futures to come.
  abbrev pub needs : Option P → Option (List (FuturePoll P)) → ℕ → ℕ
  needs (some x) n l = 1
  needs none none l = 2 * l + 2
  needs none (some []) l = 1
  needs none (some (f ∷ fs)) l = 2 * l + 3

  abbrev pub rounds : State P → ℕ
  rounds s = needs s.p s.n (length s.supply)

  abbrev pub having : Option P → ℕ
  having none = 0
  having (some x) = 1

  abbrev pub begun : Option (List (FuturePoll P)) → ℕ
  begun none = 0
  begun (some []) = 0
  begun (some (f ∷ fs)) = 1

  -- Whether a peer may be asked for with no delay before.
  abbrev pub free : Option P → Option (List (FuturePoll P)) → Bool → ℕ
  free none none false = 1
  free none none true = 0
  free none (some f) r = 0
  free (some x) n r = 0

  abbrev pub credit : State P → ℕ
  credit s = free s.p s.n s.ratelimiter

  -- Between the states there are no more attempts to connect than answers of the delay, and those in
  -- credit.
  abbrev pub Paced : State P → State P → Type 0
  Paced s t = length s.supply + length t.delays ≤ length t.supply + length s.delays + credit s

  -- How many peers a state may still have.
  abbrev pub chances : State P → ℕ
  chances s = length s.supply + having s.p + begun s.n

  -- A part of a round, begun with `k` rounds to go, `l` futures to come, and `e` attempts and answers of
  -- the delay in hand.
  abbrev Proceeds : ℕ → ℕ → ℕ → Turned P → Type 0
  Proceeds k l e (is_ready t x) = l + length t.delays ≤ length t.supply + e
  Proceeds k l e (is_not_ready t) = l + length t.delays ≤ length t.supply + e
  Proceeds k l e (goes_on t) =
      (rounds t < k) × (l + length t.delays + credit t ≤ length t.supply + e)

  -- No part of a round adds to the futures or to the chances.
  abbrev Spends : ℕ → ℕ → Turned P → Type 0
  Spends l c (is_ready t x) = (t.p ≡ some x) × (length t.supply ≤ l) × (chances t ≤ c)
  Spends l c (is_not_ready t) = Unit
  Spends l c (goes_on t) = (length t.supply ≤ l) × (chances t ≤ c)

  connect-Proceeds :
      (n : List (FuturePoll P)) (w r : Bool) (l : List (List (FuturePoll P))) (d : List DelayPoll)
      (e : ℕ)
      → length d ≤ e
      → Proceeds (needs none (some n) (length l)) (length l) e (
          connect n (record {
            p = none;
            n = some n;
            already_warned = w;
            ratelimiter = r;
            supply = l;
            delays = d;
          }))
  unfolding connect
  connect-Proceeds [] w r l d e le = omega arith
  connect-Proceeds (connecting ∷ fs) w r l d e le = omega arith
  connect-Proceeds (connected x ∷ fs) w r l d e le = (omega arith, omega arith)
  connect-Proceeds (refused ∷ fs) w r l d e le = (omega arith, omega arith)

  construct-Proceeds :
      (w r : Bool) (l : List (List (FuturePoll P))) (d : List DelayPoll) (e : ℕ)
      → length d + 1 ≤ e
      → Proceeds (needs none none (length l)) (length l) e (
          construct l (record {
            p = none;
            n = none;
            already_warned = w;
            ratelimiter = r;
            supply = l;
            delays = d;
          }))
  unfolding construct
  construct-Proceeds w r [] d e le = (omega arith, omega arith)
  construct-Proceeds w r ([] ∷ l) d e le = (omega arith, omega arith)
  construct-Proceeds w r ((f ∷ fs) ∷ l) d e le = (omega arith, omega arith)

  have_peer-Proceeds :
      (p : Option P) (n : Option (List (FuturePoll P))) (w r : Bool)
      (l : List (List (FuturePoll P))) (d : List DelayPoll) (e : ℕ)
      → length d + free p n false ≤ e
      → Proceeds (needs p n (length l)) (length l) e (
          have_peer p
            (record { p = p; n = n; already_warned = w; ratelimiter = r; supply = l; delays = d }))
  have_peer-Proceeds (some x) n w r l d e le = omega arith
  have_peer-Proceeds none (some n) w r l d e le = connect-Proceeds n w r l d e (omega arith)
  have_peer-Proceeds none none w r l d e le = construct-Proceeds w r l d e le

  free-le :
      (p : Option P) (n : Option (List (FuturePoll P))) → (free p n false ≤ 1) × (free p n true ≡ 0)
  free-le none none = (omega arith, refl)
  free-le none (some f) = (omega arith, refl)
  free-le (some x) n = (omega arith, refl)

  after_delay-Proceeds :
      (r : Bool) (d : List DelayPoll) (p : Option P) (n : Option (List (FuturePoll P))) (w : Bool)
      (l : List (List (FuturePoll P)))
      → Proceeds (needs p n (length l)) (length l) (length d + free p n r) (
          after_delay r
            (λ t. have_peer t.p t)
            (record { p = p; n = n; already_warned = w; ratelimiter = r; supply = l; delays = d }))
  unfolding after_delay
  after_delay-Proceeds false d p n w l = have_peer-Proceeds p n w false l d _ (omega arith)
  after_delay-Proceeds true [] p n w l = omega arith
  after_delay-Proceeds true (waits ∷ d) p n w l = omega arith
  after_delay-Proceeds true (fires ∷ d) p n w l =
      have_peer-Proceeds p n w false l d _ (omega (arith, (free-le p n).0))
  after_delay-Proceeds true (fails ∷ d) p n w l =
      have_peer-Proceeds p n w true l d _ (omega (arith, (free-le p n).0))

  turn-Proceeds :
      (s : State P) → Proceeds (rounds s) (length s.supply) (length s.delays + credit s) (turn s)
  unfolding turn
  turn-Proceeds s = after_delay-Proceeds s.ratelimiter s.delays s.p s.n s.already_warned s.supply

  have_peer-Spends :
      (p : Option P) (n : Option (List (FuturePoll P))) (w r : Bool)
      (l : List (List (FuturePoll P))) (d : List DelayPoll)
      → Spends (length l) (length l + having p + begun n) (
          have_peer p
            (record { p = p; n = n; already_warned = w; ratelimiter = r; supply = l; delays = d }))
  unfolding connect construct
  have_peer-Spends (some x) n w r l d = (refl, omega arith, omega arith)
  have_peer-Spends none (some []) w r l d = tt
  have_peer-Spends none (some (connecting ∷ fs)) w r l d = tt
  have_peer-Spends none (some (connected x ∷ fs)) w r l d = (omega arith, omega arith)
  have_peer-Spends none (some (refused ∷ fs)) w r l d = (omega arith, omega arith)
  have_peer-Spends none none w r [] d = (omega arith, omega arith)
  have_peer-Spends none none w r ([] ∷ l) d = (omega arith, omega arith)
  have_peer-Spends none none w r ((f ∷ fs) ∷ l) d = (omega arith, omega arith)

  after_delay-Spends :
      (r : Bool) (d : List DelayPoll) (p : Option P) (n : Option (List (FuturePoll P))) (w : Bool)
      (l : List (List (FuturePoll P)))
      → Spends (length l) (length l + having p + begun n) (
          after_delay r
            (λ t. have_peer t.p t)
            (record { p = p; n = n; already_warned = w; ratelimiter = r; supply = l; delays = d }))
  unfolding after_delay
  after_delay-Spends false d p n w l = have_peer-Spends p n w false l d
  after_delay-Spends true [] p n w l = tt
  after_delay-Spends true (waits ∷ d) p n w l = tt
  after_delay-Spends true (fires ∷ d) p n w l = have_peer-Spends p n w false l d
  after_delay-Spends true (fails ∷ d) p n w l = have_peer-Spends p n w true l d

  turn-Spends : (s : State P) → Spends (length s.supply) (chances s) (turn s)
  unfolding turn
  turn-Spends s = after_delay-Spends s.ratelimiter s.delays s.p s.n s.already_warned s.supply

  -- The poll has answered: at the pace of the delay, and a peer that is ready is in the state, which has no
  -- more futures and chances than before.
  abbrev pub Answered : State P → Option (Turned P) → Type 0
  Answered s none = ⊥
  Answered s (some (is_ready t x)) =
      (t.p ≡ some x) × Paced s t × (length t.supply ≤ length s.supply) × (chances t ≤ chances s)
  Answered s (some (is_not_ready t)) = Paced s t
  Answered s (some (goes_on t)) = ⊥

  Answered-trans :
      (s t : State P) (r : Option (Turned P))
      → length s.supply + length t.delays + credit t ≤ length t.supply + length s.delays + credit s
      → length t.supply ≤ length s.supply
      → chances t ≤ chances s
      → Answered t r
      → Answered s r
  Answered-trans s t none le l c a = a
  Answered-trans s t (some (is_ready u x)) le l c a = (a.0, omega arith, omega arith, omega arith)
  Answered-trans s t (some (is_not_ready u)) le l c a = omega arith
  Answered-trans s t (some (goes_on u)) le l c a = a

  or_again-Answered :
      (s : State P) (again : State P → Option (Turned P)) (r : Turned P)
      → Proceeds (rounds s) (length s.supply) (length s.delays + credit s) r
      → Spends (length s.supply) (chances s) r
      → ((t : State P) → rounds t < rounds s → Answered t (again t))
      → Answered s (or_again again r)
  or_again-Answered s again (is_ready t x) go spent h =
      (spent.0, omega arith, omega arith, omega arith)
  or_again-Answered s again (is_not_ready t) go spent h = omega arith
  or_again-Answered s again (goes_on t) go spent h =
      Answered-trans s t (again t) (omega arith) (omega arith) (omega arith) (h t go.0)

  needs-pos : (p : Option P) (n : Option (List (FuturePoll P))) (l : ℕ) → 0 < needs p n l
  needs-pos (some x) n l = omega arith
  needs-pos none none l = omega arith
  needs-pos none (some []) l = omega arith
  needs-pos none (some (f ∷ fs)) l = omega arith

  needs-le : (p : Option P) (n : Option (List (FuturePoll P))) (l : ℕ) → needs p n l ≤ 2 * l + 3
  needs-le (some x) n l = omega arith
  needs-le none none l = omega arith
  needs-le none (some []) l = omega arith
  needs-le none (some (f ∷ fs)) l = omega arith

  poll_state-ends : (f : ℕ) (s : State P) → rounds s ≤ f → Answered s (poll_state f s)
  unfolding poll_state
  poll_state-ends zero s le = absurd (omega (arith, needs-pos s.p s.n (length s.supply)))
  poll_state-ends (suc f) s le =
      or_again-Answered s (poll_state f) (turn s) (turn-Proceeds s) (turn-Spends s)
        (λ t lt. poll_state-ends f t (omega arith))

  -- A poll answers, in two rounds for each future to come, and three: it never gives an error. A peer that
  -- is ready is in the state, which has no more futures and chances than before. Attempts to connect
  -- keep pace with the delay: there are no more of them in the poll than answers of the delay, and one if
  -- the poll begins with no peer, no future under way and no delay.
  pub poll_state-Answered :
      (f : ℕ) (s : State P) → 2 * length s.supply + 3 ≤ f → Answered s (poll_state f s)
  poll_state-Answered f s le =
      poll_state-ends f s (omega (arith, needs-le s.p s.n (length s.supply)))
