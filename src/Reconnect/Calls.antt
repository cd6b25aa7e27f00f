-- ===== src/Reconnect/Calls.antt =====
-- reconnect_peer.rs: what a call of a handle gives.
use websocat.Base.{
  ◌*◌, ℕ, suc, zero, ◌+◌, ◌<◌, ◌≤◌, ap, Option, none, some, arith, length, Bytes, IoResult, ok, err,
  would_block, broken_pipe, write_zero, other,
}
use websocat.Reuse.{Inner}
use websocat.Reconnect.{
  State, Turned, is_ready, is_not_ready, goes_on, poll_state, reconnect, Verdict, answers,
  do_reconnect, by_bytes, by_none, Called, by_verdict, with_state, main_loop, reconnect_read,
  reconnect_write, reconnect_flush,
}
use websocat.Reconnect.Polling.{chances, having, Answered, poll_state-Answered}

-- A call has given an answer that is `Good`.
abbrev pub Gives : {P B R : Type 0} → (IoResult R → Type 0) → Option (Called P B R) → Type 0
Gives Good none = ⊥
Gives Good (some c) = Good c.result

abbrev pub Passes : {R : Type 0} → (IoResult R → Type 0) → Verdict R → Type 0
Passes Good (answers r) = Good r
Passes Good do_reconnect = Unit

module _ {P B R : Type 0} (op : P → B → P × B × Verdict R) (Good : IoResult R → Type 0)
    (passes : (x : P) (b : B) → Passes Good (op x b).2) (waiting : Good (err would_block)) where
  by_verdict-Gives :
      (again : State P → B → Option (Called P B R)) (s : State P) (v : P × B × Verdict R)
      → Passes Good v.2
      → ((x : P) → Gives Good (again (reconnect (record s { p = some x })) v.1))
      → Gives Good (by_verdict op again s v)
  by_verdict-Gives again s (x, b, answers r) good h = good
  by_verdict-Gives again s (x, b, do_reconnect) good h = h x

  with_state-Gives :
      (again : State P → B → Option (Called P B R)) (b : B) (s : State P) (r : Option (Turned P))
      → Answered s r
      → ((t : State P) (c : B)
          → length t.supply ≤ length s.supply
          → chances t < chances s
          → Gives Good (again t c))
      → Gives Good (with_state op again b r)
  with_state-Gives again b s none a h = a
  with_state-Gives again b s (some (is_not_ready t)) a h = waiting
  with_state-Gives again b s (some (goes_on t)) a h = a
  with_state-Gives again b s (some (is_ready t x)) a h =
      by_verdict-Gives again t (op x b) (passes x b)
        (λ y. h (reconnect (record t { p = some y })) _ a.2 (omega (arith, ap having a.0)))

  main_loop-Gives :
      (f g : ℕ) (s : State P) (b : B)
      → chances s < f
      → 2 * length s.supply + 3 ≤ g
      → Gives Good (main_loop op f g s b)
  unfolding main_loop
  main_loop-Gives zero g s b lt le = absurd (omega arith)
  main_loop-Gives (suc f) g s b lt le =
      with_state-Gives (main_loop op f g) b s (poll_state g s) (poll_state-Answered g s le)
        (λ t c fewer less. main_loop-Gives f g t c (omega arith) (omega arith))

-- No end of file, and no error but that the call would block.
abbrev pub IsLively : IoResult ℕ → Type 0
IsLively (ok zero) = ⊥
IsLively (ok (suc n)) = Unit
IsLively (err would_block) = Unit
IsLively (err broken_pipe) = ⊥
IsLively (err write_zero) = ⊥
IsLively (err other) = ⊥

-- No error but that the call would block.
abbrev pub IsQuiet : IoResult ℕ → Type 0
IsQuiet (ok n) = Unit
IsQuiet (err would_block) = Unit
IsQuiet (err broken_pipe) = ⊥
IsQuiet (err write_zero) = ⊥
IsQuiet (err other) = ⊥

by_bytes-IsLively : (r : IoResult ℕ) → Passes IsLively (by_bytes r)
by_bytes-IsLively (ok zero) = tt
by_bytes-IsLively (ok (suc n)) = tt
by_bytes-IsLively (err would_block) = tt
by_bytes-IsLively (err broken_pipe) = tt
by_bytes-IsLively (err write_zero) = tt
by_bytes-IsLively (err other) = tt

by_none-IsQuiet : (r : IoResult ℕ) → Passes IsQuiet (by_none r)
by_none-IsQuiet (ok n) = tt
by_none-IsQuiet (err would_block) = tt
by_none-IsQuiet (err broken_pipe) = tt
by_none-IsQuiet (err write_zero) = tt
by_none-IsQuiet (err other) = tt

-- Whatever becomes of the inner peers, a read, a write and a flush of a reconnecting peer answer, and never
-- with an end of file or an error other than that they would block: one peer more than the state may still
-- have, and two rounds for each future to come and three, are enough.
pub reconnect-IsLively :
    {P : Type 0} (i : Inner P) (f g : ℕ) (s : State P) (buf : Bytes)
    → chances s < f
    → 2 * length s.supply + 3 ≤ g
    → Gives IsLively (reconnect_read i f g s buf)
      × Gives IsLively (reconnect_write i f g s buf)
      × Gives IsQuiet (reconnect_flush i f g s tt)
unfolding reconnect_read reconnect_write reconnect_flush
reconnect-IsLively i f g s buf lt le = (
  main_loop-Gives _ IsLively (λ x b. by_bytes-IsLively (i.read x b).1.1) tt f g s buf lt le,
  main_loop-Gives _ IsLively (λ x b. by_bytes-IsLively (i.write x b).1) tt f g s buf lt le,
  main_loop-Gives _ IsQuiet (λ x b. by_none-IsQuiet (i.flush x).1) tt f g s tt lt le,
)
