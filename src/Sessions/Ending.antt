-- ===== src/Sessions/Ending.antt =====
-- What ends a session, told from all that happened to it.
use websocat.Base.{◌≡◌, refl, List, [], ◌∷◌, ◌++◌, Bool, true, false, ◌&&◌, ◌||◌, IoResult, arith}
use websocat.Sessions.{
  SessionOptions, SessionEvent, forward, reverse, hup, Progress, ends, lasts, session_event,
  run_from, run, copy_options, Peer, new_session,
}

abbrev any : (SessionEvent → Bool) → List SessionEvent → Bool
any test [] = false
any test (e ∷ es) = test e || any test es

-- A peer has hung up, or a direction has failed.
abbrev is_decisive : SessionEvent → Bool
is_decisive (forward (IoResult.ok u)) = false
is_decisive (reverse (IoResult.ok u)) = false
is_decisive e = true

abbrev is_forward : SessionEvent → Bool
is_forward (forward (IoResult.ok u)) = true
is_forward e = false

abbrev is_reverse : SessionEvent → Bool
is_reverse (reverse (IoResult.ok u)) = true
is_reverse e = false

-- A direction has finished well, where one is enough, or both have.
abbrev have_finished : Bool → Bool → Bool → Bool
have_finished exit_on_eof f r = (exit_on_eof && (f || r)) || (f && r)

abbrev is_over_from : Bool → Bool → Bool → List SessionEvent → Bool
is_over_from exit_on_eof f r es =
    any is_decisive es
    || have_finished exit_on_eof (f || any is_forward es) (r || any is_reverse es)

abbrev pub is_over : SessionOptions → List SessionEvent → Bool
is_over o es = is_over_from o.exit_on_eof false false es

abbrev pub result_of : SessionEvent → IoResult (Unit {0})
result_of (forward r) = r
result_of (reverse r) = r
result_of (hup r) = r

lasts_lem :
    (x f r : Bool) (es : List SessionEvent)
    → is_over_from x f r es ≡ false
    → (p : Progress) × (run_from x (record { forward_done = f; reverse_done = r }) es ≡ lasts p)
unfolding run_from session_event
lasts_lem x f r [] e = (_, refl)
lasts_lem x f r (hup h ∷ es) e = cc
lasts_lem x f r (forward (IoResult.err h) ∷ es) e = cc
lasts_lem x f r (reverse (IoResult.err h) ∷ es) e = cc
lasts_lem false f false (forward (IoResult.ok u) ∷ es) e =
    lasts_lem false true false es (ground arith)
lasts_lem false f true (forward (IoResult.ok u) ∷ es) e = ground arith
lasts_lem true f r (forward (IoResult.ok u) ∷ es) e = ground arith
lasts_lem false false r (reverse (IoResult.ok u) ∷ es) e =
    lasts_lem false false true es (ground arith)
lasts_lem false true r (reverse (IoResult.ok u) ∷ es) e = ground arith
lasts_lem true f r (reverse (IoResult.ok u) ∷ es) e = ground arith

ends_lem :
    (x f r : Bool) (es rest : List SessionEvent) (e : SessionEvent)
    → is_over_from x f r es ≡ false
    → is_over_from x f r (es ++ e ∷ []) ≡ true
    → run_from x (record { forward_done = f; reverse_done = r }) (es ++ e ∷ rest)
      ≡ ends (result_of e)
unfolding run_from session_event
ends_lem x f r [] rest (hup h) before after = refl
ends_lem x f r [] rest (forward (IoResult.err h)) before after = refl
ends_lem x f r [] rest (reverse (IoResult.err h)) before after = refl
ends_lem x f r [] rest (forward (IoResult.ok u)) before after = ground arith
ends_lem x f r [] rest (reverse (IoResult.ok u)) before after = ground arith
ends_lem x f r (hup h ∷ es) rest d before after = cc
ends_lem x f r (forward (IoResult.err h) ∷ es) rest d before after = cc
ends_lem x f r (reverse (IoResult.err h) ∷ es) rest d before after = cc
ends_lem false f false (forward (IoResult.ok u) ∷ es) rest d before after =
    ends_lem false true false es rest d (ground arith) (ground arith)
ends_lem false f true (forward (IoResult.ok u) ∷ es) rest d before after = ground arith
ends_lem true f r (forward (IoResult.ok u) ∷ es) rest d before after = ground arith
ends_lem false false r (reverse (IoResult.ok u) ∷ es) rest d before after =
    ends_lem false false true es rest d (ground arith) (ground arith)
ends_lem false true r (reverse (IoResult.ok u) ∷ es) rest d before after = ground arith
ends_lem true f r (reverse (IoResult.ok u) ∷ es) rest d before after = ground arith

-- A session lasts as long as no peer has hung up, no direction has failed, and not both directions have
-- finished, or, with `exit_on_eof`, neither has. It ends at the first event that changes this, with the
-- result of that event, whatever would happen later.
pub run-ends :
    (o : SessionOptions) (es rest : List SessionEvent) (e : SessionEvent)
    → is_over o es ≡ false
    → is_over o (es ++ e ∷ []) ≡ true
    → ((p : Progress) × (run o es ≡ lasts p)) × (run o (es ++ e ∷ rest) ≡ ends (result_of e))
unfolding run
run-ends o es rest e before after = (
  lasts_lem o.exit_on_eof false false es before,
  ends_lem o.exit_on_eof false false es rest e before after,
)

abbrev pub reversed : SessionOptions → SessionOptions
reversed o = record o {
  max_messages = o.max_messages_rev;
  max_messages_rev = o.max_messages;
  unidirectional = o.unidirectional_reverse;
  unidirectional_reverse = o.unidirectional;
}

-- A session of the peers the other way round, with the options of the two directions exchanged, has the
-- same two copies, in the other order, with the same options, and waits for the same hang-ups.
pub new_session-swaps :
    {R W H : Type 0} (o : SessionOptions) (p q : Peer R W H)
    → ((new_session q p).t1 ≡ (new_session p q).t2)
      × ((new_session q p).t2 ≡ (new_session p q).t1)
      × ((new_session q p).hup1 ≡ (new_session p q).hup2)
      × ((copy_options (reversed o)).0 ≡ (copy_options o).1)
      × ((copy_options (reversed o)).1 ≡ (copy_options o).0)
unfolding new_session copy_options
new_session-swaps o p q = (refl, refl, refl, refl, refl)
