-- ===== src/Sessions.antt =====
-- sessionserve.rs, and the left-to-right data of specifier.rs and lib.rs: connections are accepted, each
-- with left-to-right data of its own, and become sessions of two copies.
pub mod Isolation
pub mod Steps
pub mod Kept
pub mod Running
pub mod Ending
mod Tests
use websocat.Base.{
  ℕ, suc, zero, ◌+◌, ◌-◌, Bool, true, false, not, ◌||◌, ◌&&◌, Option, none, some, List, [], ◌∷◌,
  ◌++◌, ltb, ◌==◌, if◌then◌else◌, Bytes, IoResult, Outcome, returns, panics,
}
use websocat.Copy.{CopyOptions}

pub record LeftSpecToRightSpec : Type 0 where
  pub uri : Option Bytes
  pub client_addr : Option Bytes
  pub headers : List (Bytes × Bytes)

abbrev pub default_l2r : LeftSpecToRightSpec
default_l2r = record { uri = none; client_addr = none; headers = [] }

-- The cells of the `Rc<RefCell<_>>`s, and the number of the next one.
pub record Cells : Type 0 where
  pub cell : ℕ → LeftSpecToRightSpec
  pub next : ℕ

abbrev pub set_cell : ℕ → LeftSpecToRightSpec → Cells → Cells
set_cell k v c = record c { cell = λ j. if j == k then v else c.cell j }

abbrev pub new_cell : LeftSpecToRightSpec → Cells → Cells
new_cell v c = record (set_cell c.next v c) { next = suc c.next }

-- A writer is a cell; a reader is a copy that does not change.
pub data L2rUser : Type 0 where
  fill_in : ℕ → L2rUser
  read_from : LeftSpecToRightSpec → L2rUser

-- `ConstructParams::reset_l2r`
unfoldable pub reset_l2r : L2rUser → Cells → Outcome Cells
reset_l2r (fill_in k) c = returns (set_cell k default_l2r c)
reset_l2r (read_from v) c = panics

-- `ConstructParams::reply`, as it changes `left_to_right`.
unfoldable pub reply : L2rUser → Cells → Outcome L2rUser
reply (fill_in k) c = returns (read_from (c.cell k))
reply (read_from v) c = panics

-- `ConstructParams::deep_clone`, likewise.
unfoldable pub deep_clone : L2rUser → Cells → Outcome (Cells × L2rUser)
deep_clone (fill_in k) c = returns (new_cell (c.cell k) c, fill_in c.next)
deep_clone (read_from v) c = panics

-- A connection that is served: its left-to-right data, and, to tell them from those of others, `own`: the
-- data that were written for it.
pub record Connection : Type 0 where
  pub l2r : L2rUser
  pub own : LeftSpecToRightSpec

-- `serve_impl` of a left side that serves many: `cp` is the `left_to_right` of its parameters, and
-- `refused` counts the connections that the cap drops.
pub record Server : Type 0 where
  pub cells : Cells
  pub cp : L2rUser
  pub max_parallel_conns : Option ℕ
  pub current_parallel_conns : ℕ
  pub running : List Connection
  pub refused : ℕ

-- `l2r_new`, and the parameters made of it.
unfoldable pub serve_impl : Option ℕ → Server
serve_impl cap = record {
  cells = record { cell = λ k. default_l2r; next = 1 };
  cp = fill_in 0;
  max_parallel_conns = cap;
  current_parallel_conns = 0;
  running = [];
  refused = 0;
}

-- `if let Some(cap) = max_parallel_conns { if cpc > cap { ... } }`
abbrev pub over_cap : Option ℕ → ℕ → Bool
over_cap none cpc = false
over_cap (some cap) cpc = ltb cap cpc

-- What is shared by the two closures, behind the clone for the connection.
abbrev pub accepted : Server → LeftSpecToRightSpec → Outcome (Cells × L2rUser) → Outcome Server
accepted s own panics = panics
accepted s own (returns (cells, l2r)) = elim (reset_l2r s.cp cells) [
  | panics ↦ panics
  | returns cells' ↦ returns (record s {
    cells = cells';
    current_parallel_conns = s.current_parallel_conns + 1;
    running = s.running ++ record { l2r = l2r; own = own } ∷ [];
  })
]

abbrev pub with_cells : Cells → Outcome L2rUser → Outcome (Cells × L2rUser)
with_cells c panics = panics
with_cells c (returns l) = returns (c, l)

-- The data in a user's hands.
abbrev pub view : Cells → L2rUser → LeftSpecToRightSpec
view c (fill_in k) = c.cell k
view c (read_from v) = v

-- The closure of `ServeMultipleTimes` on a new peer.
unfoldable pub accept_plain : Server → Outcome Server
unfolding reply reset_l2r
accept_plain s =
    if over_cap s.max_parallel_conns (s.current_parallel_conns + 1)
    then returns (record s { refused = s.refused + 1 })
    else accepted s (view s.cells s.cp) (with_cells s.cells (reply s.cp s.cells))

-- The closure of `OverlayM` on a new underlying peer.
unfoldable pub accept_overlay : Server → Outcome Server
unfolding deep_clone reset_l2r
accept_overlay s =
    if over_cap s.max_parallel_conns (s.current_parallel_conns + 1)
    then returns (record s { refused = s.refused + 1 })
    else accepted s (view s.cells s.cp) (deep_clone s.cp s.cells)

-- What writes to a user's data do; a reader's are never written.
abbrev pub fill_l2r : L2rUser → LeftSpecToRightSpec → Cells → Cells
fill_l2r (fill_in k) v c = set_cell k v c
fill_l2r (read_from w) v c = c

-- `.then(move |r| { cpc2.set(cpc2.get() - 1); ... })`; the session is gone.
abbrev pub end_session : List Connection → List Connection → Server → Server
end_session before after s = record s {
  running = before ++ after;
  current_parallel_conns = s.current_parallel_conns - 1;
}

-- The options of a session that `Session::run` reads.
pub record SessionOptions : Type 0 where
  pub one_message : Bool
  pub no_exit_on_zeromsg : Bool
  pub buffer_size : ℕ
  pub max_messages : Option ℕ
  pub max_messages_rev : Option ℕ
  pub unidirectional : Bool
  pub unidirectional_reverse : Bool
  pub exit_on_eof : Bool

-- The options of the two copies, forward and reverse.
unfoldable pub copy_options : SessionOptions → CopyOptions × CopyOptions
copy_options o = (
  record {
    stop_on_reader_zero_read = not o.no_exit_on_zeromsg;
    once = o.one_message;
    buffer_size = o.buffer_size;
    skip = o.unidirectional_reverse;
    max_ops = o.max_messages;
  },
  record {
    stop_on_reader_zero_read = not o.no_exit_on_zeromsg;
    once = o.one_message;
    buffer_size = o.buffer_size;
    skip = o.unidirectional;
    max_ops = o.max_messages_rev;
  },
)

-- A peer's reader, writer and hup token, and `Session::new`.
pub record Peer (R W H : Type 0) : Type 0 where
  pub reader : R
  pub writer : W
  pub hup : Option H

pub record Session (R W H : Type 0) : Type 0 where
  pub t1 : R × W
  pub t2 : R × W
  pub hup1 : Option H
  pub hup2 : Option H

unfoldable pub new_session : {R W H : Type 0} → Peer R W H → Peer R W H → Session R W H
new_session peer1 peer2 = record {
  t1 = (peer1.reader, peer2.writer);
  t2 = (peer2.reader, peer1.writer);
  hup1 = peer1.hup;
  hup2 = peer2.hup;
}

-- What happens to a running session: a direction has finished, with its shutdown, or a peer hangs up; each
-- well or with an error.
pub data SessionEvent : Type 0 where
  forward reverse hup : IoResult (Unit {0}) → SessionEvent

-- What a session waits for: the directions that have finished.
pub record Progress : Type 0 where
  pub forward_done : Bool
  pub reverse_done : Bool

pub data SessionEnd : Type 0 where
  ends : IoResult (Unit {0}) → SessionEnd
  lasts : Progress → SessionEnd

-- A direction has finished well: `select` ends by either, `join` by both.
abbrev pub direction_done : Bool → Progress → SessionEnd
direction_done exit_on_eof p =
    if exit_on_eof || (p.forward_done && p.reverse_done) then ends (IoResult.ok tt) else lasts p

unfoldable pub session_event : Bool → Progress → SessionEvent → SessionEnd
session_event exit_on_eof p (forward (IoResult.err e)) = ends (IoResult.err e)
session_event exit_on_eof p (reverse (IoResult.err e)) = ends (IoResult.err e)
session_event exit_on_eof p (forward (IoResult.ok u)) =
    direction_done exit_on_eof (record p { forward_done = true })
session_event exit_on_eof p (reverse (IoResult.ok u)) =
    direction_done exit_on_eof (record p { reverse_done = true })
session_event exit_on_eof p (hup r) = ends r

-- `Session::run`, on what happens in turn; the futures that are left are dropped at its end.
unfoldable pub run_from : Bool → Progress → List SessionEvent → SessionEnd
unfolding session_event
run_from exit_on_eof p [] = lasts p
run_from exit_on_eof p (e ∷ es) = elim (session_event exit_on_eof p e) [
  | ends r ↦ ends r
  | lasts q ↦ run_from exit_on_eof q es
]

unfoldable pub run : SessionOptions → List SessionEvent → SessionEnd
unfolding run_from
run o es = run_from o.exit_on_eof (record { forward_done = false; reverse_done = false }) es
