-- ===== src/Sessions/Tests.antt =====
-- A server with a cap of one, its connections, and sessions.
use websocat.Base.{ℕ, ◌≡◌, refl, false, some, none, List, [], ◌∷◌, IoResult, codes, returns}
use websocat.Sessions.{
  L2rUser, fill_l2r, reply, LeftSpecToRightSpec, default_l2r, Cells, set_cell, new_cell, fill_in,
  read_from, Connection, Server, serve_impl, accept_plain, accept_overlay, view, deep_clone,
  reset_l2r, SessionOptions, forward, reverse, hup, Progress, ends, lasts, run,
}
use websocat.Sessions.Steps.{Steps, start, next, announces, overlay, writes, IsSound}
use websocat.Sessions.Running.{Steps-IsSound, accept-starts}
use websocat.Sessions.Ending.{run-ends}

abbrev first_data : LeftSpecToRightSpec
first_data = record default_l2r { client_addr = some (codes "::1") }

abbrev full_data : LeftSpecToRightSpec
full_data = record first_data { uri = some (codes "/chat") }

abbrev no_data : Cells
no_data = record { cell = λ k. default_l2r; next = 1 }

abbrev announced_cells : Cells
announced_cells = set_cell 0 first_data no_data

abbrev served_cells : Cells
served_cells = set_cell 0 default_l2r (new_cell first_data announced_cells)

abbrev server : Cells → List Connection → ℕ → Server
server cells running n = record {
  cells = cells;
  cp = fill_in 0;
  max_parallel_conns = some 1;
  current_parallel_conns = n;
  running = running;
  refused = 0;
}

abbrev connection : LeftSpecToRightSpec → Connection
connection v = record { l2r = fill_in 1; own = v }

abbrev announced : Server
announced = server announced_cells [] 0

abbrev served : Server
served = server served_cells (connection first_data ∷ []) 1

abbrev written : Server
written = server (set_cell 1 full_data served_cells) (connection full_data ∷ []) 1

to_announced : Steps (serve_impl (some 1)) announced
unfolding serve_impl
to_announced =
    next (server no_data [] 0) announced start (announces (server no_data [] 0) first_data)

to_written : Steps (serve_impl (some 1)) written
unfolding accept_overlay deep_clone reset_l2r
to_written =
    next served written (next announced served to_announced (overlay announced served refl))
      (writes served [] [] 1 first_data full_data refl)

accept_overlay-refuses : accept_overlay written ≡ returns (record written { refused = 1 })
unfolding accept_overlay
accept_overlay-refuses = refl

Steps-IsSound_example : IsSound written
Steps-IsSound_example = Steps-IsSound (some 1) written to_written

to_server : Steps (serve_impl (some 1)) (server no_data [] 0)
unfolding serve_impl
to_server = start

accept-starts_example :
    ((t : Server) × (l : L2rUser) × (accept_plain announced ≡ returns t)
      × (t.running ≡ record { l2r = l; own = first_data } ∷ [])
      × (view t.cells t.cp ≡ default_l2r)
      × (view (fill_l2r t.cp full_data t.cells) l ≡ first_data))
    × ((t : Server) × (l : L2rUser) × (accept_overlay announced ≡ returns t)
        × (t.running ≡ record { l2r = l; own = first_data } ∷ [])
        × (view t.cells t.cp ≡ default_l2r)
        × (view (fill_l2r t.cp full_data t.cells) l ≡ first_data)
        × (reply l (fill_l2r t.cp full_data t.cells) ≡ returns (read_from first_data)))
accept-starts_example =
    accept-starts (some 1) (server no_data [] 0) first_data full_data to_server refl

abbrev options : SessionOptions
options = record {
  one_message = false;
  no_exit_on_zeromsg = false;
  buffer_size = 65536;
  max_messages = none;
  max_messages_rev = none;
  unidirectional = false;
  unidirectional_reverse = false;
  exit_on_eof = false;
}

abbrev finished : IoResult (Unit {0})
finished = IoResult.ok tt

run-ends_example :
    ((p : Progress) × (run options (forward finished ∷ []) ≡ lasts p))
    × (run options (forward finished ∷ reverse finished ∷ hup finished ∷ []) ≡ ends finished)
run-ends_example =
    run-ends options (forward finished ∷ []) (hup finished ∷ []) (reverse finished) refl refl
