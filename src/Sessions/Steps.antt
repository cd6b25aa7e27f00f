-- ===== src/Sessions/Steps.antt =====
-- Connections that come, are refused, run and end in any order, with their left-to-right data.
use websocat.Base.{
  ℕ, suc, ◌+◌, ◌<◌, ◌≤◌, ◌≡◌, refl, sym, ap, ◌∙◌, List, [], ◌∷◌, ◌++◌, length, length-append, true,
  false, Option, none, some, Outcome, returns, panics, All, arith,
}
use websocat.Sessions.{
  LeftSpecToRightSpec, default_l2r, Cells, set_cell, new_cell, L2rUser, fill_in, read_from,
  reset_l2r, reply, deep_clone, Connection, Server, over_cap, view, accept_plain, accept_overlay,
  fill_l2r, end_session,
}
use websocat.Sessions.Isolation.{IsApart, AreIsolated}

-- One event: the left specifier writes to the server's data, a connection comes, a connection writes to its
-- data or has them frozen for its right side, or it ends.
pub data Step : Server → Server → Type 0 where
  announces :
      (s : Server) (v : LeftSpecToRightSpec) → Step s (record s { cells = fill_l2r s.cp v s.cells })
  plain : (s t : Server) → accept_plain s ≡ returns t → Step s t
  overlay : (s t : Server) → accept_overlay s ≡ returns t → Step s t
  writes :
      (s : Server) (before after : List Connection) (k : ℕ) (own v : LeftSpecToRightSpec)
      → s.running ≡ before ++ record { l2r = fill_in k; own = own } ∷ after
      → Step s (record s {
        cells = set_cell k v s.cells;
        running = before ++ record { l2r = fill_in k; own = v } ∷ after;
      })
  replies :
      (s : Server) (before after : List Connection) (c : Connection) (l : L2rUser)
      → s.running ≡ before ++ c ∷ after
      → reply c.l2r s.cells ≡ returns l
      → Step s (record s { running = before ++ record c { l2r = l } ∷ after })
  ends :
      (s : Server) (before after : List Connection) (c : Connection)
      → s.running ≡ before ++ c ∷ after
      → Step s (end_session before after s)

pub data Steps (s : Server) : Server → Type 0 where
  start : Steps s s
  next : (t u : Server) → Steps s t → Step t u → Steps s u

abbrev pub AreWithin : Option ℕ → ℕ → Type 0
AreWithin cap n = over_cap cap n ≡ false

pub record IsSound (s : Server) : Type 0 where
  pub owner : s.cp ≡ fill_in 0
  pub made : 0 < s.cells.next
  pub counted : s.current_parallel_conns ≡ length s.running
  pub capped : AreWithin s.max_parallel_conns (length s.running)
  pub isolated : AreIsolated s.cells s.running

-- What the two closures do, of a server whose data are a cell.
unfoldable pub set_up : Server → ℕ → Cells → L2rUser → Server
set_up s k cells l = record s {
  cells = set_cell k default_l2r cells;
  current_parallel_conns = s.current_parallel_conns + 1;
  running = s.running ++ record { l2r = l; own = s.cells.cell k } ∷ [];
}

pub accept_plain-set_up :
    (s : Server) (k : ℕ)
    → s.cp ≡ fill_in k
    → AreWithin s.max_parallel_conns (s.current_parallel_conns + 1)
    → accept_plain s ≡ returns (set_up s k s.cells (read_from (s.cells.cell k)))
unfolding accept_plain set_up reply reset_l2r
accept_plain-set_up s k owner within = rw (within, owner)

pub accept_overlay-set_up :
    (s : Server) (k : ℕ)
    → s.cp ≡ fill_in k
    → AreWithin s.max_parallel_conns (s.current_parallel_conns + 1)
    → accept_overlay s
      ≡ returns (set_up s k (new_cell (s.cells.cell k) s.cells) (fill_in s.cells.next))
unfolding accept_overlay set_up deep_clone reset_l2r
accept_overlay-set_up s k owner within = rw (within, owner)

unfoldable pub refused : Server → Server
refused s = record s { refused = s.refused + 1 }

pub accept_plain-refused :
    (s : Server)
    → over_cap s.max_parallel_conns (s.current_parallel_conns + 1) ≡ true
    → accept_plain s ≡ returns (refused s)
unfolding accept_plain refused
accept_plain-refused s over = rw over

pub accept_overlay-refused :
    (s : Server)
    → over_cap s.max_parallel_conns (s.current_parallel_conns + 1) ≡ true
    → accept_overlay s ≡ returns (refused s)
unfolding accept_overlay refused
accept_overlay-refused s over = rw over

unfoldable pub value : Server → Outcome Server → Server
value s panics = s
value s (returns t) = t

pub readers-AreApart :
    (v : LeftSpecToRightSpec) (cs : List Connection) → All (λ d. IsApart (read_from v) d.l2r) cs
readers-AreApart v [] = tt
readers-AreApart v (c ∷ cs) = (tt, readers-AreApart v cs)

pub set_cell-same :
    (k : ℕ) (v : LeftSpecToRightSpec) (cells : Cells) → (set_cell k v cells).cell k ≡ v
set_cell-same k v cells = ground arith

pub length-put_in :
    (before after : List Connection) (c : Connection)
    → length (before ++ c ∷ after) ≡ suc (length (before ++ after))
length-put_in before after c =
    omega (arith, length-append before (c ∷ after), length-append before after)

pub length-middle :
    (before after : List Connection) (c d : Connection)
    → length (before ++ c ∷ after) ≡ length (before ++ d ∷ after)
length-middle before after c d = length-put_in before after c ∙ sym (length-put_in before after d)

pub fewer-AreWithin : (cap : Option ℕ) (m n : ℕ) → n ≤ m → AreWithin cap m → AreWithin cap n
fewer-AreWithin none m n le within = refl
fewer-AreWithin (some cap) m n le within = ground arith

unfoldable pub user : L2rUser → Outcome L2rUser → L2rUser
user l panics = l
user l (returns m) = m

pub reply-freezes :
    (cells : Cells) (l m : L2rUser) → reply l cells ≡ returns m → m ≡ read_from (view cells l)
unfolding reply user
reply-freezes cells (fill_in k) m e = sym (ap (user m) e)
reply-freezes cells (read_from v) m e = cc

pub none_over : (cap : Option ℕ) → AreWithin cap 0
none_over none = refl
none_over (some cap) = ground arith
