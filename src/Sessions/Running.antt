-- ===== src/Sessions/Running.antt =====
-- What holds of a server in every state that it reaches.
use websocat.Base.{
  ℕ, suc, ◌+◌, ◌<◌, ◌≡◌, refl, ap, ◌∙◌, List, [], ◌∷◌, ◌++◌, length, Option, returns, arith,
}
use websocat.Sessions.{
  fill_l2r, reply, Cells, set_cell, LeftSpecToRightSpec, L2rUser, default_l2r, fill_in, read_from,
  Connection, Server, serve_impl, view, accept_plain, accept_overlay, end_session,
}
use websocat.Sessions.Steps.{
  Step, Steps, AreWithin, IsSound, set_up, accept_plain-set_up, accept_overlay-set_up,
  length-put_in, fewer-AreWithin, none_over, announces, plain, overlay, writes, replies, ends,
  start, next,
}
use websocat.Sessions.Kept.{
  accept_plain-IsSound, accept_overlay-IsSound, announces-IsSound, writes-IsSound, replies-IsSound,
  ends-IsSound,
}

Step-IsSound : {s t : Server} → Step s t → IsSound s → IsSound t
Step-IsSound (announces s v) sound = announces-IsSound s sound v
Step-IsSound (plain s t e) sound = accept_plain-IsSound s sound t e
Step-IsSound (overlay s t e) sound = accept_overlay-IsSound s sound t e
Step-IsSound (writes s before after k own v e) sound = writes-IsSound s sound before after k own v e
Step-IsSound (replies s before after c l e r) sound = replies-IsSound s sound before after c l e r
Step-IsSound (ends s before after c e) sound = ends-IsSound s sound before after c e

serve_impl-IsSound : (cap : Option ℕ) → IsSound (serve_impl cap)
unfolding serve_impl
serve_impl-IsSound cap = record {
  owner = refl;
  made = omega arith;
  counted = refl;
  capped = none_over cap;
  isolated = tt;
}

-- Whatever connections come, are refused, write their data, have them frozen for the right side and end, in
-- any order: the count of a server is that of its running connections, the cap is kept, the cells of the
-- connections are not the server's and are different from each other, and every connection sees the data
-- that were written for it, never another's.
pub Steps-IsSound : (cap : Option ℕ) (s : Server) → Steps (serve_impl cap) s → IsSound s
Steps-IsSound cap _ start = serve_impl-IsSound cap
Steps-IsSound cap _ (next t u steps step) = Step-IsSound step (Steps-IsSound cap t steps)

-- A cell that is neither the server's nor written again keeps its data.
cell-kept :
    (n : ℕ) (v w : LeftSpecToRightSpec) (cells : Cells)
    → 0 < n
    → (set_cell 0 w (set_cell 0 default_l2r (set_cell n v cells))).cell n ≡ v
cell-kept n v w cells made = ground arith

-- A new connection, with room for it, of a server in any state that it reaches, for which the left
-- specifier has written the data `v`: neither closure panics, the connection joins the running ones, and
-- the server's data are the default again. Whatever data `w` are written for the next connection then, this
-- one's data are still `v`, and under an overlay they are what is frozen for the right side.
pub accept-starts :
    (cap : Option ℕ) (s : Server) (v w : LeftSpecToRightSpec)
    → Steps (serve_impl cap) s
    → AreWithin s.max_parallel_conns (s.current_parallel_conns + 1)
    → let a = record s { cells = fill_l2r s.cp v s.cells } in
      ((t : Server) × (l : L2rUser) × (accept_plain a ≡ returns t)
        × (t.running ≡ s.running ++ record { l2r = l; own = v } ∷ [])
        × (view t.cells t.cp ≡ default_l2r)
        × (view (fill_l2r t.cp w t.cells) l ≡ v))
      × ((t : Server) × (l : L2rUser) × (accept_overlay a ≡ returns t)
          × (t.running ≡ s.running ++ record { l2r = l; own = v } ∷ [])
          × (view t.cells t.cp ≡ default_l2r)
          × (view (fill_l2r t.cp w t.cells) l ≡ v)
          × (reply l (fill_l2r t.cp w t.cells) ≡ returns (read_from v)))
unfolding set_up reply
accept-starts cap s v w steps within =
    let sound = Steps-IsSound cap s steps in
    let owner = sound.owner in
    let a = record s { cells = fill_l2r s.cp v s.cells } in
    let kept = cell-kept s.cells.next v w (set_cell 0 v s.cells) sound.made in
    (
      (_, read_from v, accept_plain-set_up a 0 owner within, rw (owner), rw (owner), refl),
      (
        _,
        fill_in s.cells.next,
        accept_overlay-set_up a 0 owner within,
        rw (owner),
        rw (owner),
        rw (owner) kept,
        rw (owner) (ap (λ x. returns (read_from x)) kept),
      ),
    )

-- When a connection of a server with any state that it reaches ends, there is room for another: neither
-- closure refuses it.
pub end_session-accepts :
    (cap : Option ℕ) (s : Server) (before after : List Connection) (c : Connection)
    → Steps (serve_impl cap) s
    → s.running ≡ before ++ c ∷ after
    → let t = end_session before after s in
      AreWithin t.max_parallel_conns (t.current_parallel_conns + 1)
      × ((u : Server) × (accept_plain t ≡ returns u) × (u.refused ≡ s.refused))
      × ((u : Server) × (accept_overlay t ≡ returns u) × (u.refused ≡ s.refused))
unfolding set_up
end_session-accepts cap s before after c steps e =
    let sound = Steps-IsSound cap s steps in
    let t = end_session before after s in
    let some_left : length s.running ≡ suc (length (before ++ after)) =
      ap length e ∙ length-put_in before after c in
    let within : AreWithin t.max_parallel_conns (t.current_parallel_conns + 1) =
      fewer-AreWithin s.max_parallel_conns (length s.running) _
        (omega (arith, some_left, sound.counted)) sound.capped in
    (
      within,
      (_, accept_plain-set_up t 0 sound.owner within, refl),
      (_, accept_overlay-set_up t 0 sound.owner within, refl),
    )
