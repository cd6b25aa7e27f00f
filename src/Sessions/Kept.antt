-- ===== src/Sessions/Kept.antt =====
-- Each event keeps a server sound.
use websocat.Base.{
  ℕ, suc, ◌+◌, ◌<◌, ◌≡◌, refl, sym, ap, ◌∙◌, subst, inl, inr, List, [], ◌∷◌, ◌++◌, append-nil,
  length, length-append, returns, All, Bool-cases, arith,
}
use websocat.Sessions.{
  LeftSpecToRightSpec, default_l2r, Cells, set_cell, new_cell, L2rUser, fill_in, read_from, reply,
  Connection, Server, over_cap, view, accept_plain, accept_overlay, fill_l2r, end_session,
}
use websocat.Sessions.Isolation.{
  IsApart, IsHeld, AreIsolated, take_out, put_in, AreIsolated-set, olds-AreApart, AreIsolated-next,
}
use websocat.Sessions.Steps.{
  AreWithin, IsSound, set_up, accept_plain-set_up, accept_overlay-set_up, refused,
  accept_plain-refused, accept_overlay-refused, value, readers-AreApart, set_cell-same,
  length-put_in, length-middle, fewer-AreWithin, reply-freezes,
}

module _ (s : Server) (sound : IsSound s) where
  pub within_one :
      AreWithin s.max_parallel_conns (s.current_parallel_conns + 1)
      → (l : List Connection) (c : Connection) → l ≡ s.running
      → AreWithin s.max_parallel_conns (length (l ++ c ∷ []))
  within_one within l c e =
      subst (AreWithin s.max_parallel_conns) (rw (e, length-append, sound.counted)) within

  pub set_up-IsSound :
      (cells : Cells) (l : L2rUser)
      → 0 < cells.next
      → AreWithin s.max_parallel_conns (s.current_parallel_conns + 1)
      → AreIsolated cells s.running
      → IsHeld cells (record { l2r = l; own = s.cells.cell 0 })
      → All (λ d. IsApart l d.l2r) s.running
      → IsSound (set_up s 0 cells l)
  unfolding set_up
  set_up-IsSound cells l made within isolated held apart = record {
    owner = sound.owner;
    made = made;
    counted = rw (length-append, sound.counted);
    capped = within_one within s.running _ refl;
    isolated =
        let c : Connection = record { l2r = l; own = s.cells.cell 0 } in
        let nil = sym (append-nil s.running) in
        let all =
          put_in cells s.running [] c held (subst (All (λ d. IsApart l d.l2r)) nil apart)
            (subst (AreIsolated cells) nil isolated) in
        AreIsolated-set 0 default_l2r cells (s.running ++ c ∷ [])
          (olds-AreApart 0 cells (s.running ++ c ∷ []) (inl refl) all) all;
  }

  pub refused-IsSound : IsSound (refused s)
  unfolding refused
  refused-IsSound = record {
    owner = sound.owner;
    made = sound.made;
    counted = sound.counted;
    capped = sound.capped;
    isolated = sound.isolated;
  }

  pub accept_plain-IsSound : (t : Server) → accept_plain s ≡ returns t → IsSound t
  unfolding value refused
  accept_plain-IsSound t e =
      elim (Bool-cases (over_cap s.max_parallel_conns (s.current_parallel_conns + 1))) [
        | inl over ↦
            subst IsSound (ap (value s) (sym (accept_plain-refused s over) ∙ e)) refused-IsSound
        | inr within ↦
            subst IsSound (ap (value s) (sym (accept_plain-set_up s 0 sound.owner within) ∙ e)) (
              set_up-IsSound s.cells (read_from (s.cells.cell 0)) sound.made within sound.isolated
                (tt, refl) (readers-AreApart (s.cells.cell 0) s.running))
      ]

  pub accept_overlay-IsSound : (t : Server) → accept_overlay s ≡ returns t → IsSound t
  unfolding value refused
  accept_overlay-IsSound t e =
      elim (Bool-cases (over_cap s.max_parallel_conns (s.current_parallel_conns + 1))) [
        | inl over ↦
            subst IsSound (ap (value s) (sym (accept_overlay-refused s over) ∙ e)) refused-IsSound
        | inr within ↦
            let n = s.cells.next in
            let v = s.cells.cell 0 in
            let apart = olds-AreApart n s.cells s.running (inr refl) sound.isolated in
            subst IsSound (ap (value s) (sym (accept_overlay-set_up s 0 sound.owner within) ∙ e)) (
              set_up-IsSound (new_cell v s.cells) (fill_in n) (omega arith) within
                (AreIsolated-next (set_cell n v s.cells) s.running
                  (AreIsolated-set n v s.cells s.running apart sound.isolated))
                ((sound.made, (omega arith)), set_cell-same n v s.cells) apart)
      ]

  pub announces-IsSound :
      (v : LeftSpecToRightSpec) → IsSound (record s { cells = fill_l2r s.cp v s.cells })
  announces-IsSound v = record {
    owner = sound.owner;
    made = rw (sound.owner) sound.made;
    counted = sound.counted;
    capped = sound.capped;
    isolated =
        subst (λ l. AreIsolated (fill_l2r l v s.cells) s.running) (sym sound.owner)
          (AreIsolated-set 0 v s.cells s.running
            (olds-AreApart 0 s.cells s.running (inl refl) sound.isolated) sound.isolated);
  }

  pub at :
      (before after : List Connection) (c : Connection)
      → s.running ≡ before ++ c ∷ after
      → IsHeld s.cells c
        × All (λ d. IsApart c.l2r d.l2r) (before ++ after)
        × AreIsolated s.cells (before ++ after)
  at before after c e =
      take_out s.cells before after c (subst (AreIsolated s.cells) e sound.isolated)

  -- A connection in the place of another.
  pub replaced-IsSound :
      (before after : List Connection) (c d : Connection) (cells : Cells)
      → s.running ≡ before ++ c ∷ after
      → cells.next ≡ s.cells.next
      → AreIsolated cells (before ++ d ∷ after)
      → IsSound (record s { cells = cells; running = before ++ d ∷ after })
  replaced-IsSound before after c d cells e n isolated =
      let same : length s.running ≡ length (before ++ d ∷ after) =
        ap length e ∙ length-middle before after c d in
      record {
        owner = sound.owner;
        made = omega (arith, sound.made, n);
        counted = sound.counted ∙ same;
        capped = subst (AreWithin s.max_parallel_conns) same sound.capped;
        isolated = isolated;
      }

  pub writes-IsSound :
      (before after : List Connection) (k : ℕ) (own v : LeftSpecToRightSpec)
      → s.running ≡ before ++ record { l2r = fill_in k; own = own } ∷ after
      → IsSound (record s {
        cells = set_cell k v s.cells;
        running = before ++ record { l2r = fill_in k; own = v } ∷ after;
      })
  writes-IsSound before after k own v e =
      let c : Connection = record { l2r = fill_in k; own = own } in
      let d : Connection = record { l2r = fill_in k; own = v } in
      let (held, apart, rest) = at before after c e in
      replaced-IsSound before after c d (set_cell k v s.cells) e refl (
        put_in (set_cell k v s.cells) before after d (held.0, set_cell-same k v s.cells) apart
          (AreIsolated-set k v s.cells (before ++ after) apart rest))

  pub replies-IsSound :
      (before after : List Connection) (c : Connection) (l : L2rUser)
      → s.running ≡ before ++ c ∷ after
      → reply c.l2r s.cells ≡ returns l
      → IsSound (record s { running = before ++ record c { l2r = l } ∷ after })
  replies-IsSound before after c l e r =
      let (held, apart, rest) = at before after c e in
      let frozen = view s.cells c.l2r in
      subst (λ m. IsSound (record s { running = before ++ record c { l2r = m } ∷ after }))
        (sym (reply-freezes s.cells c.l2r l r))
        (replaced-IsSound before after c (record c { l2r = read_from frozen }) s.cells e refl
          (put_in s.cells before after (record c { l2r = read_from frozen }) (tt, held.1)
            (readers-AreApart frozen (before ++ after)) rest))

  pub ends-IsSound :
      (before after : List Connection) (c : Connection)
      → s.running ≡ before ++ c ∷ after
      → IsSound (end_session before after s)
  ends-IsSound before after c e =
      let same : length s.running ≡ suc (length (before ++ after)) =
        ap length e ∙ length-put_in before after c in
      record {
        owner = sound.owner;
        made = sound.made;
        counted = omega (arith, sound.counted, same);
        capped =
            fewer-AreWithin s.max_parallel_conns (length s.running) _ (omega (arith, same))
              sound.capped;
        isolated = (at before after c e).2;
      }
