-- ===== src/Foreachmsg/Phases.antt =====
-- Each phase of a write takes the message further.
use websocat.Base.{
  ℕ, suc, zero, ◌≡◌, ◌⊎◌, inl, inr, refl, sym, ap, subst, ◌∙◌, true, none, some, List, [], ◌∷◌,
  ◌++◌, arith, min, ◌==◌, ==_iff, length, take, drop, take-append-drop, take-all, append_assoc,
  Bytes, IoResult, ok, err, would_block, Bool-cases, if-true, if-false,
}
use websocat.Foreachmsg.{
  ShutdownPoll, shut, shutting, shut_failed, SubPeer, Phase, idle, flushing, closing,
  waiting_for_read_to_finish, write_debt, Oneshot, absent, waiting, sent, State, write_finished,
  wait_for_read, when_shut, close_phase, flush_phase, writing_phase, by_phase,
}
use websocat.Foreachmsg.Stages.{
  FreshFuture, FreshSupply, Stage, IsSending, IsDelivered, Wrote, again, done,
}

pub zero-or-suc : (n : ℕ) → (n ≡ 0) ⊎ ((m : ℕ) × (n ≡ suc m))
zero-or-suc zero = inl refl
zero-or-suc (suc m) = inr (m, refl)

module _ (b : Bytes) (gone : List SubPeer) (s : State) (same : s.dropped ≡ gone)
    (future : FreshFuture s.n) (to_come : FreshSupply s.supply) where
  pub sending :
      (ph : Phase) (x : SubPeer)
      → Stage b ph (some x) s.read_waiter
      → IsSending b (record s { p = some x; ph = ph })
  sending ph x stage = record { stage = stage; future = future; to_come = to_come }

  pub write_finished-Wrote :
      (x : SubPeer) → IsDelivered b x → Wrote b gone (write_finished s x (length b))
  write_finished-Wrote x delivered =
      done (record s { p = none; ph = idle; dropped = s.dropped ++ x ∷ [] }) x delivered
        (ap (λ z. z ++ x ∷ []) same) refl refl future to_come

  pub when_shut-Wrote :
      (x : SubPeer) → s.p ≡ some x → IsDelivered b x → Wrote b gone (when_shut s x (length b))
  when_shut-Wrote x held delivered = elim (Bool-cases s.need_wait_for_reading) [
    | inr free ↦ subst (Wrote b gone) (sym (if-false _ _ free)) (write_finished-Wrote x delivered)
    | inl bound ↦ elim (Bool-cases s.finished_reading) [
      | inl read ↦
          subst (Wrote b gone) (sym (if-true _ _ bound ∙ if-true _ _ read))
            (write_finished-Wrote x delivered)
      | inr unread ↦ subst (Wrote b gone) (sym (if-true _ _ bound ∙ if-false _ _ unread)) (
          again (record s { read_waiter = waiting; ph = waiting_for_read_to_finish })
            (err would_block)
            (record {
              stage =
                  subst (λ p. Stage b waiting_for_read_to_finish p waiting) (sym held)
                    (delivered.whole, delivered.flushed, delivered.closed, λ e. cc);
              future = future;
              to_come = to_come;
            })
            same tt)
    ]
  ]

module _ (b : Bytes) (gone : List SubPeer) where
  pub close_phase-Wrote :
      (rs : List ShutdownPoll) (s : State) (x : SubPeer)
      → s.dropped ≡ gone
      → FreshFuture s.n
      → FreshSupply s.supply
      → x.written ≡ b
      → x.is_flushed ≡ true
      → Wrote b gone (close_phase rs s x (length b))
  unfolding close_phase
  close_phase-Wrote [] s x same future to_come whole flushed =
      again _ _ (sending b gone s same future to_come closing x (whole, flushed)) same tt
  close_phase-Wrote (shutting ∷ rs) s x same future to_come whole flushed =
      again _ _
        (sending b gone s same future to_come closing (record x { shutdowns = rs })
          (whole, flushed))
        same tt
  close_phase-Wrote (shut_failed e ∷ rs) s x same future to_come whole flushed =
      again _ _
        (sending b gone s same future to_come closing (record x { shutdowns = rs })
          (whole, flushed))
        same tt
  close_phase-Wrote (shut ∷ rs) s x same future to_come whole flushed =
      when_shut-Wrote b gone (record s { p = some (record x { shutdowns = rs; is_shut = true }) })
        same future to_come (record x { shutdowns = rs; is_shut = true }) refl
        (record { whole = whole; flushed = flushed; closed = refl })

  pub flush_phase-Wrote :
      (rs : List (IoResult (Unit {0}))) (s : State) (x : SubPeer)
      → s.dropped ≡ gone
      → FreshFuture s.n
      → FreshSupply s.supply
      → x.written ≡ b
      → Wrote b gone (flush_phase rs s x (length b))
  unfolding flush_phase
  flush_phase-Wrote [] s x same future to_come whole =
      again _ _ (sending b gone s same future to_come flushing x whole) same tt
  flush_phase-Wrote (err e ∷ rs) s x same future to_come whole =
      again _ _ (sending b gone s same future to_come flushing (record x { flushes = rs }) whole)
        same tt
  flush_phase-Wrote (ok u ∷ rs) s x same future to_come whole =
      close_phase-Wrote x.shutdowns s (record x { flushes = rs; is_flushed = true }) same future
        to_come whole refl

  pub rest_whole :
      (x : SubPeer) (d : Bytes) (k : ℕ)
      → x.written ++ d ≡ b
      → (x.written ++ take k d) ++ drop k d ≡ b
  rest_whole x d k whole =
      append_assoc x.written (take k d) (drop k d)
      ∙ ap (λ z. x.written ++ z) (take-append-drop k d)
      ∙ whole

  -- `now` is `idle` with the whole message to write, or a debt.
  pub writing_phase-Wrote :
      (rs : List (IoResult ℕ)) (now : Phase) (s : State) (x : SubPeer) (d : Bytes)
      → s.dropped ≡ gone
      → FreshFuture s.n
      → FreshSupply s.supply
      → Stage b now (some x) s.read_waiter
      → ((y : SubPeer) → y.written ≡ x.written → Stage b now (some y) s.read_waiter)
      → x.written ++ d ≡ b
      → Wrote b gone (writing_phase rs now s x d (length b))
  unfolding writing_phase
  writing_phase-Wrote [] now s x d same future to_come stage still whole =
      again _ _ (sending b gone s same future to_come now x stage) same tt
  writing_phase-Wrote (err e ∷ rs) now s x d same future to_come stage still whole =
      again _ _
        (sending b gone s same future to_come now (record x { writes = rs })
          (still (record x { writes = rs }) refl))
        same tt
  writing_phase-Wrote (ok n ∷ rs) now s x d same future to_come stage still whole =
      elim (zero-or-suc (min n (length d))) [
        | inl none_taken ↦
            rw (none_taken, writing_phase)
              (again _ _
                (sending b gone s same future to_come now (record x { writes = rs })
                  (still (record x { writes = rs }) refl))
                same refl)
        | inr (m, some_taken) ↦ elim (Bool-cases (suc m == length d)) [
          | inl all ↦
              rw (some_taken, writing_phase, all)
                (flush_phase-Wrote x.flushes s
                  (record x { writes = rs; written = x.written ++ take (suc m) d }) same future
                  to_come
                  (ap (λ z. x.written ++ z)
                      (take-all (suc m) d (omega (arith, (==_iff (suc m) (length d)).0 all)))
                    ∙ whole))
          | inr part ↦
              rw (some_taken, writing_phase, part)
                (writing_phase-Wrote rs (write_debt (drop (suc m) d)) s
                  (record x { writes = rs; written = x.written ++ take (suc m) d }) (drop (suc m) d)
                  same future to_come (rest_whole x d (suc m) whole)
                  (λ y e. ap (λ z. z ++ drop (suc m) d) e ∙ rest_whole x d (suc m) whole)
                  (rest_whole x d (suc m) whole))
        ]
      ]

  pub wait_for_read-Wrote :
      (w : Oneshot) (s : State) (x : SubPeer)
      → s.read_waiter ≡ w
      → s.dropped ≡ gone
      → s.p ≡ some x
      → FreshFuture s.n
      → FreshSupply s.supply
      → Stage b waiting_for_read_to_finish (some x) w
      → Wrote b gone (wait_for_read w s x (length b))
  wait_for_read-Wrote absent s x e same held future to_come stage = absurd (stage.3 refl)
  wait_for_read-Wrote waiting s x e same held future to_come stage =
      again (record s { ph = waiting_for_read_to_finish }) (err would_block)
        (record { stage = rw (held, e) stage; future = future; to_come = to_come }) same tt
  wait_for_read-Wrote sent s x e same held future to_come stage =
      write_finished-Wrote b gone s same future to_come x
        (record { whole = stage.0; flushed = stage.1; closed = stage.2 })

  pub by_phase-Wrote :
      (ph : Phase) (s : State) (x : SubPeer)
      → s.dropped ≡ gone
      → s.p ≡ some x
      → FreshFuture s.n
      → FreshSupply s.supply
      → Stage b ph (some x) s.read_waiter
      → Wrote b gone (by_phase ph s x b)
  unfolding writing_phase flush_phase close_phase
  by_phase-Wrote idle s x same held future to_come stage =
      writing_phase-Wrote x.writes idle s x b same future to_come stage (λ y e. e ∙ stage)
        (ap (λ z. z ++ b) stage)
  by_phase-Wrote (write_debt d) s x same held future to_come stage =
      writing_phase-Wrote x.writes (write_debt d) s x d same future to_come stage
        (λ y e. ap (λ z. z ++ d) e ∙ stage) stage
  by_phase-Wrote flushing s x same held future to_come stage =
      flush_phase-Wrote x.flushes s x same future to_come stage
  by_phase-Wrote closing s x same held future to_come stage =
      close_phase-Wrote x.shutdowns s x same future to_come stage.0 stage.1
  by_phase-Wrote waiting_for_read_to_finish s x same held future to_come stage =
      wait_for_read-Wrote s.read_waiter s x refl same held future to_come stage
