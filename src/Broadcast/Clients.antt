-- ===== src/Broadcast/Clients.antt =====
-- The clients of `broadcast:`, as the slab has them, and what may happen to them.
use websocat.Base.{
  ℕ, ◌≡◌, sym, ap, ◌∙◌, none, some, List, [], ◌∷◌, ◌++◌, false, returns, ◌==◌, inl, inr, All,
  AreSeparate, equal_false, Bool-cases, ==_iff,
}
use websocat.Broadcast.{
  Slab, Mpsc, Broadcaster, World, Handle, InnerPoll, broadcast_poll, broadcast_reuser, drop_handle,
}
use websocat.Broadcast.Channels.{SlabLaws}

-- The world, with the handles that have not been dropped.
pub record Serving (T C W : Type 0) : Type 0 where
  pub world : World T C W
  pub handles : List Handle

module _ {T C W : Type 0} (slab : Slab T) (mpsc : Mpsc C) (queue_len : ℕ) where
  -- A client comes, the inner peer is polled, or a handle is dropped.
  pub data Step : Serving T C W → Serving T C W → Type 0 where
    comes :
        (s : Serving T C W) (t : World T C W) (h : Handle)
        → broadcast_reuser slab mpsc queue_len s.world ≡ some (returns (t, h))
        → Step s (record { world = t; handles = h ∷ s.handles })
    polls :
        (s : Serving T C W) (t : World T C W) (p : InnerPoll)
        → broadcast_poll slab mpsc s.world ≡ returns (t, p)
        → Step s (record s { world = t })
    goes :
        (s : Serving T C W) (before after : List Handle) (h : Handle) (t : World T C W)
        → s.handles ≡ before ++ h ∷ after
        → drop_handle slab mpsc h s.world ≡ returns t
        → Step s (record { world = t; handles = before ++ after })

  pub data Steps (s : Serving T C W) : Serving T C W → Type 0 where
    start : Steps s s
    next : (t u : Serving T C W) → Steps s t → Step t u → Steps s u

module _ {T : Type 0} {slab : Slab T} (laws : SlabLaws slab) where
  -- Each handle has its sender in the slab, and no two have one index.
  abbrev pub AreClients : T → List Handle → Type 0
  AreClients clients =
      AreSeparate (λ h. laws.get h.index clients ≡ some h.receiver)
        (λ g h. (g.index == h.index) ≡ false)

  abbrev pub IsServing : {C W : Type 0} → Serving T C W → Type 0
  IsServing {C} {W} s =
      (b : Broadcaster T W) × (s.world.slot ≡ some b) × AreClients b.clients s.handles

  pub vacant_other :
      (k j c : ℕ) (t : T) → laws.get k t ≡ none → laws.get j t ≡ some c → (k == j) ≡ false
  vacant_other k j c t vacant there = elim (Bool-cases (k == j)) [
    | inl same ↦
        let clash : none ≡ some c =
          sym vacant ∙ ap (λ i. laws.get i t) ((==_iff k j).0 same) ∙ there in
        cc
    | inr other ↦ other
  ]

  pub AreClients-insert :
      (c : ℕ) (t : T) (hs : List Handle)
      → AreClients t hs
      → AreClients (slab.insert c t).0 hs × All (λ h. ((slab.insert c t).1 == h.index) ≡ false) hs
  AreClients-insert c t [] all = (tt, tt)
  AreClients-insert c t (h ∷ hs) (there, apart, all) =
      let other =
        vacant_other (slab.insert c t).1 h.index h.receiver t (laws.insert-vacant c t) there in
      let (rest, others) = AreClients-insert c t hs all in
      (
        (laws.get-insert_other c h.index t (equal_false _ h.index other) ∙ there, apart, rest),
        (other, others),
      )

  pub AreClients-kept :
      (k : ℕ) (t u : T) (hs : List Handle)
      → ((j : ℕ) → (j == k) ≡ false → laws.get j u ≡ laws.get j t)
      → All (λ h. (k == h.index) ≡ false) hs
      → AreClients t hs
      → AreClients u hs
  AreClients-kept k t u [] kept others all = tt
  AreClients-kept k t u (h ∷ hs) kept others (there, apart, all) = (
    kept h.index (equal_false k h.index others.0) ∙ there,
    apart,
    AreClients-kept k t u hs kept others.1 all,
  )
