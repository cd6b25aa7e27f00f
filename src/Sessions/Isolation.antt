-- ===== src/Sessions/Isolation.antt =====
-- The connections' cells: none has that of another, or the server's.
use websocat.Base.{
  ℕ, suc, ◌<◌, ◌≡◌, refl, ◌∙◌, ◌⊎◌, List, [], ◌∷◌, ◌++◌, false, All, AreSeparate,
  AreSeparate-take_out, AreSeparate-put_in, equal_false, if-false, ◌==◌, arith,
}
use websocat.Sessions.{
  LeftSpecToRightSpec, Cells, set_cell, L2rUser, fill_in, read_from, Connection, view,
}

-- Not the same cell.
abbrev pub IsApart : L2rUser → L2rUser → Type 0
IsApart (fill_in j) (fill_in k) = (j == k) ≡ false
IsApart (fill_in j) (read_from v) = Unit
IsApart (read_from v) l = Unit

-- What a user holds was made before, and is not the server's.
abbrev pub IsOld : ℕ → L2rUser → Type 0
IsOld n (fill_in k) = (0 < k) × (k < n)
IsOld n (read_from v) = Unit

-- The connection has the data that were written for it.
abbrev pub HasOwn : Cells → Connection → Type 0
HasOwn cells c = view cells c.l2r ≡ c.own

abbrev pub IsHeld : Cells → Connection → Type 0
IsHeld cells c = IsOld cells.next c.l2r × HasOwn cells c

abbrev pub AreIsolated : Cells → List Connection → Type 0
AreIsolated cells = AreSeparate (IsHeld cells) (λ c d. IsApart c.l2r d.l2r)

pub IsApart-sym : (l m : L2rUser) → IsApart l m → IsApart m l
IsApart-sym (fill_in j) (fill_in k) a = equal_false j k a
IsApart-sym (fill_in j) (read_from v) a = tt
IsApart-sym (read_from v) (fill_in k) a = tt
IsApart-sym (read_from v) (read_from w) a = tt

module _ (cells : Cells) where
  pub take_out :
      (before after : List Connection) (c : Connection)
      → AreIsolated cells (before ++ c ∷ after)
      → IsHeld cells c
        × All (λ d. IsApart c.l2r d.l2r) (before ++ after)
        × AreIsolated cells (before ++ after)
  take_out =
      AreSeparate-take_out (IsHeld cells) (λ c d. IsApart c.l2r d.l2r)
        (λ c d. IsApart-sym c.l2r d.l2r)

  pub put_in :
      (before after : List Connection) (c : Connection)
      → IsHeld cells c
      → All (λ d. IsApart c.l2r d.l2r) (before ++ after)
      → AreIsolated cells (before ++ after)
      → AreIsolated cells (before ++ c ∷ after)
  put_in =
      AreSeparate-put_in (IsHeld cells) (λ c d. IsApart c.l2r d.l2r)
        (λ c d. IsApart-sym c.l2r d.l2r)

-- A write to a cell that no connection has.
pub view-set :
    (k : ℕ) (v : LeftSpecToRightSpec) (cells : Cells) (l : L2rUser)
    → IsApart (fill_in k) l
    → view (set_cell k v cells) l ≡ view cells l
view-set k v cells (fill_in j) apart = if-false _ _ (equal_false k j apart)
view-set k v cells (read_from w) apart = refl

pub AreIsolated-set :
    (k : ℕ) (v : LeftSpecToRightSpec) (cells : Cells) (cs : List Connection)
    → All (λ d. IsApart (fill_in k) d.l2r) cs
    → AreIsolated cells cs
    → AreIsolated (set_cell k v cells) cs
AreIsolated-set k v cells [] apart all = tt
AreIsolated-set k v cells (c ∷ cs) apart all = (
  (all.0.0, view-set k v cells c.l2r apart.0 ∙ all.0.1),
  all.1,
  AreIsolated-set k v cells cs apart.1 all.2,
)

-- The next cell, and the server's, are no connection's.
pub old-IsApart : (n k : ℕ) (l : L2rUser) → (k ≡ 0) ⊎ (k ≡ n) → IsOld n l → IsApart (fill_in k) l
old-IsApart n k (fill_in j) which old = ground arith
old-IsApart n k (read_from v) which old = tt

pub olds-AreApart :
    (k : ℕ) (cells : Cells) (cs : List Connection)
    → (k ≡ 0) ⊎ (k ≡ cells.next)
    → AreIsolated cells cs
    → All (λ d. IsApart (fill_in k) d.l2r) cs
olds-AreApart k cells [] which all = tt
olds-AreApart k cells (c ∷ cs) which all =
    (old-IsApart cells.next k c.l2r which all.0.0, olds-AreApart k cells cs which all.2)

-- One more cell.
pub IsOld-next : (n : ℕ) (l : L2rUser) → IsOld n l → IsOld (suc n) l
IsOld-next n (fill_in k) old = omega arith
IsOld-next n (read_from v) old = tt

pub view-next :
    (cells : Cells) (l : L2rUser) → view (record cells { next = suc cells.next }) l ≡ view cells l
view-next cells (fill_in k) = refl
view-next cells (read_from v) = refl

pub AreIsolated-next :
    (cells : Cells) (cs : List Connection)
    → AreIsolated cells cs
    → AreIsolated (record cells { next = suc cells.next }) cs
AreIsolated-next cells [] all = tt
AreIsolated-next cells (c ∷ cs) all = (
  (IsOld-next cells.next c.l2r all.0.0, view-next cells c.l2r ∙ all.0.1),
  all.1,
  AreIsolated-next cells cs all.2,
)
