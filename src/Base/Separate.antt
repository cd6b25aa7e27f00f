-- ===== src/Base/Separate.antt =====
-- Lists whose elements have a property each, and a symmetric relation in pairs.
use Prim.Native.Nat.{ℕ}
use mathlib.Core.Path.{◌≡◌}
use mathlib.Core.Bool.{false}
use mathlib.Core.List.{List, [], ◌∷◌, ◌++◌}
use websocat.Base.Lists.{All}
use websocat.Base.Tests.{◌==◌}
use native.Mathlib.Omega.{arith}

pub equal_false : (j k : ℕ) → ((j == k) ≡ false) → (k == j) ≡ false
equal_false j k e = ground arith

module _ {ℓ κ} {A : Type ℓ} (P : A → Type κ) where
  pub All-take_out : (xs ys : List A) (x : A) → All P (xs ++ x ∷ ys) → P x × All P (xs ++ ys)
  All-take_out [] ys x all = all
  All-take_out (y ∷ xs) ys x all =
      let rest = All-take_out xs ys x all.1 in (rest.0, (all.0, rest.1))

  pub All-put_in : (xs ys : List A) (x : A) → P x → All P (xs ++ ys) → All P (xs ++ x ∷ ys)
  All-put_in [] ys x here all = (here, all)
  All-put_in (y ∷ xs) ys x here all = (all.0, All-put_in xs ys x here all.1)

module _ {ℓ κ} {A : Type ℓ} (P : A → Type κ) (R : A → A → Type κ) where
  abbrev pub AreSeparate : List A → Type κ
  AreSeparate [] = Unit
  AreSeparate (x ∷ xs) = P x × All (R x) xs × AreSeparate xs

  module _ (symmetric : (x y : A) → R x y → R y x) where
    pub AreSeparate-take_out :
        (before after : List A) (x : A)
        → AreSeparate (before ++ x ∷ after)
        → P x × All (R x) (before ++ after) × AreSeparate (before ++ after)
    AreSeparate-take_out [] after x all = all
    AreSeparate-take_out (y ∷ before) after x (here, apart, all) =
        let rest = AreSeparate-take_out before after x all in
        let split = All-take_out (R y) before after x apart in
        (rest.0, (symmetric y x split.0, rest.1), (here, split.1, rest.2))

    pub AreSeparate-put_in :
        (before after : List A) (x : A)
        → P x
        → All (R x) (before ++ after)
        → AreSeparate (before ++ after)
        → AreSeparate (before ++ x ∷ after)
    AreSeparate-put_in [] after x here apart all = (here, apart, all)
    AreSeparate-put_in (y ∷ before) after x here apart (y_here, y_apart, all) = (
      y_here,
      All-put_in (R y) before after x (symmetric x y apart.0) y_apart,
      AreSeparate-put_in before after x here apart.1 all,
    )
