-- ===== src/Base/Endings.antt =====
-- The line break at the end of a text.
use Prim.Native.Nat.{ℕ}
use mathlib.Core.Path.{◌≡◌}
use mathlib.Core.Bool.{Bool, false}
use mathlib.Core.List.{[], ◌∷◌}
use websocat.Base.Tests.{◌==◌}
use websocat.Base.Lists.{Bytes}

abbrev pub ends_with : ℕ → Bytes → Bool
ends_with c [] = false
ends_with c (x ∷ []) = x == c
ends_with c (x ∷ (y ∷ ys)) = ends_with c (y ∷ ys)

-- The line break that is taken off a text, with what is in front of it: none only if no line break stands
-- there.
pub data IsEnding (text : Bytes) : Bytes → Type 0 where
  no_break : ends_with b'\n' text ≡ false → ends_with b'\r' text ≡ false → IsEnding text []
  newline : ends_with b'\r' text ≡ false → IsEnding text (b'\n' ∷ [])
  carriage_return : IsEnding text (b'\r' ∷ [])
  both_breaks : IsEnding text (b'\r' ∷ b'\n' ∷ [])
