-- ===== src/Lints/OneStdio.antt =====
-- Standard input and output end up in one place.
use websocat.Base.{
  ◌≡◌, ◌⊎◌, inl, inr, refl, sym, ap, ◌∙◌, Bool, true, false, ◌||◌, some, List, [], ◌∷◌, arith,
  codes, subst, Bool-cases, if-true, if-false,
}
use websocat.Specifier.{SpecifierClass, SpecifierStack}
use websocat.Specifier.Classes.Local.{mirror_class, async_stdio_class}
use websocat.Specparse.{parsed, from_str, parse_loop, match_class, some_checks}
use websocat.Lints.Options.{WebsocatConfiguration2}
use websocat.Lints.Monad.{Warning, done}
use websocat.Lints.Stacks.{
  StdioUsageStatus, no_stdio, with_reuser, indirectly, is_itself, stdio_usage_status, stdio_under,
  wrap_stdio, is_stdio, is_reuser, has_name,
}
use websocat.Lints.Stdio.{
  l_stdio, l_stdio_on, insert_broadcast, substitute_async, act_like_cat, use_async,
}

-- The classes of the standard streams that the lint does not ask for.
abbrev pub is_other_stdio : SpecifierClass → Bool
is_other_stdio x = has_name x "AsyncStdioClass" || has_name x "InetdClass"

-- Every class of the standard streams.
abbrev pub uses_streams : SpecifierStack → Bool
unfolding is_stdio
uses_streams st = is_stdio st.addrtype || is_other_stdio st.addrtype

abbrev pub has_reuser : List SpecifierClass → Bool
unfolding is_reuser
has_reuser [] = false
has_reuser (x ∷ xs) = is_reuser x || has_reuser xs

-- Not connected to standard streams, or connected through a reuser.
abbrev pub IsShared : SpecifierStack → Type 0
unfolding is_stdio is_reuser
IsShared st = (uses_streams st ≡ false) ⊎ (has_reuser st.overlays ≡ true)

-- At most one side uses standard streams, and if many connections are served the right side, which
-- they share, uses them through a reuser or not at all.
pub record StdioFixed (multiconnect : Bool) (c : WebsocatConfiguration2) : Type 0 where
  pub one_side : (uses_streams c.s1 ≡ false) ⊎ (uses_streams c.s2 ≡ false)
  pub shared : multiconnect ≡ true → IsShared c.s2

under-some : (xs : List SpecifierClass) → stdio_under xs ≡ no_stdio → ⊥
unfolding stdio_under
under-some [] e = cc
under-some (x ∷ xs) e = ground (arith, under-some xs)

wrap-other : (sus : StdioUsageStatus) → wrap_stdio false sus ≡ with_reuser → sus ≡ with_reuser
wrap-other is_itself e = cc
wrap-other no_stdio e = e
wrap-other with_reuser e = e
wrap-other indirectly e = e

||-false : (a b : Bool) → a ≡ false → b ≡ false → (a || b) ≡ false
||-false a b e f = rw (e, f) refl

under-has_reuser : (xs : List SpecifierClass) → stdio_under xs ≡ with_reuser → has_reuser xs ≡ true
unfolding stdio_under has_reuser
under-has_reuser [] e = cc
under-has_reuser (x ∷ xs) e = elim (Bool-cases (is_reuser x)) [
  | inl reuser ↦ rw reuser refl
  | inr other ↦ rw other (
      under-has_reuser xs
        (wrap-other (stdio_under xs) (sym (ap (λ b. wrap_stdio b (stdio_under xs)) other) ∙ e)))
]

-- What the status says of a stack without the classes that it ignores.
module _ (st : SpecifierStack) (plain : is_other_stdio st.addrtype ≡ false) where
  status-free : stdio_usage_status st ≡ no_stdio → uses_streams st ≡ false
  unfolding stdio_usage_status uses_streams
  status-free e = elim (Bool-cases (is_stdio st.addrtype)) [
    | inl stdio ↦ absurd (under-some st.overlays (sym (if-true _ _ stdio) ∙ e))
    | inr other ↦ ||-false _ _ other plain
  ]

  status-shared : stdio_usage_status st ≡ with_reuser → has_reuser st.overlays ≡ true
  unfolding stdio_usage_status
  status-shared e = elim (Bool-cases (is_stdio st.addrtype)) [
    | inl stdio ↦ under-has_reuser st.overlays (sym (if-true _ _ stdio) ∙ e)
    | inr other ↦ let clash : no_stdio ≡ with_reuser = sym (if-false _ _ other) ∙ e in cc
  ]

use_async-streams : (st : SpecifierStack) → uses_streams (use_async st) ≡ uses_streams st
unfolding use_async uses_streams
use_async-streams st = elim (Bool-cases (has_name st.addrtype "StdioClass")) [
  | inl stdio ↦
      let streams : uses_streams st ≡ true = rw stdio refl in
      ap uses_streams (if-true (record st { addrtype = async_stdio_class }) st stdio) ∙ sym streams
  | inr other ↦ ap uses_streams (if-false (record st { addrtype = async_stdio_class }) st other)
]

use_async-overlays : (st : SpecifierStack) → (use_async st).overlays ≡ st.overlays
unfolding use_async
use_async-overlays st = ground arith

use_async-IsShared : (st : SpecifierStack) → IsShared st → IsShared (use_async st)
unfolding IsShared uses_streams has_reuser
use_async-IsShared st (inl free) = inl (use_async-streams st ∙ free)
use_async-IsShared st (inr shared) = inr (ap has_reuser (use_async-overlays st) ∙ shared)

settle :
    (multiconnect async : Bool) (d c' : WebsocatConfiguration2)
    → substitute_async async d ≡ c'
    → (uses_streams d.s1 ≡ false) ⊎ (uses_streams d.s2 ≡ false)
    → (multiconnect ≡ true → IsShared d.s2)
    → StdioFixed multiconnect c'
unfolding substitute_async
settle multiconnect false d c' same one many =
    subst (StdioFixed multiconnect) same (record { one_side = one; shared = many })
settle multiconnect true d c' same one many = subst (StdioFixed multiconnect) same (record {
  one_side = elim one [
    | inl free ↦ inl (use_async-streams d.s1 ∙ free)
    | inr free ↦ inr (use_async-streams d.s2 ∙ free)
  ];
  shared = λ m. use_async-IsShared d.s2 (many m);
})

-- Nothing on the left, and a use of standard streams on the right that is not yet shared.
settle_inserted :
    (multiconnect async : Bool) (c c' : WebsocatConfiguration2)
    → substitute_async async (insert_broadcast multiconnect c).0 ≡ c'
    → uses_streams c.s1 ≡ false
    → StdioFixed multiconnect c'
unfolding IsShared has_reuser is_reuser
settle_inserted true async c c' same free =
    settle true async (insert_broadcast true c).0 c' same (inl free) (λ m. inr refl)
settle_inserted false async c c' same free =
    settle false async (insert_broadcast false c).0 c' same (inl free) (λ m. cc)

abbrev mirror_stack : SpecifierStack
mirror_stack = record { addr = []; addrtype = mirror_class; overlays = [] }

from_str-mirror : from_str 12 (codes "mirror:") ≡ some (parsed mirror_stack)
unfolding from_str parse_loop match_class some_checks
from_str-mirror = refl

mirror_stack-free : uses_streams mirror_stack ≡ false
unfolding uses_streams is_stdio
mirror_stack-free = refl

act_like_cat-mirror :
    (c c' : WebsocatConfiguration2) (inserted : Bool) (ws : List Warning)
    → act_like_cat c ≡ done (c', inserted) ws
    → c'.s2 ≡ mirror_stack
unfolding act_like_cat
act_like_cat-mirror c c' inserted ws e = ground (arith, from_str-mirror)

module _ (c : WebsocatConfiguration2) (plain_left : is_other_stdio c.s1.addrtype ≡ false)
    (plain_right : is_other_stdio c.s2.addrtype ≡ false) where
  l_stdio_on-StdioFixed :
      (left right : StdioUsageStatus) (multiconnect async : Bool) (c' : WebsocatConfiguration2)
      (inserted : Bool) (ws : List Warning)
      → stdio_usage_status c.s1 ≡ left
      → stdio_usage_status c.s2 ≡ right
      → l_stdio_on left right multiconnect async c ≡ done (c', inserted) ws
      → StdioFixed multiconnect c'
  unfolding l_stdio_on IsShared
  l_stdio_on-StdioFixed left no_stdio multiconnect async c' inserted ws l r e =
      let free = status-free c.s2 plain_right r in
      settle multiconnect async c c' (cc) (inr free) (λ m. inl free)
  l_stdio_on-StdioFixed no_stdio with_reuser multiconnect async c' inserted ws l r e =
      settle multiconnect async c c' (cc) (inl (status-free c.s1 plain_left l))
        (λ m. inr (status-shared c.s2 plain_right r))
  l_stdio_on-StdioFixed no_stdio indirectly multiconnect async c' inserted ws l r e =
      settle_inserted multiconnect async c c' (cc) (status-free c.s1 plain_left l)
  l_stdio_on-StdioFixed no_stdio is_itself multiconnect async c' inserted ws l r e =
      settle_inserted multiconnect async c c' (cc) (status-free c.s1 plain_left l)
  l_stdio_on-StdioFixed is_itself is_itself multiconnect async c' inserted ws l r e =
      let free = ap uses_streams (act_like_cat-mirror c c' inserted ws e) ∙ mirror_stack-free in
      record { one_side = inr free; shared = λ m. inl free }
  l_stdio_on-StdioFixed left right multiconnect async c' inserted ws l r e = ground arith

-- Of two stacks that are not given as `asyncstdio:` or `inetd:`, what `l_stdio` lets pass uses standard
-- streams, by whatever class, those that it substitutes included, on one side at most; if many connections
-- are served, the right side uses them through a reuser or not at all.
pub l_stdio-StdioFixed :
    (multiconnect async : Bool) (c c' : WebsocatConfiguration2) (inserted : Bool)
    (ws : List Warning)
    → is_other_stdio c.s1.addrtype ≡ false
    → is_other_stdio c.s2.addrtype ≡ false
    → l_stdio multiconnect async c ≡ done (c', inserted) ws
    → StdioFixed multiconnect c'
unfolding l_stdio
l_stdio-StdioFixed multiconnect async c c' inserted ws plain_left plain_right e =
    l_stdio_on-StdioFixed c plain_left plain_right (stdio_usage_status c.s1)
      (stdio_usage_status c.s2) multiconnect async c' inserted ws refl refl e
