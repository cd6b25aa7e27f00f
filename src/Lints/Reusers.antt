-- ===== src/Lints/Reusers.antt =====
-- How the lints change the number of reusers of a stack.
use websocat.Base.{
  Outcome-cases, ◌+◌, ◌≤◌, ◌≡◌, inl, inr, refl, ap, Bool, true, false, List, [], ◌∷◌, ◌++◌, arith,
  returns,
}
use websocat.Specifier.{SpecifierClass, SpecifierStack}
use websocat.Specifier.Classes.Overlay.{line2_message_class, message2_line_class, prometheus_class}
use websocat.Lints.Options.{WebsocatConfiguration2}
use websocat.Lints.Monad.{Linted-cases, Warning, done}
use websocat.Lints.Stacks.{
  StdioUsageStatus, no_stdio, with_reuser, is_itself, stdio_usage_status, is_stream_oriented,
  is_reuser, count_reusers, reuser_count, insert_line_class, insert_line_class_in_proper_place,
}
use websocat.Lints.Stdio.{
  insert_broadcast, substitute_async, act_like_cat, l_prometheus, l_stdio, l_stdio_on, l_reuser,
  l_linemode, insert_line_mode,
}

pub count_reusers-append :
    (xs ys : List SpecifierClass) → count_reusers (xs ++ ys) ≡ count_reusers xs + count_reusers ys
unfolding count_reusers
count_reusers-append [] ys = omega arith
count_reusers-append (x ∷ xs) ys = omega (arith, count_reusers-append xs ys)

insert_line_class-count :
    (ys : List SpecifierClass) (x : SpecifierClass) (zs : List SpecifierClass)
    → is_reuser x ≡ false
    → insert_line_class ys x ≡ returns zs
    → count_reusers zs ≡ count_reusers ys
unfolding insert_line_class count_reusers
insert_line_class-count [] x zs plain e = ground arith
insert_line_class-count (y ∷ ys) x zs plain e = elim (Outcome-cases (insert_line_class ys x)) [
  | inl fault ↦ ground arith
  | inr (vs, rest) ↦ ground (arith, insert_line_class-count ys x vs plain rest)
]

insert-count :
    (st : SpecifierStack) (x : SpecifierClass) (st' : SpecifierStack)
    → is_reuser x ≡ false
    → insert_line_class_in_proper_place st x ≡ returns st'
    → reuser_count st' ≡ reuser_count st
unfolding insert_line_class_in_proper_place reuser_count
insert-count st x st' plain e = elim (Outcome-cases (insert_line_class st.overlays x)) [
  | inl fault ↦ ground arith
  | inr (vs, rest) ↦ ground (arith, insert_line_class-count st.overlays x vs plain rest)
]

line2_message-plain : is_reuser line2_message_class ≡ false
unfolding is_reuser
line2_message-plain = refl

message2_line-plain : is_reuser message2_line_class ≡ false
unfolding is_reuser
message2_line-plain = refl

prometheus-plain : is_reuser prometheus_class ≡ false
unfolding is_reuser
prometheus-plain = refl

-- Both stacks have as many reusers as before.
pub record SameCount (c c' : WebsocatConfiguration2) : Type 0 where
  pub left : reuser_count c'.s1 ≡ reuser_count c.s1
  pub right : reuser_count c'.s2 ≡ reuser_count c.s2

pub l_prometheus-SameCount :
    (c c' : WebsocatConfiguration2) (ws : List Warning)
    → l_prometheus c ≡ done c' ws
    → SameCount c c'
unfolding l_prometheus reuser_count
l_prometheus-SameCount c c' ws e = ground (arith, prometheus-plain)

insert_line_mode-SameCount :
    (left right : Bool) (c c' : WebsocatConfiguration2) (ws : List Warning)
    → insert_line_mode left right c ≡ done c' ws
    → SameCount c c'
unfolding insert_line_mode
insert_line_mode-SameCount false false c c' ws e = ground arith
insert_line_mode-SameCount true true c c' ws e = ground arith
insert_line_mode-SameCount true false c c' ws e =
    elim (Outcome-cases (insert_line_class_in_proper_place c.s1 line2_message_class)) [
      | inl fault ↦ ground arith
      | inr (s1, e1) ↦
          elim (Outcome-cases (insert_line_class_in_proper_place c.s2 message2_line_class)) [
            | inl fault ↦ ground arith
            | inr (s2, e2) ↦ ground (
              arith,
              insert-count c.s1 line2_message_class s1 line2_message-plain e1,
              insert-count c.s2 message2_line_class s2 message2_line-plain e2,
            )
          ]
    ]
insert_line_mode-SameCount false true c c' ws e =
    elim (Outcome-cases (insert_line_class_in_proper_place c.s2 line2_message_class)) [
      | inl fault ↦ ground arith
      | inr (s2, e2) ↦
          elim (Outcome-cases (insert_line_class_in_proper_place c.s1 message2_line_class)) [
            | inl fault ↦ ground arith
            | inr (s1, e1) ↦ ground (
              arith,
              insert-count c.s2 line2_message_class s2 line2_message-plain e2,
              insert-count c.s1 message2_line_class s1 message2_line-plain e1,
            )
          ]
    ]

pub l_linemode-SameCount :
    (c c' : WebsocatConfiguration2) (ws : List Warning) → l_linemode c ≡ done c' ws → SameCount c c'
unfolding l_linemode
l_linemode-SameCount c c' ws e = elim (Outcome-cases (is_stream_oriented c.s1)) [
  | inl fault ↦ ground arith
  | inr (left, e1) ↦ elim (Outcome-cases (is_stream_oriented c.s2)) [
    | inl fault ↦ ground arith
    | inr (right, e2) ↦ elim (Linted-cases (insert_line_mode left right c)) [
      | inl fails ↦ ground (arith, fails c' ws)
      | inr (d, vs, e3) ↦ ground (arith, insert_line_mode-SameCount left right c d vs e3)
    ]
  ]
]

substitute_async-overlays :
    (async : Bool) (c : WebsocatConfiguration2)
    → ((substitute_async async c).s1.overlays ≡ c.s1.overlays)
      × ((substitute_async async c).s2.overlays ≡ c.s2.overlays)
unfolding substitute_async
substitute_async-overlays async c = ground arith

act_like_cat-left :
    (c c' : WebsocatConfiguration2) (inserted : Bool) (ws : List Warning)
    → act_like_cat c ≡ done (c', inserted) ws
    → c'.s1 ≡ c.s1
unfolding act_like_cat
act_like_cat-left c c' inserted ws e = ground arith

l_stdio_on-left :
    (left right : StdioUsageStatus) (multiconnect async : Bool) (c c' : WebsocatConfiguration2)
    (inserted : Bool) (ws : List Warning)
    → l_stdio_on left right multiconnect async c ≡ done (c', inserted) ws
    → c'.s1.overlays ≡ c.s1.overlays
unfolding l_stdio_on
l_stdio_on-left left no_stdio multiconnect async c c' inserted ws e =
    ground (arith, substitute_async-overlays async c)
l_stdio_on-left no_stdio with_reuser multiconnect async c c' inserted ws e =
    ground (arith, substitute_async-overlays async c)
l_stdio_on-left is_itself is_itself multiconnect async c c' inserted ws e =
    ap (λ s. s.overlays) (act_like_cat-left c c' inserted ws e)
l_stdio_on-left left right multiconnect async c c' inserted ws e =
    ground (arith, substitute_async-overlays async (insert_broadcast multiconnect c).0)

pub l_stdio-left :
    (multiconnect async : Bool) (c c' : WebsocatConfiguration2) (inserted : Bool)
    (ws : List Warning)
    → l_stdio multiconnect async c ≡ done (c', inserted) ws
    → c'.s1.overlays ≡ c.s1.overlays
unfolding l_stdio
l_stdio-left multiconnect async c c' inserted ws e =
    l_stdio_on-left (stdio_usage_status c.s1) (stdio_usage_status c.s2) multiconnect async c c'
      inserted ws e

pub l_reuser-le :
    (inserted : Bool) (c c' : WebsocatConfiguration2) (ws : List Warning)
    → l_reuser inserted c ≡ done c' ws
    → (c' ≡ c) × (reuser_count c.s1 + reuser_count c.s2 ≤ 1)
unfolding l_reuser
l_reuser-le inserted c c' ws e = ground arith
