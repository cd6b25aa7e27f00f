-- ===== src/Lints/Fixes.antt =====
-- The lints that change the overlays do not panic on proper stacks, and leave proper ones.
use websocat.Base.{
  ◌≡◌, refl, sym, Bool, true, false, Option, none, some, [], if◌then◌else◌, codes, subst,
}
use websocat.Specifier.{SpecifierClass, SpecifierStack}
use websocat.Specifier.Classes.Overlay.{
  broadcast_reuser_class, line2_message_class, message2_line_class, prometheus_class,
}
use websocat.Specifier.Classes.Local.{async_stdio_class}
use websocat.Specparse.{Parsed, parsed, refused, from_str}
use websocat.Specparse.Shape.{IsProper, from_str-IsProper}
use websocat.Specifier.Table.{is_layer}
use websocat.Lints.Options.{SocketAddr, WebsocatConfiguration2}
use websocat.Lints.Monad.{Warning, LintError, done, failed, ◌>>=◌, attempt, warn_if}
use websocat.Lints.Stacks.{
  StdioUsageStatus, no_stdio, with_reuser, indirectly, is_itself, stdio_usage_status,
  is_stream_oriented, insert_line_class_in_proper_place,
}
use websocat.Lints.Stdio.{
  contains_class, l_prometheus, l_stdio, l_stdio_on, l_reuser, l_linemode, insert_line_mode,
  insert_broadcast, substitute_async, act_like_cat, use_async, wrap, both_directions,
}
use websocat.Lints.Fixup.{stack_fixes}
use websocat.Lints.Proper.{is_stream_oriented-Returns, insert-IsProper, wrap-IsProper}
use websocat.Lints.Quiet.{IsSafe, AreProper, >>=-IsSafe, attempt-IsSafe}

l_prometheus-IsSafe : (c : WebsocatConfiguration2) → AreProper c → IsSafe AreProper (l_prometheus c)
unfolding l_prometheus
l_prometheus-IsSafe c p = asked c.opts.prometheus
  where
    placed : (b : Bool) → AreProper (if b then c else record c { s2 = wrap c.s2 prometheus_class })
    placed true = p
    placed false = record {
      left = p.left;
      right = wrap-IsProper c.s2 prometheus_class refl p.right;
    }

    asked :
        (o : Option SocketAddr)
        → IsSafe AreProper (elim o [
          | some _ ↦
              done
                (if contains_class c "PrometheusClass"
                  then c
                  else record c { s2 = wrap c.s2 prometheus_class })
                []
          | none ↦
              done c (warn_if (contains_class c "PrometheusClass") Warning.prometheus_meaningless)
        ])
    asked (some a) = placed _
    asked none = p

use_async-IsProper : (st : SpecifierStack) → IsProper st → IsProper (use_async st)
unfolding use_async
use_async-IsProper st p = swapped _
  where
    swapped : (b : Bool) → IsProper (if b then record st { addrtype = async_stdio_class } else st)
    swapped true = record { no_alias = refl; address = refl; layers = p.layers }
    swapped false = p

substitute_async-AreProper :
    (async : Bool) (c : WebsocatConfiguration2) → AreProper c → AreProper (substitute_async async c)
unfolding substitute_async
substitute_async-AreProper true c p = record {
  left = use_async-IsProper c.s1 p.left;
  right = use_async-IsProper c.s2 p.right;
}
substitute_async-AreProper false c p = p

-- What `l_stdio` gives, the flag aside.
abbrev ProperFirst : WebsocatConfiguration2 × Bool → Type 0
ProperFirst r = AreProper r.0

act_like_cat-IsSafe :
    (c : WebsocatConfiguration2) → AreProper c → IsSafe ProperFirst (act_like_cat c)
unfolding act_like_cat
act_like_cat-IsSafe c p = parsed_cat (from_str 12 (codes "mirror:")) refl
  where
    parsed_cat :
        (r : Option (Parsed SpecifierStack))
        → from_str 12 (codes "mirror:") ≡ r
        → IsSafe ProperFirst (elim r [
          | none ↦ failed LintError.out_of_fuel
          | some (refused e) ↦ failed (LintError.parse_error e)
          | some (parsed st) ↦ done (record c { s2 = st; opts = both_directions c.opts }, false) []
        ])
    parsed_cat none e = tt
    parsed_cat (some (refused x)) e = tt
    parsed_cat (some (parsed st)) e = record {
      left = p.left;
      right = from_str-IsProper 12 (codes "mirror:") st e;
    }

insert_broadcast-AreProper :
    (multiconnect : Bool) (c : WebsocatConfiguration2)
    → AreProper c
    → AreProper (insert_broadcast multiconnect c).0
insert_broadcast-AreProper true c p = record {
  left = p.left;
  right = wrap-IsProper c.s2 broadcast_reuser_class refl p.right;
}
insert_broadcast-AreProper false c p = p

l_stdio_on-IsSafe :
    (left right : StdioUsageStatus) (multiconnect async : Bool) (c : WebsocatConfiguration2)
    → AreProper c
    → IsSafe ProperFirst (l_stdio_on left right multiconnect async c)
unfolding l_stdio_on
l_stdio_on-IsSafe left no_stdio multiconnect async c p = substitute_async-AreProper async c p
l_stdio_on-IsSafe no_stdio with_reuser multiconnect async c p = substitute_async-AreProper async c p
l_stdio_on-IsSafe no_stdio indirectly multiconnect async c p =
    substitute_async-AreProper async _ (insert_broadcast-AreProper multiconnect c p)
l_stdio_on-IsSafe no_stdio is_itself multiconnect async c p =
    substitute_async-AreProper async _ (insert_broadcast-AreProper multiconnect c p)
l_stdio_on-IsSafe is_itself is_itself multiconnect async c p = act_like_cat-IsSafe c p
l_stdio_on-IsSafe left right multiconnect async c p = tt

l_reuser-IsSafe :
    (inserted : Bool) (c : WebsocatConfiguration2)
    → AreProper c
    → IsSafe AreProper (l_reuser inserted c)
unfolding l_reuser
l_reuser-IsSafe inserted c p = limited _
  where
    limited :
        (b : Bool) → IsSafe AreProper (if b then failed LintError.too_many_reusers else done c [])
    limited true = tt
    limited false = p

-- A line class put in its place.
insert-IsSafe :
    (st : SpecifierStack) (x : SpecifierClass)
    → is_layer x ≡ true
    → IsProper st
    → IsSafe IsProper (attempt (insert_line_class_in_proper_place st x))
insert-IsSafe st x l p =
    let (st', e, q) = insert-IsProper st x l p in subst (λ o. IsSafe IsProper (attempt o)) (sym e) q

insert_line_mode-IsSafe :
    (left right : Bool) (c : WebsocatConfiguration2)
    → AreProper c
    → IsSafe AreProper (insert_line_mode left right c)
unfolding insert_line_mode
insert_line_mode-IsSafe false false c p = p
insert_line_mode-IsSafe true true c p = p
insert_line_mode-IsSafe true false c p =
    >>=-IsSafe IsProper AreProper
      (attempt (insert_line_class_in_proper_place c.s1 line2_message_class)) _
      (insert-IsSafe c.s1 line2_message_class refl p.left)
      (λ s1 q.
        >>=-IsSafe IsProper AreProper
          (attempt (insert_line_class_in_proper_place c.s2 message2_line_class)) _
          (insert-IsSafe c.s2 message2_line_class refl p.right)
          (λ s2 r. record { left = q; right = r }))
insert_line_mode-IsSafe false true c p =
    >>=-IsSafe IsProper AreProper
      (attempt (insert_line_class_in_proper_place c.s2 line2_message_class)) _
      (insert-IsSafe c.s2 line2_message_class refl p.right)
      (λ s2 r.
        >>=-IsSafe IsProper AreProper
          (attempt (insert_line_class_in_proper_place c.s1 message2_line_class)) _
          (insert-IsSafe c.s1 message2_line_class refl p.left)
          (λ s1 q. record { left = q; right = r }))

l_linemode-IsSafe : (c : WebsocatConfiguration2) → AreProper c → IsSafe AreProper (l_linemode c)
unfolding l_linemode
l_linemode-IsSafe c p = wanted _
  where
    both : IsSafe AreProper (
        attempt (is_stream_oriented c.s1) >>= (λ left.
          attempt (is_stream_oriented c.s2) >>= (λ right. insert_line_mode left right c)))
    both =
        >>=-IsSafe _ AreProper (attempt (is_stream_oriented c.s1)) _
          (attempt-IsSafe _ (is_stream_oriented-Returns c.s1 p.left))
          (λ left e.
            >>=-IsSafe _ AreProper (attempt (is_stream_oriented c.s2)) _
              (attempt-IsSafe _ (is_stream_oriented-Returns c.s2 p.right))
              (λ right e'. insert_line_mode-IsSafe left right c p))

    wanted :
        (b : Bool)
        → IsSafe AreProper (
            if b
            then attempt (is_stream_oriented c.s1) >>= (λ left.
              attempt (is_stream_oriented c.s2) >>= (λ right. insert_line_mode left right c))
            else done c [])
    wanted true = both
    wanted false = p

pub stack_fixes-IsSafe :
    (multiconnect : Bool) (c : WebsocatConfiguration2)
    → AreProper c
    → IsSafe AreProper (stack_fixes multiconnect c)
unfolding stack_fixes l_stdio
stack_fixes-IsSafe multiconnect c p =
    >>=-IsSafe AreProper AreProper (l_prometheus c) _ (l_prometheus-IsSafe c p) (λ c1 p1.
      >>=-IsSafe ProperFirst AreProper (l_stdio multiconnect c.opts.asyncstdio c1) _
        (l_stdio_on-IsSafe (stdio_usage_status c1.s1) (stdio_usage_status c1.s2) multiconnect
          c.opts.asyncstdio c1 p1)
        (λ r p2.
          >>=-IsSafe AreProper AreProper (l_reuser r.1 r.0) _ (l_reuser-IsSafe r.1 r.0 p2)
            (λ c3 p3. l_linemode-IsSafe c3 p3)))
