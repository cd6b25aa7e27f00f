-- ===== src/Lints/OneReuser.antt =====
-- A configuration that passes the lints has one reuser at most.
use websocat.Base.{
  Outcome-cases, Outcome-cases, ◌+◌, ◌≤◌, ◌≡◌, inl, inr, refl, ap, ◌∙◌, Bool, true, false, not,
  List, [], ◌∷◌, arith, if◌then◌else◌, All, Bytes, Outcome, returns, Bool-cases, Option-cases,
}
use websocat.Specifier.{SpecifierClass, SpecifierStack, single_connect}
use websocat.Specifier.Classes.Overlay.{reuser_class}
use websocat.Lints.Options.{Options, WebsocatConfiguration2}
use websocat.Lints.Monad.{with_warnings-eq-done, Warning, done, ◌>>=◌, >>=-eq-done}
use websocat.Lints.Stacks.{
  has_name, multiconnect_address, is_reuser, count_reusers, reuser_count, multiconnect_over,
  is_multiconnect,
}
use websocat.Lints.Stdio.{l_stdio, l_reuser_for_append}
use websocat.Lints.Socks.{
  socks_warnings, is_ws_client, socksify_calls, UrlParser, l_socks5_c, socks_overlays, socksify,
  socksify_left, socksify_right, l_socks5,
}
use websocat.Lints.Reusers.{
  count_reusers-append, SameCount, l_prometheus-SameCount, l_linemode-SameCount, l_stdio-left,
  l_reuser-le,
}
use websocat.Lints.Stdio.{xor}
use websocat.Lints.Steps.{FixSteps, lint_and_fixup-LintSteps}
use websocat.Lints.Fixup.{serves_many, lint_and_fixup}

-- Every class with a reuser's name connects once, as the registry's reusers do.
abbrev pub ReusersConnectOnce : List SpecifierClass → Type 0
ReusersConnectOnce = All (λ x. is_reuser x ≡ true → x.multiconnect_status ≡ returns single_connect)

multiconnect_over-count :
    (xs : List SpecifierClass) (inner : Outcome Bool)
    → ReusersConnectOnce xs
    → multiconnect_over xs inner ≡ returns true
    → count_reusers xs ≡ 0
unfolding multiconnect_over count_reusers
multiconnect_over-count [] inner h e = refl
multiconnect_over-count (x ∷ xs) inner h e = elim (Outcome-cases (multiconnect_over xs inner)) [
  | inl fault ↦ ground arith
  | inr (b, below) ↦ elim (Bool-cases (is_reuser x)) [
    | inl reuser ↦ ground (arith, h.0 reuser)
    | inr plain ↦ ground (arith, multiconnect_over-count xs inner h.1)
  ]
]

serves_many-count :
    (c : WebsocatConfiguration2)
    → ReusersConnectOnce c.s1.overlays
    → serves_many c ≡ returns true
    → reuser_count c.s1 ≡ 0
unfolding reuser_count is_multiconnect
serves_many-count c h e = ground (
  arith,
  multiconnect_over-count c.s1.overlays (multiconnect_address c.s1.addrtype.multiconnect_status) h,
)

reuser_class-counts : is_reuser reuser_class ≡ true
unfolding is_reuser
reuser_class-counts = refl

l_reuser_for_append-count :
    (multiconnect : Bool) (c c' : WebsocatConfiguration2) (ws : List Warning)
    → l_reuser_for_append multiconnect c ≡ done c' ws
    → (multiconnect ≡ true → reuser_count c.s1 ≡ 0)
    → reuser_count c.s1 + reuser_count c.s2 ≤ 1
    → reuser_count c'.s1 + reuser_count c'.s2 ≤ 1
unfolding l_reuser_for_append reuser_count count_reusers
l_reuser_for_append-count true c c' ws e h le =
    ground
      (arith, h refl, count_reusers-append c.s2.overlays (reuser_class ∷ []), reuser_class-counts)
l_reuser_for_append-count false c c' ws e h le = ground arith

l_stdio-count :
    (multiconnect async : Bool) (c c' : WebsocatConfiguration2) (inserted : Bool)
    (ws : List Warning)
    → l_stdio multiconnect async c ≡ done (c', inserted) ws
    → reuser_count c'.s1 ≡ reuser_count c.s1
unfolding reuser_count
l_stdio-count multiconnect async c c' inserted ws e =
    ap count_reusers (l_stdio-left multiconnect async c c' inserted ws e)

stack_fixes-count :
    {multiconnect : Bool} {c c' : WebsocatConfiguration2}
    → FixSteps multiconnect c c'
    → (reuser_count c'.s1 ≡ reuser_count c.s1) × (reuser_count c'.s1 + reuser_count c'.s2 ≤ 1)
stack_fixes-count {multiconnect} {c} {c'} st =
    let a = l_prometheus-SameCount c st.c1 st.w1 st.prometheus in
    let b = l_stdio-count multiconnect c.opts.asyncstdio st.c1 st.c2 st.inserted st.w2 st.stdio in
    let (same, le) = l_reuser-le st.inserted st.c2 st.c3 st.w3 st.reuser in
    let d = l_linemode-SameCount st.c3 c' st.w4 st.linemode in
    let left = ap (λ (z : WebsocatConfiguration2). reuser_count z.s1) same in
    let right = ap (λ (z : WebsocatConfiguration2). reuser_count z.s2) same in
    let dl = d.left in let dr = d.right in let al = a.left in (omega arith, omega arith)

-- The overlays of a socksified client hold no reuser.
socks_overlays-count : (secure : Bool) → count_reusers (socks_overlays secure) ≡ 0
unfolding socks_overlays count_reusers is_reuser
socks_overlays-count true = refl
socks_overlays-count false = refl

l_socks5_c-count :
    (parse : UrlParser) (secure : Bool) (s s' : SpecifierStack) (o o' : Options) (ws : List Warning)
    → l_socks5_c parse secure s o ≡ done (s', o') ws
    → reuser_count s' ≡ reuser_count s
unfolding l_socks5_c reuser_count
l_socks5_c-count parse secure s s' o o' ws e =
    ground
      (arith, count_reusers-append s.overlays (socks_overlays secure), socks_overlays-count secure)

-- One conditional call, on either side.
socksified_left :
    (parse : UrlParser) (secure : Bool) (c c' : WebsocatConfiguration2) (ws : List Warning)
    → (l_socks5_c parse secure c.s1 c.opts >>= (λ r. done (record c { s1 = r.0; opts = r.1 }) []))
      ≡ done c' ws
    → SameCount c c'
socksified_left parse secure c c' ws e =
    let (r, us, vs, found, same) = >>=-eq-done (l_socks5_c parse secure c.s1 c.opts) _ c' ws e in
    ground (arith, l_socks5_c-count parse secure c.s1 r.0 c.opts r.1 us found)

socksify_left-SameCount :
    (parse : UrlParser) (secure : Bool) (c c' : WebsocatConfiguration2) (ws : List Warning)
    → socksify_left parse secure c ≡ done c' ws
    → SameCount c c'
unfolding socksify_left
socksify_left-SameCount parse secure c c' ws e =
    elim (Bool-cases
      (has_name c.s1.addrtype (if secure then "WsClientSecureClass" else "WsClientClass"))) [
        | inl hit ↦ socksified_left parse secure c c' ws (rw (hit, socksify_left) at e)
        | inr miss ↦ ground arith
      ]

socksified_right :
    (parse : UrlParser) (secure : Bool) (c c' : WebsocatConfiguration2) (ws : List Warning)
    → (l_socks5_c parse secure c.s2 c.opts >>= (λ r. done (record c { s2 = r.0; opts = r.1 }) []))
      ≡ done c' ws
    → SameCount c c'
socksified_right parse secure c c' ws e =
    let (r, us, vs, found, same) = >>=-eq-done (l_socks5_c parse secure c.s2 c.opts) _ c' ws e in
    ground (arith, l_socks5_c-count parse secure c.s2 r.0 c.opts r.1 us found)

socksify_right-SameCount :
    (parse : UrlParser) (secure : Bool) (c c' : WebsocatConfiguration2) (ws : List Warning)
    → socksify_right parse secure c ≡ done c' ws
    → SameCount c c'
unfolding socksify_right
socksify_right-SameCount parse secure c c' ws e =
    elim (Bool-cases
      (has_name c.s2.addrtype (if secure then "WsClientSecureClass" else "WsClientClass"))) [
        | inl hit ↦ socksified_right parse secure c c' ws (rw (hit, socksify_right) at e)
        | inr miss ↦ ground arith
      ]

SameCount-trans : {c d e : WebsocatConfiguration2} → SameCount c d → SameCount d e → SameCount c e
SameCount-trans p q = record { left = q.left ∙ p.left; right = q.right ∙ p.right }

socksify_calls-SameCount :
    (parse : UrlParser) (c c' : WebsocatConfiguration2) (ws : List Warning)
    → socksify_calls parse c ≡ done c' ws
    → SameCount c c'
unfolding socksify_calls
socksify_calls-SameCount parse c c' ws e =
    let (c1, u1, v1, e1, r1) = >>=-eq-done (socksify_left parse false c) _ c' ws e in
    let (c2, u2, v2, e2, r2) = >>=-eq-done (socksify_left parse true c1) _ c' v1 r1 in
    let (c3, u3, v3, e3, r3) = >>=-eq-done (socksify_right parse false c2) _ c' v2 r2 in
    SameCount-trans (socksify_left-SameCount parse false c c1 u1 e1) (
      SameCount-trans (socksify_left-SameCount parse true c1 c2 u2 e2) (
        SameCount-trans (socksify_right-SameCount parse false c2 c3 u3 e3)
          (socksify_right-SameCount parse true c3 c' v3 r3)))

socksify-SameCount :
    (parse : UrlParser) (c c' : WebsocatConfiguration2) (ws : List Warning)
    → socksify parse c ≡ done c' ws
    → SameCount c c'
unfolding socksify
socksify-SameCount parse c c' ws e =
    elim (Bool-cases (not (xor (is_ws_client c.s1) (is_ws_client c.s2)))) [
      | inl bad ↦ absurd (cc (rw (bad, socksify) at e))
      | inr exactly_one ↦ socksify_calls-SameCount parse c c' ws (rw (exactly_one, socksify) at e)
    ]

l_socks5-SameCount :
    (parse : UrlParser) (c c' : WebsocatConfiguration2) (ws : List Warning)
    → l_socks5 parse c ≡ done c' ws
    → SameCount c c'
unfolding l_socks5 socks_warnings
l_socks5-SameCount parse c c' ws e = elim (Option-cases c.opts.auto_socks5) [
  | inl off ↦ ground arith
  | inr (proxy, on) ↦
      let (vs, r) =
        with_warnings-eq-done (socksify parse c) (socks_warnings c) ws c'
          (rw (on, l_socks5) at e) in
      socksify-SameCount parse c c' vs r
]

-- If the lints pass a configuration whose reusers connect once, as parsed ones do, then its two stacks
-- together have one reuser at most, those that the lints inserted included.
pub lint_and_fixup-one_reuser :
    (parse : UrlParser) (exists : Bytes → Bool) (c c' : WebsocatConfiguration2) (ws : List Warning)
    → ReusersConnectOnce c.s1.overlays
    → lint_and_fixup parse exists c ≡ done c' ws
    → reuser_count c'.s1 + reuser_count c'.s2 ≤ 1
lint_and_fixup-one_reuser parse exists c c' ws h e =
    let st = lint_and_fixup-LintSteps parse exists c c' ws e in
    let (same, le) = stack_fixes-count st.fixes in
    let once : st.multiconnect ≡ true → reuser_count st.c1.s1 ≡ 0 =
      λ m. same ∙ serves_many-count c h (st.serves ∙ ap returns m) in
    let le' =
      l_reuser_for_append-count st.multiconnect st.c1 st.c2 st.early.w1 st.early.append once le in
    let d = l_socks5-SameCount parse st.c2 c' st.w st.socks in
    let dl = d.left in let dr = d.right in omega arith
