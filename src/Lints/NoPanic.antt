-- ===== src/Lints/NoPanic.antt =====
-- The lints do not panic on proper stacks, and leave proper stacks.
use websocat.Base.{
  ◌≡◌, ◌≢◌, inl, inr, refl, sym, ap, Bool, true, false, none, some, [], ◌++◌, if◌then◌else◌, All,
  Bytes, returns, Bool-cases, Option-cases, subst, if-true, if-false,
}
use websocat.Specifier.{SpecifierStack}
use websocat.Specifier.Classes.Net.{tcp_connect_class}
use websocat.Specparse.Shape.{IsProper}
use websocat.Specifier.Table.{is_layer}
use websocat.Lints.Options.{Options, WebsocatConfiguration2}
use websocat.Lints.Monad.{LintError, Linted, done, failed, panicked, attempt}
use websocat.Lints.Stacks.{has_name, is_multiconnect}
use websocat.Lints.Socks.{
  Url, UrlParser, l_socks5, l_socks5_c, socksify, socksify_calls, socksify_left, socksify_right,
  socks_overlays, with_url, socks_url, socks_warnings,
}
use websocat.Lints.Fixup.{serves_many, stack_fixes, early_checks, late_checks, lint_and_fixup}
use websocat.Lints.Proper.{Returns, is_multiconnect-Returns, push-IsProper}
use websocat.Lints.Quiet.{
  IsSafe, AreProper, >>=-IsSafe, with_warnings-IsSafe, attempt-IsSafe, early_checks-IsSafe,
  late_checks-Quiet,
}
use websocat.Lints.Socks.{is_some}
use websocat.Lints.Fixes.{stack_fixes-IsSafe}

-- The URL parser has a host for every URL that it says has one.
abbrev pub KnowsHosts : UrlParser → Type 0
KnowsHosts parse = (s : Bytes) (u : Url) → parse s ≡ some u → u.has_host ≡ true → u.host ≢ none

socks_overlays-layers : (secure : Bool) → All (λ x. is_layer x ≡ true) (socks_overlays secure)
unfolding socks_overlays
socks_overlays-layers true = (refl, (refl, (refl, tt)))
socks_overlays-layers false = (refl, (refl, tt))

abbrev ProperSocks : SpecifierStack × Options → Type 0
ProperSocks r = IsProper r.0 × (is_some r.1.auto_socks5 ≡ true)

-- The stack with the proxy's address.
socksified-IsProper :
    (s : SpecifierStack) (secure : Bool) (addr : Bytes)
    → IsProper s
    → IsProper (record s {
      addr = addr;
      addrtype = tcp_connect_class;
      overlays = s.overlays ++ socks_overlays secure;
    })
socksified-IsProper s secure addr p =
    let q = push-IsProper s (socks_overlays secure) (socks_overlays-layers secure) p in
    record { no_alias = refl; address = refl; layers = q.layers }

l_socks5_c-IsSafe :
    (parse : UrlParser) (secure : Bool) (s : SpecifierStack) (o : Options)
    → KnowsHosts parse
    → is_some o.auto_socks5 ≡ true
    → IsProper s
    → IsSafe ProperSocks (l_socks5_c parse secure s o)
unfolding l_socks5_c with_url
l_socks5_c-IsSafe parse secure s o k a p = elim (Option-cases o.auto_socks5) [
  | inl no_proxy ↦ absurd (cc (rw no_proxy at a))
  | inr (proxy, e1) ↦ elim (Option-cases (parse (socks_url secure s.addr))) [
    | inl bad ↦ rw (e1, bad, l_socks5_c) tt
    | inr (u, e2) ↦ elim (Bool-cases u.has_host) [
      | inl has ↦ elim (Option-cases u.host) [
        | inl no_host ↦ absurd (k (socks_url secure s.addr) u e2 has no_host)
        | inr (h, e4) ↦ rw (e1, e2, has, e4, l_socks5_c) (socksified-IsProper s secure _ p, a)
      ]
      | inr lacks ↦ rw (e1, e2, lacks, l_socks5_c) tt
    ]
  ]
]

record IsSocksified (c : WebsocatConfiguration2) : Type 0 where
  proper : AreProper c
  proxy : is_some c.opts.auto_socks5 ≡ true

socksify_left-IsSafe :
    (parse : UrlParser) (secure : Bool) (c : WebsocatConfiguration2)
    → KnowsHosts parse
    → IsSocksified c
    → IsSafe IsSocksified (socksify_left parse secure c)
unfolding socksify_left
socksify_left-IsSafe parse secure c k p =
    elim (Bool-cases
      (has_name c.s1.addrtype (if secure then "WsClientSecureClass" else "WsClientClass"))) [
        | inl hit ↦ subst (IsSafe IsSocksified) (sym (if-true _ _ hit)) (
            >>=-IsSafe ProperSocks IsSocksified (l_socks5_c parse secure c.s1 c.opts) _
              (l_socks5_c-IsSafe parse secure c.s1 c.opts k p.proxy p.proper.left)
              (λ r q. record {
                proper = record { left = q.0; right = p.proper.right };
                proxy = q.1;
              }))
        | inr miss ↦ subst (IsSafe IsSocksified) (sym (if-false _ _ miss)) p
      ]

socksify_right-IsSafe :
    (parse : UrlParser) (secure : Bool) (c : WebsocatConfiguration2)
    → KnowsHosts parse
    → IsSocksified c
    → IsSafe IsSocksified (socksify_right parse secure c)
unfolding socksify_right
socksify_right-IsSafe parse secure c k p =
    elim (Bool-cases
      (has_name c.s2.addrtype (if secure then "WsClientSecureClass" else "WsClientClass"))) [
        | inl hit ↦ subst (IsSafe IsSocksified) (sym (if-true _ _ hit)) (
            >>=-IsSafe ProperSocks IsSocksified (l_socks5_c parse secure c.s2 c.opts) _
              (l_socks5_c-IsSafe parse secure c.s2 c.opts k p.proxy p.proper.right)
              (λ r q. record {
                proper = record { left = p.proper.left; right = q.0 };
                proxy = q.1;
              }))
        | inr miss ↦ subst (IsSafe IsSocksified) (sym (if-false _ _ miss)) p
      ]

socksify_calls-IsSafe :
    (parse : UrlParser) (c : WebsocatConfiguration2)
    → KnowsHosts parse
    → IsSocksified c
    → IsSafe AreProper (socksify_calls parse c)
unfolding socksify_calls
socksify_calls-IsSafe parse c k p =
    >>=-IsSafe IsSocksified AreProper (socksify_left parse false c) _
      (socksify_left-IsSafe parse false c k p)
      (λ c1 p1.
        >>=-IsSafe IsSocksified AreProper (socksify_left parse true c1) _
          (socksify_left-IsSafe parse true c1 k p1)
          (λ c2 p2.
            >>=-IsSafe IsSocksified AreProper (socksify_right parse false c2) _
              (socksify_right-IsSafe parse false c2 k p2)
              (λ c3 p3.
                weaken (socksify_right parse true c3) (socksify_right-IsSafe parse true c3 k p3))))
  where
    weaken : (m : Linted WebsocatConfiguration2) → IsSafe IsSocksified m → IsSafe AreProper m
    weaken (done d ws) h = h.proper
    weaken (failed e) h = tt
    weaken panicked h = h

l_socks5-IsSafe :
    (parse : UrlParser) (c : WebsocatConfiguration2)
    → KnowsHosts parse
    → AreProper c
    → IsSafe AreProper (l_socks5 parse c)
unfolding l_socks5 socksify
l_socks5-IsSafe parse c k p =
    with_warnings-IsSafe AreProper (socks_warnings c) _ (elim (Option-cases c.opts.auto_socks5) [
      | inl off ↦
          subst (λ o. IsSafe AreProper (elim o [ none ↦ done c [] | some _ ↦ socksify parse c ]))
            (sym off) p
      | inr (proxy, on) ↦
          subst (λ o. IsSafe AreProper (elim o [ none ↦ done c [] | some _ ↦ socksify parse c ]))
            (sym on) (one_client _ (record { proper = p; proxy = ap is_some on }))
    ])
  where
    one_client :
        (b : Bool)
        → IsSocksified c
        → IsSafe AreProper
            (if b then failed LintError.socks5_not_exactly_one else socksify_calls parse c)
    one_client true q = tt
    one_client false q = socksify_calls-IsSafe parse c k q

serves_many-Returns : (c : WebsocatConfiguration2) → AreProper c → Returns (serves_many c)
serves_many-Returns c p = asked c.opts.oneshot
  where
    asked : (b : Bool) → Returns (if b then returns false else is_multiconnect c.s1)
    asked true = (false, refl)
    asked false = is_multiconnect-Returns c.s1 p.left

-- On two proper stacks, as parsing returns them, `lint_and_fixup` returns a configuration whose stacks are
-- proper, or an error; it does not panic. The URL parser has a host for every URL said to have one.
pub lint_and_fixup-IsSafe :
    (parse : UrlParser) (exists : Bytes → Bool) (c : WebsocatConfiguration2)
    → KnowsHosts parse
    → AreProper c
    → IsSafe AreProper (lint_and_fixup parse exists c)
unfolding lint_and_fixup
lint_and_fixup-IsSafe parse exists c k p =
    >>=-IsSafe _ AreProper (attempt (serves_many c)) _ (attempt-IsSafe _ (serves_many-Returns c p))
      (λ m e.
        >>=-IsSafe AreProper AreProper (stack_fixes m c) _ (stack_fixes-IsSafe m c p) (λ c1 p1.
          >>=-IsSafe AreProper AreProper (early_checks exists m c1) _
            (early_checks-IsSafe exists m c1 p1)
            (λ c2 p2.
              >>=-IsSafe AreProper AreProper (l_socks5 parse c2) _ (l_socks5-IsSafe parse c2 k p2)
                (λ c3 p3.
                  >>=-IsSafe (λ _. Unit) AreProper (late_checks c3) _ (late_checks-Quiet c3)
                    (λ _ _. p3)))))
