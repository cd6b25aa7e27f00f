-- ===== src/Lints/Steps.antt =====
-- The intermediate configurations of a successful run of the lints.
use websocat.Base.{◌≡◌, Bool, List, Bytes, Outcome, returns, panics, subst}
use websocat.Lints.Options.{WebsocatConfiguration2}
use websocat.Lints.Monad.{Warning, done, >>=-eq-done, attempt}
use websocat.Lints.Stdio.{l_prometheus, l_stdio, l_reuser, l_linemode, l_reuser_for_append}
use websocat.Lints.Socks.{UrlParser, l_socks5}
use websocat.Lints.Checks.{
  l_listener_on_the_right, l_exec, l_uri_staticfiles, l_environ, l_closebug, l_ssl, l_ping, l_proto,
  l_eeof_unidir, l_udp, l_crypto, l_sizelimits, l_compress, l_plugins, l_wasm,
}
use websocat.Lints.Fixup.{serves_many, stack_fixes, early_checks, late_checks, lint_and_fixup}

pub record FixSteps (multiconnect : Bool) (c c' : WebsocatConfiguration2) : Type 0 where
  pub c1 : WebsocatConfiguration2
  pub c2 : WebsocatConfiguration2
  pub c3 : WebsocatConfiguration2
  pub inserted : Bool
  pub w1 : List Warning
  pub w2 : List Warning
  pub w3 : List Warning
  pub w4 : List Warning
  pub prometheus : l_prometheus c ≡ done c1 w1
  pub stdio : l_stdio multiconnect c.opts.asyncstdio c1 ≡ done (c2, inserted) w2
  pub reuser : l_reuser inserted c2 ≡ done c3 w3
  pub linemode : l_linemode c3 ≡ done c' w4

pub stack_fixes-FixSteps :
    (multiconnect : Bool) (c c' : WebsocatConfiguration2) (ws : List Warning)
    → stack_fixes multiconnect c ≡ done c' ws
    → FixSteps multiconnect c c'
unfolding stack_fixes
stack_fixes-FixSteps multiconnect c c' ws e =
    let (c1, u1, v1, e1, r1) = >>=-eq-done (l_prometheus c) _ c' ws e in
    let ((c2, inserted), u2, v2, e2, r2) =
      >>=-eq-done (l_stdio multiconnect c.opts.asyncstdio c1) _ c' v1 r1 in
    let (c3, u3, v3, e3, r3) = >>=-eq-done (l_reuser inserted c2) _ c' v2 r2 in
    record {
      c1 = c1;
      c2 = c2;
      c3 = c3;
      inserted = inserted;
      w1 = u1;
      w2 = u2;
      w3 = u3;
      w4 = v3;
      prometheus = e1;
      stdio = e2;
      reuser = e3;
      linemode = r3;
    }

-- The early checks change the configuration by `l_reuser_for_append` only.
pub record EarlySteps (multiconnect : Bool) (c c' : WebsocatConfiguration2) : Type 0 where
  pub w1 : List Warning
  pub w2 : List Warning
  pub append : l_reuser_for_append multiconnect c ≡ done c' w1
  pub exec : l_exec c' ≡ done tt w2

pub early_checks-EarlySteps :
    (exists : Bytes → Bool) (multiconnect : Bool) (c c' : WebsocatConfiguration2)
    (ws : List Warning)
    → early_checks exists multiconnect c ≡ done c' ws
    → EarlySteps multiconnect c c'
unfolding early_checks
early_checks-EarlySteps exists multiconnect c c' ws e =
    let (t1, u1, v1, e1, r1) = >>=-eq-done (l_listener_on_the_right c) _ c' ws e in
    let (d, u2, v2, e2, r2) = >>=-eq-done (l_reuser_for_append multiconnect c) _ c' v1 r1 in
    let (t3, u3, v3, e3, r3) = >>=-eq-done (l_exec d) _ c' v2 r2 in
    let (t4, u4, v4, e4, r4) = >>=-eq-done (l_uri_staticfiles exists d) _ c' v3 r3 in
    let (t5, u5, v5, e5, r5) = >>=-eq-done (l_environ d) _ c' v4 r4 in
    let (t6, u6, v6, e6, r6) = >>=-eq-done (l_closebug d) _ c' v5 r5 in
    let same : d ≡ c' = cc in
    record {
      w1 = u2;
      w2 = u3;
      append = subst (λ z. l_reuser_for_append multiconnect c ≡ done z u2) same e2;
      exec = subst (λ z. l_exec z ≡ done tt u3) same e3;
    }

-- What the late checks have let pass.
pub record LateSteps (c : WebsocatConfiguration2) : Type 0 where
  pub w1 : List Warning
  pub w2 : List Warning
  pub w3 : List Warning
  pub w4 : List Warning
  pub w5 : List Warning
  pub ssl : l_ssl c ≡ done tt w1
  pub udp : l_udp c ≡ done tt w2
  pub compress : l_compress c ≡ done tt w3
  pub plugins : l_plugins c ≡ done tt w4
  pub wasm : l_wasm c ≡ done tt w5

pub late_checks-LateSteps :
    (c : WebsocatConfiguration2) (ws : List Warning) → late_checks c ≡ done tt ws → LateSteps c
unfolding late_checks
late_checks-LateSteps c ws e =
    let (t1, u1, v1, e1, r1) = >>=-eq-done (l_ssl c) _ tt ws e in
    let (t2, u2, v2, e2, r2) = >>=-eq-done (l_ping c) _ tt v1 r1 in
    let (t3, u3, v3, e3, r3) = >>=-eq-done (l_proto c) _ tt v2 r2 in
    let (t4, u4, v4, e4, r4) = >>=-eq-done (l_eeof_unidir c) _ tt v3 r3 in
    let (t5, u5, v5, e5, r5) = >>=-eq-done (l_udp c) _ tt v4 r4 in
    let (t6, u6, v6, e6, r6) = >>=-eq-done (l_crypto c) _ tt v5 r5 in
    let (t7, u7, v7, e7, r7) = >>=-eq-done (l_sizelimits c) _ tt v6 r6 in
    let (t8, u8, v8, e8, r8) = >>=-eq-done (l_compress c) _ tt v7 r7 in
    let (t9, u9, v9, e9, r9) = >>=-eq-done (l_plugins c) _ tt v8 r8 in
    record {
      w1 = u1;
      w2 = u5;
      w3 = u8;
      w4 = u9;
      w5 = v9;
      ssl = e1;
      udp = e5;
      compress = e8;
      plugins = e9;
      wasm = r9;
    }

pub record LintSteps (parse : UrlParser) (c c' : WebsocatConfiguration2) : Type 0 where
  pub multiconnect : Bool
  pub c1 : WebsocatConfiguration2
  pub c2 : WebsocatConfiguration2
  pub w : List Warning
  pub serves : serves_many c ≡ returns multiconnect
  pub fixes : FixSteps multiconnect c c1
  pub early : EarlySteps multiconnect c1 c2
  pub socks : l_socks5 parse c2 ≡ done c' w
  pub late : LateSteps c'

attempt-done {ℓ} :
    {A : Type ℓ} (o : Outcome A) (a : A) (ws : List Warning) → attempt o ≡ done a ws → o ≡ returns a
attempt-done (returns b) a ws e = cc
attempt-done panics a ws e = cc

pub lint_and_fixup-LintSteps :
    (parse : UrlParser) (exists : Bytes → Bool) (c c' : WebsocatConfiguration2) (ws : List Warning)
    → lint_and_fixup parse exists c ≡ done c' ws
    → LintSteps parse c c'
unfolding lint_and_fixup
lint_and_fixup-LintSteps parse exists c c' ws e =
    let (m, u1, v1, e1, r1) = >>=-eq-done (attempt (serves_many c)) _ c' ws e in
    let (c1, u2, v2, e2, r2) = >>=-eq-done (stack_fixes m c) _ c' v1 r1 in
    let (c2, u3, v3, e3, r3) = >>=-eq-done (early_checks exists m c1) _ c' v2 r2 in
    let (d, u4, v4, e4, r4) = >>=-eq-done (l_socks5 parse c2) _ c' v3 r3 in
    let (t, u5, v5, e5, r5) = >>=-eq-done (late_checks d) _ c' v4 r4 in
    let same : d ≡ c' = cc in
    record {
      multiconnect = m;
      c1 = c1;
      c2 = c2;
      w = u4;
      serves = attempt-done (serves_many c) m u1 e1;
      fixes = stack_fixes-FixSteps m c c1 u2 e2;
      early = early_checks-EarlySteps exists m c1 c2 u3 e3;
      socks = subst (λ z. l_socks5 parse c2 ≡ done z u4) same e4;
      late = subst LateSteps same (late_checks-LateSteps d u5 e5);
    }
