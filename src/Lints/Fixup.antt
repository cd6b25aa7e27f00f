-- ===== src/Lints/Fixup.antt =====
-- `lint_and_fixup`: every lint in its order. The URL parser and the file system's test are parameters.
use websocat.Base.{Bool, false, [], if◌then◌else◌, Bytes, Outcome, returns}
use websocat.Lints.Options.{WebsocatConfiguration2}
use websocat.Lints.Monad.{Linted, done, ◌>>=◌, attempt}
use websocat.Lints.Stacks.{is_multiconnect}
use websocat.Lints.Stdio.{l_prometheus, l_stdio, l_reuser, l_linemode, l_reuser_for_append}
use websocat.Lints.Socks.{UrlParser, l_socks5}
use websocat.Lints.Checks.{
  l_listener_on_the_right, l_exec, l_uri_staticfiles, l_environ, l_closebug, l_ssl, l_ping, l_proto,
  l_eeof_unidir, l_udp, l_crypto, l_sizelimits, l_compress, l_plugins, l_wasm,
}

infixl 5 ◌>>◌
abbrev pub ◌>>◌ {ℓ} : {B : Type ℓ} → Linted (Unit {0}) → Linted B → Linted B
m >> k = m >>= λ _. k

-- The lints before the SOCKS one; those from `l_listener_on_the_right` to `l_closebug`.
unfoldable pub early_checks :
    (Bytes → Bool) → Bool → WebsocatConfiguration2 → Linted WebsocatConfiguration2
early_checks exists multiconnect c = do
  l_listener_on_the_right c
  c' ← l_reuser_for_append multiconnect c
  l_exec c'
  l_uri_staticfiles exists c'
  l_environ c'
  l_closebug c'
  done c' []

-- The lints behind the SOCKS one.
unfoldable pub late_checks : WebsocatConfiguration2 → Linted (Unit {0})
late_checks c = do
  l_ssl c
  l_ping c
  l_proto c
  l_eeof_unidir c
  l_udp c
  l_crypto c
  l_sizelimits c
  l_compress c
  l_plugins c
  l_wasm c

unfoldable pub stack_fixes : Bool → WebsocatConfiguration2 → Linted WebsocatConfiguration2
stack_fixes multiconnect c = do
  c1 ← l_prometheus c
  (c2, reuser_has_been_inserted) ← l_stdio multiconnect c.opts.asyncstdio c1
  c3 ← l_reuser reuser_has_been_inserted c2
  l_linemode c3

-- `!self.opts.oneshot && self.s1.is_multiconnect()`
abbrev pub serves_many : WebsocatConfiguration2 → Outcome Bool
serves_many c = if c.opts.oneshot then returns false else is_multiconnect c.s1

unfoldable pub lint_and_fixup :
    UrlParser → (Bytes → Bool) → WebsocatConfiguration2 → Linted WebsocatConfiguration2
lint_and_fixup parse exists c = do
  multiconnect ← attempt (serves_many c)
  c1 ← stack_fixes multiconnect c
  c2 ← early_checks exists multiconnect c1
  c3 ← l_socks5 parse c2
  late_checks c3
  done c3 []
