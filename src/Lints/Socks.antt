-- ===== src/Lints/Socks.antt =====
-- The lints about SOCKS 5 proxies. The URL parser is the `url` crate's, and is a parameter.
use websocat.Base.{
  ℕ, Bool, true, false, not, ◌||◌, Option, none, some, List, [], ◌∷◌, ◌++◌, if◌then◌else◌, Bytes,
  codes, equal,
}
use websocat.Specifier.{SpecifierClass, SpecifierStack}
use websocat.Lints.Options.{Options, WebsocatConfiguration2}
use websocat.Lints.Monad.{
  Warning, LintError, Linted, done, failed, panicked, with_warnings, ◌>>=◌, warn_if,
}
use websocat.Lints.Stacks.{has_name}
use websocat.Lints.Options.{SocketAddr, SocksHostAddr}
use websocat.Lints.Stdio.{contains_class, xor}
use websocat.Specifier.Classes.Net.{tcp_connect_class, socks_proxy_class}
use websocat.Specifier.Classes.Ws.{ws_connect_class, tls_connect_class}

-- What is asked of a parsed `Url`; the host is already told apart as `url::Host` does.
pub record Url : Type 0 where
  pub has_host : Bool
  pub port_or_known_default : Option ℕ
  pub host : Option SocksHostAddr
  pub host_str : Option Bytes

abbrev pub UrlParser : Type 0
UrlParser = Bytes → Option Url

unfoldable pub show_address : SocketAddr → Bytes
show_address (SocketAddr.v4 ip port) = ip ++ (b':' ∷ port)
show_address (SocketAddr.v6 ip port) = b'[' ∷ (ip ++ (b']' ∷ b':' ∷ port))

abbrev pub or_else {ℓ} : {A : Type ℓ} → Option A → A → A
or_else none d = d
or_else (some a) d = a

abbrev pub set_if_none {ℓ} : {A : Type ℓ} → Option A → Option A → Option A
set_if_none none new = new
set_if_none (some a) new = some a

abbrev pub socks_url : Bool → Bytes → Bytes
socks_url secure addr = (if secure then codes "wss://" else codes "ws://") ++ addr

-- The options once the URL's host is known.
unfoldable pub with_url : Bool → Bytes → Url → SocksHostAddr → Options → Options
with_url secure url u host o = record o {
  socks_destination =
      set_if_none o.socks_destination
        (some (record { host = host; port = or_else u.port_or_known_default 80 }));
  tls_domain = if secure then set_if_none o.tls_domain u.host_str else o.tls_domain;
  ws_c_uri = url;
}

-- The overlays that replace the WebSocket client, innermost last.
unfoldable pub socks_overlays : Bool → List SpecifierClass
socks_overlays secure =
    ws_connect_class
    ∷ (if secure then tls_connect_class ∷ socks_proxy_class ∷ [] else socks_proxy_class ∷ [])

-- `l_socks5_c`, on one of the two stacks.
unfoldable pub l_socks5_c :
    UrlParser → Bool → SpecifierStack → Options → Linted (SpecifierStack × Options)
unfolding show_address with_url socks_overlays
l_socks5_c parse secure s o = elim o.auto_socks5 [
  | none ↦ panicked
  | some proxy ↦ elim (parse (socks_url secure s.addr)) [
    | none ↦ failed LintError.bad_url
    | some u ↦ if not u.has_host then failed LintError.websocket_url_has_no_host else elim u.host [
      | none ↦ panicked
      | some host ↦
          done
            (
              record s {
                addr = show_address proxy;
                addrtype = tcp_connect_class;
                overlays = s.overlays ++ socks_overlays secure;
              },
              with_url secure (socks_url secure s.addr) u host o,
            )
            (warn_if (not (equal o.ws_c_uri (codes "ws://0.0.0.0/"))) Warning.overridden_ws_c_uri)
    ]
  ]
]

abbrev pub is_ws_client : SpecifierStack → Bool
is_ws_client s = has_name s.addrtype "WsClientClass" || has_name s.addrtype "WsClientSecureClass"

-- One of the four conditional calls.
unfoldable pub socksify_left :
    UrlParser → Bool → WebsocatConfiguration2 → Linted WebsocatConfiguration2
socksify_left parse secure c =
    if has_name c.s1.addrtype (if secure then "WsClientSecureClass" else "WsClientClass")
    then l_socks5_c parse secure c.s1 c.opts >>= (λ r. done (record c { s1 = r.0; opts = r.1 }) [])
    else done c []

unfoldable pub socksify_right :
    UrlParser → Bool → WebsocatConfiguration2 → Linted WebsocatConfiguration2
socksify_right parse secure c =
    if has_name c.s2.addrtype (if secure then "WsClientSecureClass" else "WsClientClass")
    then l_socks5_c parse secure c.s2 c.opts >>= (λ r. done (record c { s2 = r.0; opts = r.1 }) [])
    else done c []

abbrev pub is_some {ℓ} : {A : Type ℓ} → Option A → Bool
is_some none = false
is_some (some _) = true

unfoldable pub socks_warnings : WebsocatConfiguration2 → List Warning
unfolding contains_class
socks_warnings c =
    warn_if
      (xor (is_some c.opts.socks_destination)
        (contains_class c "SocksProxyClass" || contains_class c "SocksBindClass"))
      Warning.socks_destination_without_overlay
    ++ warn_if (xor (is_some c.opts.socks5_bind_script) (contains_class c "SocksBindClass"))
        Warning.socks_bind_script_without_overlay

-- The four conditional calls, in their order.
unfoldable pub socksify_calls : UrlParser → WebsocatConfiguration2 → Linted WebsocatConfiguration2
socksify_calls parse c = do
  c1 ← socksify_left parse false c
  c2 ← socksify_left parse true c1
  c3 ← socksify_right parse false c2
  socksify_right parse true c3

unfoldable pub socksify : UrlParser → WebsocatConfiguration2 → Linted WebsocatConfiguration2
socksify parse c =
    if not (xor (is_ws_client c.s1) (is_ws_client c.s2))
    then failed LintError.socks5_not_exactly_one
    else socksify_calls parse c

unfoldable pub l_socks5 : UrlParser → WebsocatConfiguration2 → Linted WebsocatConfiguration2
l_socks5 parse c =
    with_warnings (socks_warnings c)
      (elim c.opts.auto_socks5 [ none ↦ done c [] | some _ ↦ socksify parse c ])
