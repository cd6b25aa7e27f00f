-- ===== src/Lints/Sound.antt =====
-- What a configuration that `lint_and_fixup` lets pass satisfies.
use websocat.Base.{
  ℕ, ◌+◌, ◌≤◌, ◌≡◌, refl, ◌⊎◌, inl, inr, Bool, true, false, not, ◌&&◌, ◌||◌, Option, List, [], ltb,
  ◌==◌, length, is_empty, Bytes, Bool-cases, ltb→ge, ==_iff, if◌then◌else◌,
}
use Prim.Native.String.{String}
use websocat.Lints.Options.{WebsocatConfiguration2}
use websocat.Lints.Monad.{Warning, LintError, Linted, done, failed, with_warnings-eq-done}
use websocat.Lints.Stdio.{contains_class}
use websocat.Lints.Socks.{UrlParser, is_some}
use websocat.Lints.Checks.{
  compressions, uncompressions, l_compress, l_ssl, l_udp, l_plugins, l_wasm, lacks_plugin,
  v4_multicasts, v6_multicasts,
}
use websocat.Lints.Fixup.{lint_and_fixup}
use websocat.Lints.Steps.{lint_and_fixup-LintSteps}

-- `plugin` is given wherever the overlay `name` is used.
abbrev pub IsGiven : WebsocatConfiguration2 → String → Option Bytes → Type 0
IsGiven c name plugin = lacks_plugin c name plugin ≡ false

abbrev pub Interfaces : WebsocatConfiguration2 → Type 0
Interfaces c =
    let n = length c.opts.udp_join_multicast_iface_v4 in
    let m = length c.opts.udp_join_multicast_iface_v6 in
    let addresses = c.opts.udp_join_multicast_addr in
    (n + m ≡ 0) ⊎ ((v4_multicasts addresses ≡ n) × (v6_multicasts addresses ≡ m))

pub record IsSound (c : WebsocatConfiguration2) : Type 0 where
  pub one_compression : compressions c.opts ≤ 1
  pub one_uncompression : uncompressions c.opts ≤ 1
  pub server_certificate :
      is_some c.opts.pkcs12_der ≡ true → contains_class c "TlsAcceptClass" ≡ true
  pub client_certificate :
      is_some c.opts.client_pkcs12_der ≡ true
      → (contains_class c "WsClientSecureClass" || contains_class c "TlsConnectClass") ≡ true
  pub multicast_loop :
      c.opts.udp_multicast_loop ≡ true → is_empty c.opts.udp_join_multicast_addr ≡ false
  pub multicast_interfaces : is_empty c.opts.udp_join_multicast_addr ≡ false → Interfaces c
  pub native_a : IsGiven c "NativeTransformAClass" c.opts.native_transform_a
  pub native_b : IsGiven c "NativeTransformBClass" c.opts.native_transform_b
  pub native_c : IsGiven c "NativeTransformCClass" c.opts.native_transform_c
  pub native_d : IsGiven c "NativeTransformDClass" c.opts.native_transform_d
  pub wasm_a : IsGiven c "WasmTransformAClass" c.opts.wasm_transform_a
  pub wasm_b : IsGiven c "WasmTransformBClass" c.opts.wasm_transform_b
  pub wasm_c : IsGiven c "WasmTransformCClass" c.opts.wasm_transform_c
  pub wasm_d : IsGiven c "WasmTransformDClass" c.opts.wasm_transform_d

-- A list of guards that let pass has every guard false.
guard_lem {ℓ} :
    {A : Type ℓ} (b : Bool) (e : LintError) (m : Linted A) (a : A) (ws : List Warning)
    → (if b then failed e else m) ≡ done a ws
    → (b ≡ false) × (m ≡ done a ws)
guard_lem true e m a ws h = cc
guard_lem false e m a ws h = (refl, h)

compress_lem :
    (c : WebsocatConfiguration2) (ws : List Warning)
    → l_compress c ≡ done (tt {0}) ws
    → (compressions c.opts ≤ 1) × (uncompressions c.opts ≤ 1)
unfolding l_compress
compress_lem c ws h =
    let (n, h2) = guard_lem (ltb 1 (compressions c.opts)) _ _ tt ws h in
    let (m, h3) = guard_lem (ltb 1 (uncompressions c.opts)) _ _ tt ws h2 in
    (ltb→ge 1 (compressions c.opts) n, ltb→ge 1 (uncompressions c.opts) m)

not_and_false : (p q : Bool) → (p && not q) ≡ false → p ≡ true → q ≡ true
not_and_false true true h e = refl
not_and_false true false h e = cc
not_and_false false q h e = cc

not_and_false_two : (p q r : Bool) → (p && (not q && not r)) ≡ false → p ≡ true → (q || r) ≡ true
not_and_false_two true true r h e = refl
not_and_false_two true false true h e = refl
not_and_false_two true false false h e = cc
not_and_false_two false q r h e = cc

not-false : (b : Bool) → not b ≡ false → b ≡ true
not-false true h = refl
not-false false h = cc

ssl_lem :
    (c : WebsocatConfiguration2) (ws : List Warning)
    → l_ssl c ≡ done (tt {0}) ws
    → (is_some c.opts.pkcs12_der ≡ true → contains_class c "TlsAcceptClass" ≡ true)
      × (is_some c.opts.client_pkcs12_der ≡ true
          → (contains_class c "WsClientSecureClass" || contains_class c "TlsConnectClass") ≡ true)
unfolding l_ssl
ssl_lem c ws h =
    let accept = contains_class c "TlsAcceptClass" in
    let client = contains_class c "WsClientSecureClass" in
    let connect = contains_class c "TlsConnectClass" in
    let (n, h2) = guard_lem (is_some c.opts.pkcs12_der && not accept) _ _ tt ws h in
    let (m, h3) =
      guard_lem (is_some c.opts.client_pkcs12_der && (not client && not connect)) _ _ tt ws h2 in
    (
      not_and_false (is_some c.opts.pkcs12_der) accept n,
      not_and_false_two (is_some c.opts.client_pkcs12_der) client connect m,
    )

interfaces_lem :
    (n m v4 v6 : ℕ) (ws : List Warning)
    → (if n + m == 0
        then done (tt {0}) []
        else if not (v4 == n)
        then failed LintError.multicast_iface_v4_count
        else if not (v6 == m)
        then failed LintError.multicast_iface_v6_count
        else done tt [])
      ≡ done (tt {0}) ws
    → (n + m ≡ 0) ⊎ ((v4 ≡ n) × (v6 ≡ m))
interfaces_lem n m v4 v6 ws h = elim (Bool-cases (n + m == 0)) [
  | inl e ↦ inl ((==_iff (n + m) 0).0 e)
  | inr e ↦
      let (p, h2) = guard_lem (not (v4 == n)) _ _ tt ws (rw e at h) in
      let (q, h3) = guard_lem (not (v6 == m)) _ _ tt ws h2 in
      inr ((==_iff v4 n).0 (not-false _ p), (==_iff v6 m).0 (not-false _ q))
]

udp_lem :
    (c : WebsocatConfiguration2) (ws : List Warning)
    → l_udp c ≡ done (tt {0}) ws
    → (c.opts.udp_multicast_loop ≡ true → is_empty c.opts.udp_join_multicast_addr ≡ false)
      × (is_empty c.opts.udp_join_multicast_addr ≡ false → Interfaces c)
unfolding l_udp
udp_lem c ws h = elim (Bool-cases (is_empty c.opts.udp_join_multicast_addr)) [
  | inl e ↦
      let (n, h2) = guard_lem c.opts.udp_multicast_loop _ _ tt ws (rw e at h) in
      ((λ p. cc), (λ p. cc))
  | inr e ↦
      let (vs, h2) = with_warnings-eq-done _ _ ws tt (rw e at h) in
      (
        (λ p. e),
        (λ p.
            interfaces_lem (length c.opts.udp_join_multicast_iface_v4)
              (length c.opts.udp_join_multicast_iface_v6)
              (v4_multicasts c.opts.udp_join_multicast_addr)
              (v6_multicasts c.opts.udp_join_multicast_addr) vs h2),
      )
]

plugins_lem :
    (a b d e : Bool) (x : LintError) (ws : List Warning)
    → (if a
        then failed x
        else if b
        then failed x
        else if d
        then failed x
        else if e
        then failed x
        else done tt [])
      ≡ done (tt {0}) ws
    → (a ≡ false) × (b ≡ false) × (d ≡ false) × (e ≡ false)
plugins_lem a b d e x ws h =
    let (p, h2) = guard_lem a x _ tt ws h in
    let (q, h3) = guard_lem b x _ tt ws h2 in
    let (r, h4) = guard_lem d x _ tt ws h3 in let (s, h5) = guard_lem e x _ tt ws h4 in (p, q, r, s)

native_lem :
    (c : WebsocatConfiguration2) (ws : List Warning)
    → l_plugins c ≡ done (tt {0}) ws
    → IsGiven c "NativeTransformAClass" c.opts.native_transform_a
      × IsGiven c "NativeTransformBClass" c.opts.native_transform_b
      × IsGiven c "NativeTransformCClass" c.opts.native_transform_c
      × IsGiven c "NativeTransformDClass" c.opts.native_transform_d
unfolding l_plugins
native_lem c ws h = plugins_lem _ _ _ _ _ ws h

wasm_lem :
    (c : WebsocatConfiguration2) (ws : List Warning)
    → l_wasm c ≡ done (tt {0}) ws
    → IsGiven c "WasmTransformAClass" c.opts.wasm_transform_a
      × IsGiven c "WasmTransformBClass" c.opts.wasm_transform_b
      × IsGiven c "WasmTransformCClass" c.opts.wasm_transform_c
      × IsGiven c "WasmTransformDClass" c.opts.wasm_transform_d
unfolding l_wasm
wasm_lem c ws h = plugins_lem _ _ _ _ _ ws h

-- A configuration that `lint_and_fixup` returns compresses and decompresses by one algorithm at most,
-- has a server certificate only with a TLS acceptor and a client certificate only with a TLS client,
-- loops multicast back only if it joins a group, if it joins a group, names as many IPv4 and IPv6
-- interfaces as groups of each kind or none, and gives the plugin of every native or WebAssembly transform it uses.
pub lint_and_fixup-IsSound :
    (parse : UrlParser) (exists : Bytes → Bool) (c c' : WebsocatConfiguration2) (ws : List Warning)
    → lint_and_fixup parse exists c ≡ done c' ws
    → IsSound c'
lint_and_fixup-IsSound parse exists c c' ws h =
    let late = (lint_and_fixup-LintSteps parse exists c c' ws h).late in
    let (one, other_one) = compress_lem c' late.w3 late.compress in
    let (server, client) = ssl_lem c' late.w1 late.ssl in
    let (loops, interfaces) = udp_lem c' late.w2 late.udp in
    let (na, nb, nc, nd) = native_lem c' late.w4 late.plugins in
    let (wa, wb, wc, wd) = wasm_lem c' late.w5 late.wasm in
    record {
      one_compression = one;
      one_uncompression = other_one;
      server_certificate = server;
      client_certificate = client;
      multicast_loop = loops;
      multicast_interfaces = interfaces;
      native_a = na;
      native_b = nb;
      native_c = nc;
      native_d = nd;
      wasm_a = wa;
      wasm_b = wb;
      wasm_c = wc;
      wasm_d = wd;
    }
