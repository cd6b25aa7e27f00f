-- ===== src/Lints/Checks.antt =====
-- The lints that change nothing: they warn or fail. Each returns its warnings. Whether a file exists is
-- a parameter.
use websocat.Base.{
  ℕ, suc, ◌+◌, Bool, true, false, not, ◌&&◌, ◌||◌, Option, none, some, List, [], ◌∷◌, ◌++◌, ltb,
  leb, ◌==◌, if◌then◌else◌, length, is_empty, Bytes, returns,
}
use Prim.Native.String.{String}
use websocat.Lints.Options.{Options, WebsocatConfiguration2, StaticFile, IpAddr}
use websocat.Lints.Monad.{
  Warning, LintError, Linted, done, failed, with_warnings, ◌>>=◌, attempt, warn_if,
}
use websocat.Lints.Stacks.{has_name, contains, is_multiconnect}
use websocat.Lints.Stdio.{contains_class}
use websocat.Lints.Socks.{is_some}

abbrev pub websocket_used : WebsocatConfiguration2 → Bool
websocket_used c =
    contains_class c "WsConnectClass"
    || contains_class c "WsClientClass"
    || contains_class c "WsClientSecureClass"
    || contains_class c "WsServerClass"

abbrev pub exec_used : WebsocatConfiguration2 → Bool
exec_used c =
    contains_class c "ExecClass" || contains_class c "CmdClass" || contains_class c "ShCClass"

abbrev pub get_exec_parameter : WebsocatConfiguration2 → Option Bytes
get_exec_parameter c =
    if has_name c.s1.addrtype "ExecClass"
    then some c.s1.addr
    else if has_name c.s2.addrtype "ExecClass"
    then some c.s2.addr
    else none

-- `contains(c)` and `starts_with(c)` of a text and a character.
abbrev pub has_byte : ℕ → Bytes → Bool
has_byte b [] = false
has_byte b (c ∷ s) = c == b || has_byte b s

abbrev pub starts_with_byte : ℕ → Bytes → Bool
starts_with_byte b [] = false
starts_with_byte b (c ∷ s) = c == b

unfoldable pub l_listener_on_the_right : WebsocatConfiguration2 → Linted (Unit {0})
l_listener_on_the_right c = if c.opts.oneshot then done tt [] else do
  right ← attempt (is_multiconnect c.s2)
  left ← attempt (if right then is_multiconnect c.s1 else returns true)
  done tt (warn_if (right && not left) Warning.listener_on_the_right)

unfoldable pub l_exec : WebsocatConfiguration2 → Linted (Unit {0})
l_exec c =
    if has_name c.s1.addrtype "ExecClass" && has_name c.s2.addrtype "ExecClass"
    then failed LintError.exec_more_than_once
    else done tt (elim (get_exec_parameter c) [
      | none ↦ []
      | some x ↦ warn_if (is_empty c.opts.exec_args && has_byte b' ' x) Warning.exec_spaces
    ])

unfoldable pub static_file_warnings : (Bytes → Bool) → List StaticFile → List Warning
static_file_warnings exists [] = []
static_file_warnings exists (sf ∷ sfs) =
    warn_if (not (starts_with_byte b'/' sf.uri)) (Warning.uri_should_begin_with_slash sf.uri)
    ++ (warn_if (not (exists sf.file)) (Warning.file_does_not_exist sf.file)
        ++ (warn_if (not (has_byte b'/' sf.content_type))
              (Warning.content_type_lacks_slash sf.content_type)
            ++ static_file_warnings exists sfs))

unfoldable pub l_uri_staticfiles : (Bytes → Bool) → WebsocatConfiguration2 → Linted (Unit {0})
unfolding static_file_warnings
l_uri_staticfiles exists c = done tt (
    warn_if (is_some c.opts.restrict_uri && not (contains_class c "WsServerClass"))
      Warning.restrict_uri_meaningless
    ++ (warn_if (not (is_empty c.opts.serve_static_files) && not (contains_class c "WsServerClass"))
          Warning.static_files_meaningless
        ++ static_file_warnings exists c.opts.serve_static_files))

unfoldable pub l_environ : WebsocatConfiguration2 → Linted (Unit {0})
l_environ c = done tt (
    warn_if (c.opts.exec_set_env && not (exec_used c)) Warning.set_environment_without_exec
    ++ (warn_if
          (c.opts.exec_set_env
            && (not (contains_class c "TcpListenClass") && not (contains_class c "WsServerClass")))
          Warning.set_environment_without_server
        ++ warn_if (not (is_empty c.opts.headers_to_env) && not c.opts.exec_set_env)
            Warning.header_to_env_meaningless))

abbrev pub leaky : Options → Bool
leaky o = not o.unidirectional && (o.unidirectional_reverse || not o.exit_on_eof)

unfoldable pub l_closebug : WebsocatConfiguration2 → Linted (Unit {0})
l_closebug c = if c.opts.oneshot then done tt [] else do
  left ← attempt (is_multiconnect c.s1)
  done tt (
      warn_if
        (left
          && ((contains c.s1 "TcpListenClass"
                || contains c.s1 "UnixListenClass"
                || contains c.s1 "SeqpacketListenClass")
              && leaky c.opts))
        Warning.socket_leak)

unfoldable pub l_ssl : WebsocatConfiguration2 → Linted (Unit {0})
l_ssl c =
    if is_some c.opts.pkcs12_der && not (contains_class c "TlsAcceptClass")
    then failed LintError.pkcs12_without_acceptor
    else if is_some c.opts.client_pkcs12_der
        && (not (contains_class c "WsClientSecureClass")
            && not (contains_class c "TlsConnectClass"))
    then failed LintError.client_pkcs12_without_connector
    else done tt []

abbrev pub not_more : Option ℕ → Option ℕ → Bool
not_more none i = false
not_more (some t) none = false
not_more (some t) (some i) = leb t i

unfoldable pub l_ping : WebsocatConfiguration2 → Linted (Unit {0})
l_ping c =
    let interval = c.opts.ws_ping_interval in
    let timeout = c.opts.ws_ping_timeout in
    done tt (
      warn_if ((is_some interval || is_some timeout) && not (websocket_used c))
        Warning.ping_without_websocket
      ++ (warn_if (is_some timeout && not (is_some interval)) Warning.ping_timeout_without_interval
          ++ (warn_if (not_more timeout interval) Warning.ping_timeout_not_more
              ++ (warn_if
                    (is_some timeout && not (c.opts.unidirectional_reverse || c.opts.exit_on_eof))
                    Warning.ping_not_effective
                  ++ warn_if (c.opts.print_ping_rtts && not (is_some interval))
                      Warning.print_ping_rtts_not_effective))))

unfoldable pub l_proto : WebsocatConfiguration2 → Linted (Unit {0})
l_proto c =
    let client =
      contains_class c "WsConnectClass"
      || contains_class c "WsClientClass"
      || contains_class c "WsClientSecureClass" in
    let server = contains_class c "WsServerClass" in
    done tt (
      warn_if (is_some c.opts.websocket_protocol && not client)
        (if server then Warning.protocol_unused_server else Warning.protocol_unused)
      ++ warn_if (is_some c.opts.websocket_reply_protocol && not server)
          Warning.server_protocol_unused)

unfoldable pub l_eeof_unidir : WebsocatConfiguration2 → Linted (Unit {0})
l_eeof_unidir c = done tt (
    if c.opts.exit_on_eof && (c.opts.unidirectional || c.opts.unidirectional_reverse)
    then Warning.exit_on_eof_useless ∷ Warning.remove_exit_on_eof ∷ []
    else [])

unfoldable pub v4_multicasts : List IpAddr → ℕ
v4_multicasts [] = 0
v4_multicasts (IpAddr.v4 ∷ is) = suc (v4_multicasts is)
v4_multicasts (IpAddr.v6 ∷ is) = v4_multicasts is

unfoldable pub v6_multicasts : List IpAddr → ℕ
v6_multicasts [] = 0
v6_multicasts (IpAddr.v4 ∷ is) = v6_multicasts is
v6_multicasts (IpAddr.v6 ∷ is) = suc (v6_multicasts is)

unfoldable pub l_udp : WebsocatConfiguration2 → Linted (Unit {0})
l_udp c =
    let o = c.opts in
    if is_empty o.udp_join_multicast_addr
    then (if o.udp_multicast_loop
        then failed LintError.multicast_loop_without_multicast
        else done tt [])
    else with_warnings (warn_if o.udp_broadcast Warning.broadcast_and_multicast) (
        if length o.udp_join_multicast_iface_v4 + length o.udp_join_multicast_iface_v6 == 0
        then done tt []
        else if not
            (v4_multicasts o.udp_join_multicast_addr == length o.udp_join_multicast_iface_v4)
        then failed LintError.multicast_iface_v4_count
        else if not
            (v6_multicasts o.udp_join_multicast_addr == length o.udp_join_multicast_iface_v6)
        then failed LintError.multicast_iface_v6_count
        else done tt [])

unfoldable pub l_crypto : WebsocatConfiguration2 → Linted (Unit {0})
l_crypto c = done tt (
    warn_if (is_some c.opts.crypto_key && not (contains_class c "CryptoClass"))
      Warning.crypto_key_meaningless)

unfoldable pub l_sizelimits : WebsocatConfiguration2 → Linted (Unit {0})
l_sizelimits c = done tt (
    warn_if (ltb c.opts.max_ws_message_length c.opts.max_ws_frame_length)
      Warning.message_length_below_frame_length)

abbrev pub one_if : Bool → ℕ
one_if b = if b then 1 else 0

abbrev pub compressions : Options → ℕ
compressions o = one_if o.compress_deflate + one_if o.compress_gzip + one_if o.compress_zlib

abbrev pub uncompressions : Options → ℕ
uncompressions o = one_if o.uncompress_deflate + one_if o.uncompress_gzip + one_if o.uncompress_zlib

unfoldable pub l_compress : WebsocatConfiguration2 → Linted (Unit {0})
l_compress c =
    if ltb 1 (compressions c.opts)
    then failed LintError.multiple_compress
    else if ltb 1 (uncompressions c.opts)
    then failed LintError.multiple_uncompress
    else done tt []

-- `self.contains_class(name) && option.is_none()`
abbrev pub lacks_plugin : WebsocatConfiguration2 → String → Option Bytes → Bool
lacks_plugin c name plugin = contains_class c name && not (is_some plugin)

unfoldable pub l_plugins : WebsocatConfiguration2 → Linted (Unit {0})
l_plugins c =
    if lacks_plugin c "NativeTransformAClass" c.opts.native_transform_a
    then failed LintError.native_plugin_missing
    else if lacks_plugin c "NativeTransformBClass" c.opts.native_transform_b
    then failed LintError.native_plugin_missing
    else if lacks_plugin c "NativeTransformCClass" c.opts.native_transform_c
    then failed LintError.native_plugin_missing
    else if lacks_plugin c "NativeTransformDClass" c.opts.native_transform_d
    then failed LintError.native_plugin_missing
    else done tt []

unfoldable pub l_wasm : WebsocatConfiguration2 → Linted (Unit {0})
l_wasm c =
    if lacks_plugin c "WasmTransformAClass" c.opts.wasm_transform_a
    then failed LintError.wasm_plugin_missing
    else if lacks_plugin c "WasmTransformBClass" c.opts.wasm_transform_b
    then failed LintError.wasm_plugin_missing
    else if lacks_plugin c "WasmTransformCClass" c.opts.wasm_transform_c
    then failed LintError.wasm_plugin_missing
    else if lacks_plugin c "WasmTransformDClass" c.opts.wasm_transform_d
    then failed LintError.wasm_plugin_missing
    else done tt []
