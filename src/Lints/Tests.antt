-- ===== src/Lints/Tests.antt =====
-- Runs of the lints at concrete configurations.
use websocat.Base.{
  ◌≡◌, ◌≤◌, ◌+◌, refl, Bool, true, false, none, [], ◌∷◌, Bytes, codes, Bool, some, ◌≢◌,
}
use websocat.Specifier.{SpecifierStack}
use websocat.Specifier.Classes.Net.{tcp_listen_class}
use websocat.Specifier.Classes.Ws.{ws_server_class, ws_client_class}
use websocat.Specifier.Classes.Local.{stdio_class}
use websocat.Specifier.Classes.Overlay.{
  broadcast_reuser_class, line2_message_class, message2_line_class,
}
use websocat.Lints.Options.{SocketAddr, SocksHostAddr, Options, WebsocatConfiguration2}
use websocat.Lints.Monad.{Warning, done}
use websocat.Lints.Stacks.{reuser_count, is_stream_oriented}
use websocat.Lints.Stdio.{l_prometheus, l_stdio, l_linemode}
use websocat.Lints.Socks.{Url, UrlParser}
use websocat.Lints.Fixup.{lint_and_fixup}
use websocat.Lints.Stacks.{
  is_multiconnect, stdio_usage_status, is_stdio, is_reuser, insert_line_class_in_proper_place,
  any_named, contains, count_reusers, insert_line_class, multiconnect_over, oriented_over,
  stdio_under,
}
use websocat.Lints.Fixup.{stack_fixes, early_checks, late_checks}
use websocat.Lints.Stdio.{
  l_reuser, substitute_async, insert_line_mode, l_reuser_for_append, contains_class, l_stdio_on,
  use_async,
}
use websocat.Lints.Checks.{
  l_listener_on_the_right, l_exec, l_uri_staticfiles, l_closebug, l_compress, l_crypto,
  l_eeof_unidir, l_environ, l_ping, l_plugins, l_proto, l_sizelimits, l_ssl, l_udp, l_wasm,
  static_file_warnings,
}
use websocat.Lints.Socks.{l_socks5, socks_warnings}
use websocat.Lints.OneReuser.{ReusersConnectOnce, lint_and_fixup-one_reuser}
use websocat.Lints.OneStdio.{StdioFixed, l_stdio-StdioFixed}
use websocat.Lints.Quiet.{IsSafe, AreProper}
use websocat.Lints.NoPanic.{KnowsHosts, lint_and_fixup-IsSafe}
use websocat.Lints.Sound.{IsSound, lint_and_fixup-IsSound}

-- The options of a command line with text mode and nothing else.
abbrev text_mode : Options
text_mode = record {
  websocket_text_mode = true;
  websocket_protocol = none;
  websocket_reply_protocol = none;
  udp_broadcast = false;
  udp_multicast_loop = false;
  udp_join_multicast_addr = [];
  udp_join_multicast_iface_v4 = [];
  udp_join_multicast_iface_v6 = [];
  unidirectional = false;
  unidirectional_reverse = false;
  exit_on_eof = false;
  oneshot = false;
  exec_args = [];
  ws_c_uri = codes "ws://0.0.0.0/";
  no_auto_linemode = false;
  restrict_uri = none;
  serve_static_files = [];
  exec_set_env = false;
  socks_destination = none;
  auto_socks5 = none;
  socks5_bind_script = none;
  tls_domain = none;
  pkcs12_der = none;
  client_pkcs12_der = none;
  headers_to_env = [];
  ws_ping_interval = none;
  ws_ping_timeout = none;
  asyncstdio = false;
  print_ping_rtts = false;
  crypto_key = none;
  prometheus = none;
  max_ws_message_length = 209715200;
  max_ws_frame_length = 104857600;
  compress_deflate = false;
  compress_zlib = false;
  compress_gzip = false;
  uncompress_deflate = false;
  uncompress_zlib = false;
  uncompress_gzip = false;
  native_transform_a = none;
  native_transform_b = none;
  native_transform_c = none;
  native_transform_d = none;
  wasm_transform_a = none;
  wasm_transform_b = none;
  wasm_transform_c = none;
  wasm_transform_d = none;
}

-- `-` and `ws-l:8080`, as it stands before and behind the lints.
abbrev stdio_stack : SpecifierStack
stdio_stack = record { addr = []; addrtype = stdio_class; overlays = [] }

abbrev server_stack : SpecifierStack
server_stack = record {
  addr = codes "8080";
  addrtype = tcp_listen_class;
  overlays = ws_server_class ∷ [];
}

abbrev chat : WebsocatConfiguration2
chat = record { opts = text_mode; s1 = server_stack; s2 = stdio_stack }

-- A parser that knows no URL, and a file system that has every file.
abbrev no_url : UrlParser
no_url s = none

abbrev all_files : Bytes → Bool
all_files s = true

abbrev chat_linted : WebsocatConfiguration2
chat_linted = record {
  opts = text_mode;
  s1 = record server_stack { overlays = message2_line_class ∷ ws_server_class ∷ [] };
  s2 = record stdio_stack { overlays = broadcast_reuser_class ∷ line2_message_class ∷ [] };
}

lint_and_fixup-chat :
    lint_and_fixup no_url all_files chat ≡ done chat_linted (Warning.socket_leak ∷ [])
unfolding is_multiconnect stdio_usage_status is_stdio is_reuser is_stream_oriented
    insert_line_class_in_proper_place any_named contains count_reusers insert_line_class
    multiconnect_over oriented_over stdio_under reuser_count stack_fixes early_checks late_checks
    lint_and_fixup l_prometheus l_stdio l_linemode l_reuser substitute_async insert_line_mode
    l_reuser_for_append contains_class l_stdio_on use_async l_listener_on_the_right l_exec
    l_uri_staticfiles l_closebug l_compress l_crypto l_eeof_unidir l_environ l_ping l_plugins
    l_proto l_sizelimits l_ssl l_udp l_wasm static_file_warnings l_socks5 socks_warnings
lint_and_fixup-chat = refl

chat-ReusersConnectOnce : ReusersConnectOnce chat.s1.overlays
unfolding is_reuser
chat-ReusersConnectOnce = ((λ e. cc), tt)

lint_and_fixup-one_reuser_example : reuser_count chat_linted.s1 + reuser_count chat_linted.s2 ≤ 1
lint_and_fixup-one_reuser_example =
    lint_and_fixup-one_reuser no_url all_files chat chat_linted (Warning.socket_leak ∷ [])
      chat-ReusersConnectOnce lint_and_fixup-chat

lint_and_fixup-IsSound_example : IsSound chat_linted
lint_and_fixup-IsSound_example =
    lint_and_fixup-IsSound no_url all_files chat chat_linted (Warning.socket_leak ∷ [])
      lint_and_fixup-chat

-- `chat` without the lints before `l_linemode`, and behind it.
abbrev chat_broadcast : WebsocatConfiguration2
chat_broadcast = record chat { s2 = record stdio_stack { overlays = broadcast_reuser_class ∷ [] } }

l_linemode-chat : l_linemode chat_broadcast ≡ done chat_linted []
unfolding l_linemode is_stream_oriented insert_line_mode insert_line_class_in_proper_place
l_linemode-chat = refl

l_stdio-chat : l_stdio true false chat ≡ done (chat_broadcast, true) []
unfolding l_stdio stdio_usage_status is_stdio substitute_async
l_stdio-chat = refl

l_stdio-StdioFixed_example : StdioFixed true chat_broadcast
l_stdio-StdioFixed_example =
    l_stdio-StdioFixed true false chat chat_broadcast true [] refl refl l_stdio-chat

-- `ws-l:8080` and `ws://example.org`, through a proxy.
abbrev proxied : WebsocatConfiguration2
proxied = record {
  opts = record text_mode { auto_socks5 = some (SocketAddr.v4 (codes "127.0.0.1") (codes "1080")) };
  s1 = server_stack;
  s2 = record { addr = codes "example.org"; addrtype = ws_client_class; overlays = [] };
}

abbrev example_url : Url
example_url = record {
  has_host = true;
  port_or_known_default = some 80;
  host = some (SocksHostAddr.name (codes "example.org"));
  host_str = some (codes "example.org");
}

-- A parser that takes every text for one URL.
abbrev one_url : UrlParser
one_url s = some example_url

one_url-KnowsHosts : KnowsHosts one_url
one_url-KnowsHosts s u e h = same_host (cc (e))
  where
    same_host : example_url ≡ u → u.host ≢ none
    same_host same n = cc (same, n)

proxied-AreProper : AreProper proxied
proxied-AreProper = record {
  left = record { no_alias = refl; address = refl; layers = (refl, tt) };
  right = record { no_alias = refl; address = refl; layers = tt };
}

lint_and_fixup-IsSafe_example : IsSafe AreProper (lint_and_fixup one_url all_files proxied)
lint_and_fixup-IsSafe_example =
    lint_and_fixup-IsSafe one_url all_files proxied one_url-KnowsHosts proxied-AreProper
