-- ===== src/Specifier/Classes.antt =====
-- The registry of src/all_peers.rs: `list_of_all_specifier_classes`, in its order, for a Linux build
-- with every optional feature on.
pub mod Ws
pub mod Net
pub mod Local
pub mod Overlay
use websocat.Base.{List, [], ◌∷◌}
use websocat.Specifier.{SpecifierClass}
use Ws.{
  ws_client_class, ws_client_secure_class, ws_tcp_server_class, ws_inetd_server_class,
  ws_unix_server_class, ws_abstract_unix_server_class, ws_server_class, ws_ll_client_class,
  ws_ll_server_class, wss_listen_class, http_request_class, http_class, http_post_sse_class,
  tls_connect_class, tls_accept_class, tls_listen_class, ws_connect_class,
}
use Net.{
  tcp_connect_class, tcp_listen_class, udp_connect_class, udp_listen_class, unix_connect_class,
  unix_listen_class, unix_dgram_class, abstract_connect_class, abstract_listen_class,
  abstract_dgram_class, seqpacket_connect_class, seqpacket_listen_class, socks_proxy_class,
  socks_bind_class,
}
use Local.{
  async_stdio_class, inetd_class, sh_c_class, cmd_class, exec_class, read_file_class,
  write_file_class, append_file_class, open_async_class, open_fd_async_class, threaded_stdio_class,
  stdio_class, mirror_class, literal_reply_class, clogged_class, literal_class, assert_class,
  assert2_class, log_class, random_class, exit_on_specific_byte_class,
}
use Overlay.{
  reuser_class, broadcast_reuser_class, auto_reconnect_class, message2_line_class,
  line2_message_class, foreachmsg_class, json_rpc_class, timestamp_class, crypto_class,
  prometheus_class, native_transform_a_class, native_transform_b_class, native_transform_c_class,
  native_transform_d_class, wasm_transform_a_class, wasm_transform_b_class, wasm_transform_c_class,
  wasm_transform_d_class,
}

abbrev pub all_specifier_classes : List SpecifierClass
all_specifier_classes =
    ws_client_class ∷ ws_client_secure_class ∷ ws_tcp_server_class ∷ ws_inetd_server_class
    ∷ ws_unix_server_class ∷ ws_abstract_unix_server_class ∷ ws_server_class ∷ ws_ll_client_class
    ∷ ws_ll_server_class ∷ wss_listen_class ∷ http_request_class ∷ http_class ∷ http_post_sse_class
    ∷ async_stdio_class ∷ inetd_class ∷ tcp_connect_class ∷ tcp_listen_class ∷ tls_connect_class
    ∷ tls_accept_class ∷ tls_listen_class ∷ sh_c_class ∷ cmd_class ∷ exec_class ∷ read_file_class
    ∷ write_file_class ∷ append_file_class ∷ reuser_class ∷ broadcast_reuser_class
    ∷ auto_reconnect_class ∷ ws_connect_class ∷ udp_connect_class ∷ udp_listen_class
    ∷ open_async_class ∷ open_fd_async_class ∷ threaded_stdio_class ∷ stdio_class
    ∷ unix_connect_class ∷ unix_listen_class ∷ unix_dgram_class ∷ abstract_connect_class
    ∷ abstract_listen_class ∷ abstract_dgram_class ∷ message2_line_class ∷ line2_message_class
    ∷ foreachmsg_class ∷ mirror_class ∷ literal_reply_class ∷ clogged_class ∷ literal_class
    ∷ assert_class ∷ assert2_class ∷ log_class ∷ seqpacket_connect_class ∷ seqpacket_listen_class
    ∷ json_rpc_class ∷ timestamp_class ∷ socks_proxy_class ∷ socks_bind_class ∷ crypto_class
    ∷ random_class ∷ prometheus_class ∷ exit_on_specific_byte_class ∷ native_transform_a_class
    ∷ native_transform_b_class ∷ native_transform_c_class ∷ native_transform_d_class
    ∷ wasm_transform_a_class ∷ wasm_transform_b_class ∷ wasm_transform_c_class
    ∷ wasm_transform_d_class ∷ []
