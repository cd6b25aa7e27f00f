-- ===== src/Specifier/Classes/Ws.antt =====
-- The specifier classes for WebSocket, TLS and HTTP, as their `specifier_class!` and
-- `specifier_alias!` declarations give them:
-- src/ws_client_peer.rs, src/ws_server_peer.rs, src/ws_lowlevel_peer.rs, src/ssl_peer.rs,
-- src/http_peer.rs.
use websocat.Base.{false, true, [], ◌∷◌, codes}
use websocat.Specifier.{
  SpecifierClass, message_oriented, multiconnectness_depends_on_inner_type, single_connect,
  specifier_alias, specifier_class, stream_oriented,
}

abbrev pub ws_client_class : SpecifierClass
ws_client_class =
    specifier_class "WsClientClass" (codes "ws://" ∷ []) false message_oriented single_connect

abbrev pub ws_client_secure_class : SpecifierClass
ws_client_secure_class =
    specifier_class "WsClientSecureClass" (codes "wss://" ∷ []) false message_oriented
      single_connect

abbrev pub ws_tcp_server_class : SpecifierClass
ws_tcp_server_class =
    specifier_alias "WsTcpServerClass"
      (codes "ws-listen:" ∷ codes "ws-l:" ∷ codes "l-ws:" ∷ codes "listen-ws:" ∷ [])
      (codes "ws-u:tcp-l:")

abbrev pub ws_inetd_server_class : SpecifierClass
ws_inetd_server_class =
    specifier_alias "WsInetdServerClass" (codes "inetd-ws:" ∷ codes "ws-inetd:" ∷ [])
      (codes "ws-u:inetd:")

abbrev pub ws_unix_server_class : SpecifierClass
ws_unix_server_class =
    specifier_alias "WsUnixServerClass" (codes "l-ws-unix:" ∷ []) (codes "ws-u:unix-l:")

abbrev pub ws_abstract_unix_server_class : SpecifierClass
ws_abstract_unix_server_class =
    specifier_alias "WsAbstractUnixServerClass" (codes "l-ws-abstract:" ∷ [])
      (codes "ws-l:abstract-l:")

abbrev pub ws_server_class : SpecifierClass
ws_server_class =
    specifier_class "WsServerClass"
      (codes "ws-upgrade:" ∷ codes "upgrade-ws:" ∷ codes "ws-u:" ∷ codes "u-ws:" ∷ []) true
      message_oriented multiconnectness_depends_on_inner_type

abbrev pub ws_ll_client_class : SpecifierClass
ws_ll_client_class =
    specifier_class "WsLlClientClass"
      (codes "ws-lowlevel-client:" ∷ codes "ws-ll-client:" ∷ codes "ws-ll-c:" ∷ []) false
      message_oriented single_connect

abbrev pub ws_ll_server_class : SpecifierClass
ws_ll_server_class =
    specifier_class "WsLlServerClass"
      (codes "ws-lowlevel-server:" ∷ codes "ws-ll-server:" ∷ codes "ws-ll-s:" ∷ []) false
      message_oriented single_connect

abbrev pub wss_listen_class : SpecifierClass
wss_listen_class =
    specifier_alias "WssListenClass"
      (codes "wss-listen:" ∷ codes "wss-l:" ∷ codes "l-wss:" ∷ codes "wss-listen:" ∷ [])
      (codes "ws-u:tls-accept:tcp-l:")

abbrev pub http_request_class : SpecifierClass
http_request_class =
    specifier_class "HttpRequestClass" (codes "http-request:" ∷ []) true stream_oriented
      multiconnectness_depends_on_inner_type

abbrev pub http_class : SpecifierClass
http_class = specifier_class "HttpClass" (codes "http:" ∷ []) false stream_oriented single_connect

abbrev pub http_post_sse_class : SpecifierClass
http_post_sse_class =
    specifier_class "HttpPostSseClass" (codes "http-post-sse:" ∷ []) true message_oriented
      multiconnectness_depends_on_inner_type

abbrev pub tls_connect_class : SpecifierClass
tls_connect_class =
    specifier_class "TlsConnectClass"
      (codes "ssl-connect:"
        ∷ codes "ssl-c"
        ∷ codes "ssl:"
        ∷ codes "tls:"
        ∷ codes "tls-connect:"
        ∷ codes "c-ssl:"
        ∷ codes "connect-ssl:"
        ∷ codes "c-tls:"
        ∷ codes "connect-tls:"
        ∷ [])
      true stream_oriented multiconnectness_depends_on_inner_type

abbrev pub tls_accept_class : SpecifierClass
tls_accept_class =
    specifier_class "TlsAcceptClass"
      (codes "ssl-accept:"
        ∷ codes "ssl-a:"
        ∷ codes "tls-a:"
        ∷ codes "tls-accept:"
        ∷ codes "a-ssl:"
        ∷ codes "accept-ssl:"
        ∷ codes "accept-tls:"
        ∷ codes "accept-tls:"
        ∷ [])
      true stream_oriented multiconnectness_depends_on_inner_type

abbrev pub tls_listen_class : SpecifierClass
tls_listen_class =
    specifier_alias "TlsListenClass"
      (codes "ssl-listen:"
        ∷ codes "ssl-l:"
        ∷ codes "tls-l:"
        ∷ codes "tls-listen:"
        ∷ codes "l-ssl:"
        ∷ codes "listen-ssl:"
        ∷ codes "listen-tls:"
        ∷ codes "listen-tls:"
        ∷ [])
      (codes "tls-accept:tcp-l:")

abbrev pub ws_connect_class : SpecifierClass
ws_connect_class =
    specifier_class "WsConnectClass"
      (codes "ws-c:" ∷ codes "c-ws:" ∷ codes "ws-connect:" ∷ codes "connect-ws:" ∷ []) true
      message_oriented multiconnectness_depends_on_inner_type
