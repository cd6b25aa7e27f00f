-- ===== src/Specifier/Classes/Net.antt =====
-- The specifier classes for TCP, UDP, UNIX sockets and SOCKS, as their `specifier_class!` and
-- `specifier_alias!` declarations give them:
-- src/net_peer.rs, src/unix_peer.rs, src/unix_seqpacket_peer.rs, src/socks5_peer.rs.
use websocat.Base.{false, true, [], ◌∷◌, codes}
use websocat.Specifier.{
  SpecifierClass, message_oriented, multi_connect, multiconnectness_depends_on_inner_type,
  single_connect, specifier_class, stream_oriented,
}

abbrev pub tcp_connect_class : SpecifierClass
tcp_connect_class =
    specifier_class "TcpConnectClass"
      (codes "tcp:"
        ∷ codes "tcp-connect:"
        ∷ codes "connect-tcp:"
        ∷ codes "tcp-c:"
        ∷ codes "c-tcp:"
        ∷ [])
      false stream_oriented single_connect

abbrev pub tcp_listen_class : SpecifierClass
tcp_listen_class =
    specifier_class "TcpListenClass"
      (codes "tcp-listen:" ∷ codes "listen-tcp:" ∷ codes "tcp-l:" ∷ codes "l-tcp:" ∷ []) false
      stream_oriented multi_connect

abbrev pub udp_connect_class : SpecifierClass
udp_connect_class =
    specifier_class "UdpConnectClass"
      (codes "udp:"
        ∷ codes "udp-connect:"
        ∷ codes "connect-udp:"
        ∷ codes "udp-c:"
        ∷ codes "c-udp:"
        ∷ [])
      false message_oriented single_connect

abbrev pub udp_listen_class : SpecifierClass
udp_listen_class =
    specifier_class "UdpListenClass"
      (codes "udp-listen:" ∷ codes "listen-udp:" ∷ codes "udp-l:" ∷ codes "l-udp:" ∷ []) false
      message_oriented single_connect

abbrev pub unix_connect_class : SpecifierClass
unix_connect_class =
    specifier_class "UnixConnectClass"
      (codes "unix:"
        ∷ codes "unix-connect:"
        ∷ codes "connect-unix:"
        ∷ codes "unix-c:"
        ∷ codes "c-unix:"
        ∷ [])
      false stream_oriented single_connect

abbrev pub unix_listen_class : SpecifierClass
unix_listen_class =
    specifier_class "UnixListenClass"
      (codes "unix-listen:" ∷ codes "listen-unix:" ∷ codes "unix-l:" ∷ codes "l-unix:" ∷ []) false
      stream_oriented multi_connect

abbrev pub unix_dgram_class : SpecifierClass
unix_dgram_class =
    specifier_class "UnixDgramClass" (codes "unix-dgram:" ∷ []) false message_oriented
      single_connect

abbrev pub abstract_connect_class : SpecifierClass
abstract_connect_class =
    specifier_class "AbstractConnectClass"
      (codes "abstract:"
        ∷ codes "abstract-connect:"
        ∷ codes "connect-abstract:"
        ∷ codes "abstract-c:"
        ∷ codes "c-abstract:"
        ∷ [])
      false stream_oriented single_connect

abbrev pub abstract_listen_class : SpecifierClass
abstract_listen_class =
    specifier_class "AbstractListenClass"
      (codes "abstract-listen:"
        ∷ codes "listen-abstract:"
        ∷ codes "abstract-l:"
        ∷ codes "l-abstract:"
        ∷ [])
      false stream_oriented multi_connect

abbrev pub abstract_dgram_class : SpecifierClass
abstract_dgram_class =
    specifier_class "AbstractDgramClass" (codes "abstract-dgram:" ∷ []) false message_oriented
      single_connect

abbrev pub seqpacket_connect_class : SpecifierClass
seqpacket_connect_class =
    specifier_class "SeqpacketConnectClass"
      (codes "seqpacket:"
        ∷ codes "seqpacket-connect:"
        ∷ codes "connect-seqpacket:"
        ∷ codes "seqpacket-c:"
        ∷ codes "c-seqpacket:"
        ∷ [])
      false message_oriented single_connect

abbrev pub seqpacket_listen_class : SpecifierClass
seqpacket_listen_class =
    specifier_class "SeqpacketListenClass"
      (codes "seqpacket-listen:"
        ∷ codes "listen-seqpacket:"
        ∷ codes "seqpacket-l:"
        ∷ codes "l-seqpacket:"
        ∷ [])
      false message_oriented multi_connect

abbrev pub socks_proxy_class : SpecifierClass
socks_proxy_class =
    specifier_class "SocksProxyClass" (codes "socks5-connect:" ∷ []) true stream_oriented
      multiconnectness_depends_on_inner_type

abbrev pub socks_bind_class : SpecifierClass
socks_bind_class =
    specifier_class "SocksBindClass" (codes "socks5-bind:" ∷ []) true stream_oriented
      multiconnectness_depends_on_inner_type
