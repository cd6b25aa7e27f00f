-- ===== src/Lints/Options.antt =====
-- The fields of `Options` (options.rs) that lints.rs reads or writes, and the configuration they sit in
-- (`WebsocatConfiguration2` of lib.rs). Values that are only passed on are texts.
use websocat.Base.{ℕ, Bool, Option, List, Bytes}
use websocat.Specifier.{SpecifierStack}

pub record StaticFile : Type 0 where
  pub uri : Bytes
  pub file : Bytes
  pub content_type : Bytes

-- `SocketAddr`, with the texts of its address and its port.
pub data SocketAddr : Type 0 where
  v4 v6 : Bytes → Bytes → SocketAddr

-- `IpAddr`, of which only the family is looked at.
pub data IpAddr : Type 0 where
  v4 v6 : IpAddr

pub data SocksHostAddr : Type 0 where
  ip4 ip6 name : Bytes → SocksHostAddr

pub record SocksSocketAddr : Type 0 where
  pub host : SocksHostAddr
  pub port : ℕ

pub record Options : Type 0 where
  pub websocket_text_mode : Bool
  pub websocket_protocol : Option Bytes
  pub websocket_reply_protocol : Option Bytes
  pub udp_broadcast : Bool
  pub udp_multicast_loop : Bool
  pub udp_join_multicast_addr : List IpAddr
  pub udp_join_multicast_iface_v4 : List Bytes
  pub udp_join_multicast_iface_v6 : List ℕ
  pub unidirectional : Bool
  pub unidirectional_reverse : Bool
  pub exit_on_eof : Bool
  pub oneshot : Bool
  pub exec_args : List Bytes
  pub ws_c_uri : Bytes
  pub no_auto_linemode : Bool
  pub restrict_uri : Option Bytes
  pub serve_static_files : List StaticFile
  pub exec_set_env : Bool
  pub socks_destination : Option SocksSocketAddr
  pub auto_socks5 : Option SocketAddr
  pub socks5_bind_script : Option Bytes
  pub tls_domain : Option Bytes
  pub pkcs12_der : Option Bytes
  pub client_pkcs12_der : Option Bytes
  pub headers_to_env : List Bytes
  pub ws_ping_interval : Option ℕ
  pub ws_ping_timeout : Option ℕ
  pub asyncstdio : Bool
  pub print_ping_rtts : Bool
  pub crypto_key : Option Bytes
  pub prometheus : Option SocketAddr
  pub max_ws_message_length : ℕ
  pub max_ws_frame_length : ℕ
  pub compress_deflate : Bool
  pub compress_zlib : Bool
  pub compress_gzip : Bool
  pub uncompress_deflate : Bool
  pub uncompress_zlib : Bool
  pub uncompress_gzip : Bool
  pub native_transform_a : Option Bytes
  pub native_transform_b : Option Bytes
  pub native_transform_c : Option Bytes
  pub native_transform_d : Option Bytes
  pub wasm_transform_a : Option Bytes
  pub wasm_transform_b : Option Bytes
  pub wasm_transform_c : Option Bytes
  pub wasm_transform_d : Option Bytes

pub record WebsocatConfiguration2 : Type 0 where
  pub opts : Options
  pub s1 : SpecifierStack
  pub s2 : SpecifierStack
