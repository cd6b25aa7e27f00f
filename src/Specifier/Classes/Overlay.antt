-- ===== src/Specifier/Classes/Overlay.antt =====
-- The specifier classes for overlays, as their `specifier_class!` and
-- `specifier_alias!` declarations give them:
-- src/primitive_reuse_peer.rs, src/broadcast_reuse_peer.rs, src/reconnect_peer.rs,
-- src/line_peer.rs, src/foreachmsg_peer.rs, src/jsonrpc_peer.rs, src/timestamp_peer.rs,
-- src/crypto_peer.rs, src/prometheus_peer.rs, src/transform_peer.rs,
-- src/wasm_transform_peer.rs.
use websocat.Base.{true, [], ◌∷◌, codes}
use websocat.Specifier.{
  SpecifierClass, message_boundary_status_depends_on_inner_type, message_oriented,
  multiconnectness_depends_on_inner_type, single_connect, specifier_class, stream_oriented,
}

abbrev pub reuser_class : SpecifierClass
reuser_class =
    specifier_class "ReuserClass" (codes "reuse-raw:" ∷ codes "raw-reuse:" ∷ []) true
      message_boundary_status_depends_on_inner_type single_connect

abbrev pub broadcast_reuser_class : SpecifierClass
broadcast_reuser_class =
    specifier_class "BroadcastReuserClass"
      (codes "broadcast:"
        ∷ codes "reuse:"
        ∷ codes "reuse-broadcast:"
        ∷ codes "broadcast-reuse:"
        ∷ [])
      true message_boundary_status_depends_on_inner_type single_connect

abbrev pub auto_reconnect_class : SpecifierClass
auto_reconnect_class =
    specifier_class "AutoReconnectClass" (codes "autoreconnect:" ∷ []) true
      message_boundary_status_depends_on_inner_type single_connect

abbrev pub message2_line_class : SpecifierClass
message2_line_class =
    specifier_class "Message2LineClass" (codes "msg2line:" ∷ []) true stream_oriented
      multiconnectness_depends_on_inner_type

abbrev pub line2_message_class : SpecifierClass
line2_message_class =
    specifier_class "Line2MessageClass" (codes "line2msg:" ∷ []) true message_oriented
      multiconnectness_depends_on_inner_type

abbrev pub foreachmsg_class : SpecifierClass
foreachmsg_class =
    specifier_class "ForeachmsgClass" (codes "foreachmsg:" ∷ []) true
      message_boundary_status_depends_on_inner_type single_connect

abbrev pub json_rpc_class : SpecifierClass
json_rpc_class =
    specifier_class "JsonRpcClass" (codes "jsonrpc:" ∷ []) true message_oriented
      multiconnectness_depends_on_inner_type

abbrev pub timestamp_class : SpecifierClass
timestamp_class =
    specifier_class "TimestampClass" (codes "timestamp:" ∷ []) true message_oriented
      multiconnectness_depends_on_inner_type

abbrev pub crypto_class : SpecifierClass
crypto_class =
    specifier_class "CryptoClass" (codes "crypto:" ∷ []) true message_oriented
      multiconnectness_depends_on_inner_type

abbrev pub prometheus_class : SpecifierClass
prometheus_class =
    specifier_class "PrometheusClass" (codes "prometheus:" ∷ codes "metrics:" ∷ []) true
      message_oriented multiconnectness_depends_on_inner_type

abbrev pub native_transform_a_class : SpecifierClass
native_transform_a_class =
    specifier_class "NativeTransformAClass" (codes "native_plugin_transform_a:" ∷ []) true
      message_oriented multiconnectness_depends_on_inner_type

abbrev pub native_transform_b_class : SpecifierClass
native_transform_b_class =
    specifier_class "NativeTransformBClass" (codes "native_plugin_transform_b:" ∷ []) true
      message_oriented multiconnectness_depends_on_inner_type

abbrev pub native_transform_c_class : SpecifierClass
native_transform_c_class =
    specifier_class "NativeTransformCClass" (codes "native_plugin_transform_c:" ∷ []) true
      message_oriented multiconnectness_depends_on_inner_type

abbrev pub native_transform_d_class : SpecifierClass
native_transform_d_class =
    specifier_class "NativeTransformDClass" (codes "native_plugin_transform_d:" ∷ []) true
      message_oriented multiconnectness_depends_on_inner_type

abbrev pub wasm_transform_a_class : SpecifierClass
wasm_transform_a_class =
    specifier_class "WasmTransformAClass" (codes "wasm_plugin_transform_a:" ∷ []) true
      message_oriented multiconnectness_depends_on_inner_type

abbrev pub wasm_transform_b_class : SpecifierClass
wasm_transform_b_class =
    specifier_class "WasmTransformBClass" (codes "wasm_plugin_transform_b:" ∷ []) true
      message_oriented multiconnectness_depends_on_inner_type

abbrev pub wasm_transform_c_class : SpecifierClass
wasm_transform_c_class =
    specifier_class "WasmTransformCClass" (codes "wasm_plugin_transform_c:" ∷ []) true
      message_oriented multiconnectness_depends_on_inner_type

abbrev pub wasm_transform_d_class : SpecifierClass
wasm_transform_d_class =
    specifier_class "WasmTransformDClass" (codes "wasm_plugin_transform_d:" ∷ []) true
      message_oriented multiconnectness_depends_on_inner_type
