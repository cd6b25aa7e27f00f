-- ===== src/Specparse/Aliases.antt =====
-- Two entries of the registry that parsing does not read as they are meant.
use websocat.Base.{ℕ, suc, ◌≡◌, refl, some, [], ◌∷◌, ◌++◌, Bytes, codes}
use websocat.Specifier.Classes.Net.{tcp_listen_class}
use websocat.Specifier.Classes.Ws.{ws_server_class}
use websocat.Specparse.{
  parsed, refused, unknown_type, match_class, before_colon, some_checks, parse_loop, from_str,
}

-- `l-ws-abstract:`, the alias of a WebSocket server on an abstract-namespaced socket, is read as a
-- WebSocket server on a TCP listener whose address is the text `abstract-l:` and what follows.
pub from_str-l_ws_abstract :
    (f : ℕ) (rest : Bytes)
    → from_str (suc (suc (suc (suc f)))) (codes "l-ws-abstract:" ++ rest)
      ≡ some (
          parsed (record {
            addr = codes "abstract-l:" ++ rest;
            addrtype = tcp_listen_class;
            overlays = ws_server_class ∷ [];
          }))
unfolding from_str parse_loop match_class some_checks
from_str-l_ws_abstract f rest = refl

-- Whatever follows it, `ssl-c:` is refused: the registered prefix has no colon, so that the colon is
-- left in front of the rest and stands for no class.
pub from_str-ssl_c :
    (f : ℕ) (rest : Bytes)
    → from_str (suc (suc f)) (codes "ssl-c:" ++ rest) ≡ some (refused (unknown_type []))
unfolding from_str parse_loop match_class some_checks before_colon
from_str-ssl_c f rest = refl
