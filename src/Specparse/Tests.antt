-- ===== src/Specparse/Tests.antt =====
-- Runs of the parser of specifiers at concrete texts.
use websocat.Base.{◌≡◌, refl, some, [], ◌∷◌, codes, arith}
use websocat.Specifier.{SpecifierStack}
use websocat.Specifier.Classes.Net.{tcp_listen_class}
use websocat.Specifier.Classes.Ws.{ws_server_class}
use websocat.Specifier.Classes.Overlay.{message2_line_class}
use websocat.Specparse.{
  Parsed, parsed, match_class, before_colon, some_checks, parse_loop, from_str,
}
use websocat.Specparse.Total.{from_str-ends}
use websocat.Specparse.Shape.{IsProper, from_str-IsProper}
use websocat.Specparse.Spelled.{Layer, from_str-spell}

abbrev server : SpecifierStack
server = record {
  addr = codes "127.0.0.1:8080";
  addrtype = tcp_listen_class;
  overlays = ws_server_class ∷ [];
}

from_str-server : from_str 25 (codes "ws-l:127.0.0.1:8080") ≡ some (parsed server)
unfolding from_str parse_loop match_class some_checks before_colon
from_str-server = refl

from_str-ends_example :
    (r : Parsed SpecifierStack) × (from_str 25 (codes "ws-l:127.0.0.1:8080") ≡ some r)
from_str-ends_example = from_str-ends 25 (codes "ws-l:127.0.0.1:8080") (omega arith)

from_str-IsProper_example : IsProper server
from_str-IsProper_example =
    from_str-IsProper 25 (codes "ws-l:127.0.0.1:8080") server from_str-server

abbrev lines : Layer
lines = record { prefix = codes "msg2line:"; cls = message2_line_class }

from_str-spell_example :
    from_str 3 (codes "msg2line:tcp-l:8080")
    ≡ some (
        parsed (record {
          addr = codes "8080";
          addrtype = tcp_listen_class;
          overlays = message2_line_class ∷ [];
        }))
unfolding some_checks
from_str-spell_example =
    from_str-spell (lines ∷ []) (codes "tcp-l:") (codes "8080") tcp_listen_class 3 refl
      ((refl, refl, refl), tt) refl refl refl (omega arith)
