-- ===== src/Socks5/Tests.antt =====
-- SOCKS 5 dialogues at concrete inputs.
use websocat.Base.{◌≡◌, refl, Bool, true, false, none, some, [], ◌∷◌, ◌++◌, arith, Bytes, codes}
use websocat.Lints.Options.{ip4, name, SocksSocketAddr}
use websocat.Socks5.{
  Conn, announces, starts, ok, err, read_socks_reply, socks_request, encode_host, encode_port,
  socks5_peer,
}
use websocat.Socks5.Replies.{read_socks_reply-encode}
use websocat.Socks5.Dialogue.{served, socks5_peer-connects}

abbrev any_utf8 : Bytes → Bool
any_utf8 b = true

abbrev here : SocksSocketAddr
here = record { host = ip4 (10 ∷ (0 ∷ (0 ∷ (1 ∷ [])))); port = 8080 }

abbrev there : SocksSocketAddr
there = record { host = name (codes "example.org"); port = 443 }

abbrev quiet : Bytes → Conn
quiet input = record { input = input; write_fails = []; output = []; effects = [] }

socks5_peer-refused :
    socks5_peer any_utf8 false none
      (some there)
      false
      (quiet (5 ∷ (0 ∷ (5 ∷ (5 ∷ (0 ∷ (1 ∷ [])))))))
    ≡ (
      record {
        input = [];
        write_fails = [];
        output =
            (5 ∷ (1 ∷ (0 ∷ [])))
            ++ (5 ∷ (1 ∷ (0 ∷ (3 ∷ (11 ∷ (codes "example.org" ++ 1 ∷ (187 ∷ [])))))));
        effects = [];
      },
      err (codes "SOCKS: connection refused"),
    )
unfolding socks5_peer
socks5_peer-refused = refl

read_socks_reply-encode_example :
    read_socks_reply any_utf8
      (quiet (5 ∷ (0 ∷ (0 ∷ ((encode_host there.host ++ encode_port 443) ++ codes "hi")))))
    ≡ (quiet (codes "hi"), ok there)
read_socks_reply-encode_example =
    read_socks_reply-encode any_utf8 there.host 443 (codes "hi") (quiet []) (omega arith, refl)
      (omega arith)

socks5_peer-connects_example :
    socks5_peer any_utf8 true
      (some (codes "run"))
      (some there)
      true
      (quiet (5 ∷ (0 ∷ served true here here (codes "hi"))))
    ≡ (
      record {
        input = codes "hi";
        write_fails = [];
        output = (5 ∷ (1 ∷ (0 ∷ []))) ++ socks_request true there.host 443;
        effects = announces 8080 ∷ (starts (codes "run") 8080 ∷ []);
      },
      ok tt,
    )
socks5_peer-connects_example =
    socks5_peer-connects any_utf8 true true (some (codes "run")) there here here (codes "hi") [] []
      ((omega arith, refl), omega arith) (refl, omega arith) (refl, omega arith)
