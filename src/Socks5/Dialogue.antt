-- ===== src/Socks5/Dialogue.antt =====
-- socks5_peer.rs: the dialogue as a whole.
use websocat.Base.{
  ℕ, ◌<◌, ◌≡◌, refl, ap, ◌∙◌, Bool, true, false, Option, none, some, List, [], ◌∷◌, ◌++◌, ge→ltb,
  if-false, length, Bytes,
}
use websocat.Lints.Options.{SocksHostAddr, ip4, ip6, name, SocksSocketAddr}
use websocat.Socks5.{
  Talk, Effect, announces, starts, then_talk, pure, ok, write_all, read_socks_reply, encode_host,
  encode_port, socks_request, bound, ask, check_methods, dialogue, is_too_long, socks5_peer,
}
use websocat.Socks5.Replies.{Encodes, read_exact-append, read_socks_reply-encode}

-- A reply that grants a request, and what follows it.
abbrev pub reply : SocksSocketAddr → Bytes → Bytes
reply a rest = 5 ∷ (0 ∷ (0 ∷ ((encode_host a.host ++ encode_port a.port) ++ rest)))

-- What a server sends: one reply, or for a bind another one when somebody connects.
abbrev pub served : Bool → SocksSocketAddr → SocksSocketAddr → Bytes → Bytes
served false a remote rest = reply a rest
served true a remote rest = reply a (reply remote rest)

-- What is done besides, behind `e`.
abbrev pub announced : Bool → ℕ → List Effect → List Effect
announced true port e = e ++ announces port ∷ []
announced false port e = e

abbrev pub started : Option Bytes → ℕ → List Effect → List Effect
started none port e = e
started (some script) port e = e ++ starts script port ∷ []

abbrev pub done : Bool → Option Bytes → Bool → ℕ → List Effect → List Effect
done false script announce port e = e
done true script announce port e = started script port (announced announce port e)

abbrev pub IsAddress : (Bytes → Bool) → SocksSocketAddr → Type 0
IsAddress is_utf8 a = Encodes is_utf8 a.host × (a.port < 65536)

granted :
    (is_utf8 : Bytes → Bool) (a : SocksSocketAddr) (rest out : Bytes) (e : List Effect)
    → IsAddress is_utf8 a
    → read_socks_reply is_utf8
        (record { input = reply a rest; write_fails = []; output = out; effects = e })
      ≡ (record { input = rest; write_fails = []; output = out; effects = e }, ok a)
granted is_utf8 a rest out e addr =
    read_socks_reply-encode is_utf8 a.host a.port rest
      (record { input = []; write_fails = []; output = out; effects = e }) addr.0 addr.1

-- The second reply of a bind, behind what is done at the first.
connected :
    (is_utf8 : Bytes → Bool) (remote : SocksSocketAddr) (rest out : Bytes) (e : List Effect)
    → IsAddress is_utf8 remote
    → then_talk
        (λ (r : SocksSocketAddr). pure tt)
        (read_socks_reply is_utf8
          (record { input = reply remote rest; write_fails = []; output = out; effects = e }))
      ≡ (record { input = rest; write_fails = []; output = out; effects = e }, ok tt)
connected is_utf8 remote rest out e addr =
    ap (then_talk (λ (r : SocksSocketAddr). pure tt)) (granted is_utf8 remote rest out e addr)

bound-served :
    (is_utf8 : Bytes → Bool) (do_bind announce_listen : Bool) (script : Option Bytes)
    (a remote : SocksSocketAddr) (rest out : Bytes) (e : List Effect)
    → IsAddress is_utf8 a
    → IsAddress is_utf8 remote
    → then_talk (bound is_utf8 do_bind script announce_listen) (
        read_socks_reply is_utf8 (record {
          input = served do_bind a remote rest;
          write_fails = [];
          output = out;
          effects = e;
        }))
      ≡ (
        record {
          input = rest;
          write_fails = [];
          output = out;
          effects = done do_bind script announce_listen a.port e;
        },
        ok tt,
      )
unfolding bound
bound-served is_utf8 false announce_listen script a remote rest out e addr other =
    ap (then_talk (bound is_utf8 false script announce_listen)) (granted is_utf8 a rest out e addr)
bound-served is_utf8 true true none a remote rest out e addr other =
    ap (then_talk (bound is_utf8 true none true)) (granted is_utf8 a (reply remote rest) out e addr)
    ∙ connected is_utf8 remote rest out (done true none true a.port e) other
bound-served is_utf8 true true (some script) a remote rest out e addr other =
    ap (then_talk (bound is_utf8 true (some script) true))
      (granted is_utf8 a (reply remote rest) out e addr)
    ∙ connected is_utf8 remote rest out (done true (some script) true a.port e) other
bound-served is_utf8 true false none a remote rest out e addr other =
    ap (then_talk (bound is_utf8 true none false))
      (granted is_utf8 a (reply remote rest) out e addr)
    ∙ connected is_utf8 remote rest out (done true none false a.port e) other
bound-served is_utf8 true false (some script) a remote rest out e addr other =
    ap (then_talk (bound is_utf8 true (some script) false))
      (granted is_utf8 a (reply remote rest) out e addr)
    ∙ connected is_utf8 remote rest out (done true (some script) false a.port e) other

short_name :
    (is_utf8 : Bytes → Bool) (h : SocksHostAddr) → Encodes is_utf8 h → is_too_long h ≡ false
short_name is_utf8 (ip4 b) e = refl
short_name is_utf8 (ip6 b) e = refl
short_name is_utf8 (name n) e = ge→ltb 255 (length n) e.0

-- With a server that accepts no authentication and grants the request, the client sends its greeting and
-- the request, and the peer begins just behind the last reply: what the server sends next is all there. A
-- bind waits for the second reply; the port of the first one is announced, and given to the bind script,
-- as asked.
pub socks5_peer-connects :
    (is_utf8 : Bytes → Bool) (do_bind announce_listen : Bool) (script : Option Bytes)
    (dest a remote : SocksSocketAddr) (rest out : Bytes) (e : List Effect)
    → IsAddress is_utf8 dest
    → IsAddress is_utf8 a
    → IsAddress is_utf8 remote
    → socks5_peer is_utf8 do_bind script (some dest) announce_listen (record {
      input = 5 ∷ (0 ∷ served do_bind a remote rest);
      write_fails = [];
      output = out;
      effects = e;
    })
      ≡ (
        record {
          input = rest;
          write_fails = [];
          output = (out ++ 5 ∷ (1 ∷ (0 ∷ []))) ++ socks_request do_bind dest.host dest.port;
          effects = done do_bind script announce_listen a.port e;
        },
        ok tt,
      )
unfolding socks5_peer dialogue write_all
socks5_peer-connects is_utf8 do_bind announce_listen script dest a remote rest out e at addr other =
    ap
      (λ (t : Talk (Unit {0})). t (record {
        input = 5 ∷ (0 ∷ served do_bind a remote rest);
        write_fails = [];
        output = out;
        effects = e;
      }))
      (if-false _ _ (short_name is_utf8 dest.host at.0))
    ∙ ap (then_talk (check_methods (ask is_utf8 do_bind script dest announce_listen))) (
        read_exact-append (5 ∷ (0 ∷ [])) (served do_bind a remote rest) 2
          (record { input = []; write_fails = []; output = out ++ 5 ∷ (1 ∷ (0 ∷ [])); effects = e })
          refl)
    ∙ bound-served is_utf8 do_bind announce_listen script a remote rest
        ((out ++ 5 ∷ (1 ∷ (0 ∷ []))) ++ socks_request do_bind dest.host dest.port) e addr other
