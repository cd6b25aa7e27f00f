-- ===== src/Socks5.antt =====
-- socks5_peer.rs: the client's side of the SOCKS 5 dialogue. The server is all the bytes that it sends;
-- a read past them fails, and a write fails where the connection says so.
pub mod Replies
pub mod Dialogue
mod Tests
use websocat.Base.{
  ◌*◌, ◌/◌, ◌%◌, ℕ, suc, zero, ◌+◌, Bool, true, false, not, Option, none, some, List, [], ◌∷◌, ◌++◌,
  ltb, ◌==◌, if◌then◌else◌, length, take, drop, get_or, Bytes, codes,
}
use websocat.Lints.Options.{SocksHostAddr, ip4, ip6, name, SocksSocketAddr}

-- What the client does besides the dialogue: it prints the port, and starts the bind script.
pub data Effect : Type 0 where
  announces : ℕ → Effect
  starts : Bytes → ℕ → Effect

-- A connection: what the server sends next, whether the next writes fail, what has been written, and
-- what was done besides.
pub record Conn : Type 0 where
  pub input : Bytes
  pub write_fails : List Bool
  pub output : Bytes
  pub effects : List Effect

-- The text of an error.
pub data SocksResult (A : Type 0) : Type 0 where
  ok : A → SocksResult A
  err : Bytes → SocksResult A

-- A part of the dialogue.
abbrev pub Talk : Type 0 → Type 0
Talk A = Conn → Conn × SocksResult A

abbrev pub then_talk : {A B : Type 0} → (A → Talk B) → Conn × SocksResult A → Conn × SocksResult B
then_talk f (c, ok a) = f a c
then_talk f (c, err e) = (c, err e)

infixl 5 ◌>>=◌ ◌>>◌
abbrev pub ◌>>=◌ : {A B : Type 0} → Talk A → (A → Talk B) → Talk B
◌>>=◌ m f c = then_talk f (m c)

abbrev pub ◌>>◌ : {B : Type 0} → Talk (Unit {0}) → Talk B → Talk B
m >> k = m >>= λ _. k

abbrev pub pure : {A : Type 0} → A → Talk A
pure a c = (c, ok a)

abbrev pub fail : {A : Type 0} → Bytes → Talk A
fail e c = (c, err e)

-- `tokio_io::io::read_exact`
unfoldable pub read_exact : ℕ → Talk Bytes
read_exact n c =
    if ltb (length c.input) n
    then (record c { input = [] }, err (codes "early eof"))
    else (record c { input = drop n c.input }, ok (take n c.input))

abbrev pub writing : List Bool → Bytes → Talk (Unit {0})
writing [] b c = (record c { output = c.output ++ b }, ok tt)
writing (false ∷ fs) b c = (record c { write_fails = fs; output = c.output ++ b }, ok tt)
writing (true ∷ fs) b c = (record c { write_fails = fs }, err (codes "write failed"))

-- `tokio_io::io::write_all`
unfoldable pub write_all : Bytes → Talk (Unit {0})
write_all b c = writing c.write_fails b c

abbrev pub byte : Bytes → ℕ → ℕ
byte b i = get_or b i 0

-- The texts for the codes of a reply.
unfoldable pub reply_error : ℕ → Bytes
reply_error code =
    if code == 1
    then codes "SOCKS: General SOCKS server failuire"
    else if code == 2
    then codes "SOCKS connection not allowed"
    else if code == 3
    then codes "SOCKS: network unreachable"
    else if code == 4
    then codes "SOCKS: host unreachable"
    else if code == 5
    then codes "SOCKS: connection refused"
    else if code == 6
    then codes "SOCKS: TTL expired"
    else if code == 7
    then codes "SOCKS: Command not supported"
    else if code == 8
    then codes "SOCKS: Address type not supported"
    else codes "SOCKS: Unknown failure"

-- `(addrport[n] as u16) * 256 + (addrport[n + 1] as u16)`
abbrev pub port_at : ℕ → Bytes → ℕ
port_at n addrport = byte addrport n * 256 + byte addrport (n + 1)

abbrev pub hostname : (Bytes → Bool) → Bytes → SocksHostAddr
hostname is_utf8 b = if is_utf8 b then name b else name (codes "(invalid hostname)")

-- The address in the first `n` bytes, and the port behind it.
abbrev pub address_of : ℕ → (Bytes → SocksHostAddr) → Bytes → Talk SocksSocketAddr
address_of n host addrport =
    pure (record { host = host (take n addrport); port = port_at n addrport })

unfoldable pub read_ip4 : Talk SocksSocketAddr
unfolding read_exact
read_ip4 = read_exact 6 >>= address_of 4 ip4

unfoldable pub read_ip6 : Talk SocksSocketAddr
unfolding read_exact
read_ip6 = read_exact 18 >>= address_of 16 ip6

abbrev pub read_named : (Bytes → Bool) → Bytes → Talk SocksSocketAddr
unfolding read_exact
read_named is_utf8 alen =
    read_exact (byte alen 0 + 2) >>= address_of (byte alen 0) (hostname is_utf8)

unfoldable pub read_name : (Bytes → Bool) → Talk SocksSocketAddr
unfolding read_exact
read_name is_utf8 = read_exact 1 >>= read_named is_utf8

-- The address, by the type in the fourth byte of the reply.
abbrev pub read_address : (Bytes → Bool) → ℕ → Talk SocksSocketAddr
unfolding read_ip4 read_ip6 read_name
read_address is_utf8 kind =
    if kind == 1
    then read_ip4
    else if kind == 4
    then read_ip6
    else if kind == 3
    then read_name is_utf8
    else fail (codes "SOCKS: bound address type is unknown")

abbrev pub check_reply : (Bytes → Bool) → Bytes → Talk SocksSocketAddr
unfolding read_ip4 read_ip6 read_name reply_error
check_reply is_utf8 reply =
    if not (byte reply 0 == 5)
    then fail (codes "Not a SOCKS5 reply 2")
    else if not (byte reply 1 == 0)
    then fail (reply_error (byte reply 1))
    else read_address is_utf8 (byte reply 3)

-- The parser of UTF-8 is an argument.
unfoldable pub read_socks_reply : (Bytes → Bool) → Talk SocksSocketAddr
unfolding read_exact read_ip4 read_ip6 read_name reply_error
read_socks_reply is_utf8 = read_exact 4 >>= check_reply is_utf8

-- The destination in a request: its type, its bytes, and its port.
unfoldable pub encode_host : SocksHostAddr → Bytes
encode_host (ip4 octets) = 1 ∷ octets
encode_host (ip6 octets) = 4 ∷ octets
encode_host (name n) = 3 ∷ (length n % 256 ∷ n)

unfoldable pub encode_port : ℕ → Bytes
encode_port port = port / 256 % 256 ∷ (port % 256 ∷ [])

unfoldable pub socks_request : Bool → SocksHostAddr → ℕ → Bytes
unfolding encode_host encode_port
socks_request do_bind desthost destport =
    (if do_bind then 5 ∷ (2 ∷ (0 ∷ [])) else 5 ∷ (1 ∷ (0 ∷ [])))
    ++ (encode_host desthost ++ encode_port destport)

abbrev pub effect : Effect → Talk (Unit {0})
effect e c = (record c { effects = c.effects ++ e ∷ [] }, ok tt)

abbrev pub announce : Bool → ℕ → Talk (Unit {0})
announce true port = effect (announces port)
announce false port = pure tt

abbrev pub start_script : Option Bytes → ℕ → Talk (Unit {0})
start_script none port = pure tt
start_script (some script) port = effect (starts script port)

-- Behind the first reply.
abbrev pub bound : (Bytes → Bool) → Bool → Option Bytes → Bool → SocksSocketAddr → Talk (Unit {0})
unfolding read_socks_reply
bound is_utf8 false bind_script announce_listen addr = pure tt
bound is_utf8 true bind_script announce_listen addr = do
  announce announce_listen addr.port
  start_script bind_script addr.port
  remote ← read_socks_reply is_utf8
  pure tt

-- The request, and what follows it.
abbrev pub ask : (Bytes → Bool) → Bool → Option Bytes → SocksSocketAddr → Bool → Talk (Unit {0})
unfolding write_all socks_request read_socks_reply
ask is_utf8 do_bind bind_script dest announce_listen = do
  write_all (socks_request do_bind dest.host dest.port)
  addr ← read_socks_reply is_utf8
  bound is_utf8 do_bind bind_script announce_listen addr

abbrev pub check_methods : Talk (Unit {0}) → Bytes → Talk (Unit {0})
check_methods rest authmethods =
    if not (byte authmethods 0 == 5)
    then fail (codes "Not a SOCKS5 reply")
    else if not (byte authmethods 1 == 0)
    then fail (codes "Not a SOCKS5 or auth required")
    else rest

-- From the greeting on.
unfoldable pub dialogue :
    (Bytes → Bool) → Bool → Option Bytes → SocksSocketAddr → Bool → Talk (Unit {0})
unfolding write_all read_exact socks_request read_socks_reply
dialogue is_utf8 do_bind bind_script dest announce_listen = do
  write_all (5 ∷ (1 ∷ (0 ∷ [])))
  authmethods ← read_exact 2
  check_methods (ask is_utf8 do_bind bind_script dest announce_listen) authmethods

abbrev pub is_too_long : SocksHostAddr → Bool
is_too_long (ip4 b) = false
is_too_long (ip6 b) = false
is_too_long (name n) = ltb 255 (length n)

-- On success the connection is the peer: what the server sends next is its input.
unfoldable pub socks5_peer :
    (Bytes → Bool) → Bool → Option Bytes → Option SocksSocketAddr → Bool → Talk (Unit {0})
unfolding dialogue
socks5_peer is_utf8 do_bind bind_script none announce_listen =
    fail (codes "--socks5-destination is required for socks5-connect: or socks5-bind: overlays")
socks5_peer is_utf8 do_bind bind_script (some dest) announce_listen =
    if is_too_long dest.host
    then fail (codes "Destination host name too long for SOCKS5")
    else dialogue is_utf8 do_bind bind_script dest announce_listen
