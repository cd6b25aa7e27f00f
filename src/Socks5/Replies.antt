-- ===== src/Socks5/Replies.antt =====
-- socks5_peer.rs: addresses in replies and requests have one format.
use websocat.Base.{
  ◌%◌, ℕ, suc, ◌+◌, ◌<◌, ◌≤◌, ◌≡◌, refl, ap, ◌∙◌, Bool, true, [], ◌∷◌, ◌++◌, arith, ge→ltb,
  if-false, if-true, length, length-append, take-append_left, drop-append_left, get_or, Bytes,
}
use websocat.Lints.Options.{SocksHostAddr, ip4, ip6, name}
use websocat.Socks5.{
  Conn, address_of, read_named, then_talk, check_reply, ok, read_exact, byte, port_at, hostname,
  read_ip4, read_ip6, read_name, read_socks_reply, encode_host, encode_port,
}

-- An address that has a place in the format.
abbrev pub Encodes : (Bytes → Bool) → SocksHostAddr → Type 0
Encodes is_utf8 (ip4 b) = length b ≡ 4
Encodes is_utf8 (ip6 b) = length b ≡ 16
Encodes is_utf8 (name n) = (length n ≤ 255) × (is_utf8 n ≡ true)

pub read_exact-append :
    (b rest : Bytes) (n : ℕ) (c : Conn)
    → length b ≡ n
    → read_exact n (record c { input = b ++ rest }) ≡ (record c { input = rest }, ok b)
unfolding read_exact
read_exact-append b rest n c e = rw (← e) (
    if-false _ _ (ge→ltb (length (b ++ rest)) (length b) (omega (arith, length-append b rest)))
    ∙ rw (take-append_left b rest, drop-append_left b rest) refl)

get_or-append : (b rest : Bytes) (i : ℕ) → get_or (b ++ rest) (length b + i) 0 ≡ get_or rest i 0
get_or-append [] rest i = ap (λ k. get_or rest k 0) (omega arith)
get_or-append (x ∷ b) rest i =
    let e : suc (length b) + i ≡ suc (length b + i) = omega arith in
    ap (λ k. get_or (x ∷ (b ++ rest)) k 0) e ∙ get_or-append b rest i

port_at-encode_port :
    (b : Bytes) (port : ℕ) → port < 65536 → port_at (length b) (b ++ encode_port port) ≡ port
unfolding encode_port
port_at-encode_port b port lt = omega (
  arith,
  ap (λ k. byte (b ++ encode_port port) k) (let e : length b ≡ length b + 0 = omega arith in e),
  get_or-append b (encode_port port) 0,
  get_or-append b (encode_port port) 1,
)

length-encode_port : (port : ℕ) → length (encode_port port) ≡ 2
unfolding encode_port
length-encode_port port = refl

-- The bytes of an address and its port, read into parts.
read-parts :
    (n : ℕ) (make : Bytes → SocksHostAddr) (b rest : Bytes) (port : ℕ) (c : Conn)
    → length b ≡ n
    → port < 65536
    → then_talk
        (address_of n make)
        (read_exact (n + 2) (record c { input = (b ++ encode_port port) ++ rest }))
      ≡ (record c { input = rest }, ok (record { host = make b; port = port }))
read-parts n make b rest port c e lt =
    ap (then_talk (address_of n make)) (
      read_exact-append (b ++ encode_port port) rest (n + 2) c
        (omega (arith, length-append b (encode_port port), length-encode_port port)))
    ∙ rw (← e, take-append_left b (encode_port port), port_at-encode_port b port lt) refl

-- A reply that grants a request is read as the address in it, in the format in which a request writes its
-- destination, and no byte behind it is taken: octets of the right number, or a name of 255 bytes at most
-- in UTF-8, and a port below 65536.
pub read_socks_reply-encode :
    (is_utf8 : Bytes → Bool) (host : SocksHostAddr) (port : ℕ) (rest : Bytes) (c : Conn)
    → Encodes is_utf8 host
    → port < 65536
    → read_socks_reply is_utf8
        (record c { input = 5 ∷ (0 ∷ (0 ∷ ((encode_host host ++ encode_port port) ++ rest))) })
      ≡ (record c { input = rest }, ok (record { host = host; port = port }))
unfolding read_socks_reply read_ip4 read_ip6 read_name read_exact encode_host
read_socks_reply-encode is_utf8 (ip4 b) port rest c e lt =
    ap (then_talk (check_reply is_utf8))
      (read_exact-append (5 ∷ (0 ∷ (0 ∷ (1 ∷ [])))) ((b ++ encode_port port) ++ rest) 4 c refl)
    ∙ read-parts 4 ip4 b rest port c e lt
read_socks_reply-encode is_utf8 (ip6 b) port rest c e lt =
    ap (then_talk (check_reply is_utf8))
      (read_exact-append (5 ∷ (0 ∷ (0 ∷ (4 ∷ [])))) ((b ++ encode_port port) ++ rest) 4 c refl)
    ∙ read-parts 16 ip6 b rest port c e lt
read_socks_reply-encode is_utf8 (name n) port rest c (short, utf8) lt =
    ap (then_talk (check_reply is_utf8)) (
      read_exact-append (5 ∷ (0 ∷ (0 ∷ (3 ∷ []))))
        ((length n % 256 ∷ (n ++ encode_port port)) ++ rest) 4 c refl)
    ∙ ap (then_talk (read_named is_utf8))
        (read_exact-append (length n % 256 ∷ []) ((n ++ encode_port port) ++ rest) 1 c refl)
    ∙ read-parts (length n % 256) (hostname is_utf8) n rest port c (omega arith) lt
    ∙ ap (λ h. (record c { input = rest }, ok (record { host = h; port = port })))
        (if-true _ _ utf8)
