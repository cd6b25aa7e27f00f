-- ===== src/Lib.antt =====
-- Websocat: a command-line client and server for WebSockets, read and written like netcat. A command
-- line gives two specifiers. Each is parsed into a stack: an address class with its text, and overlay
-- classes around it. Lints then check the configuration and change it. Each stack is constructed into a
-- peer, a reader and a writer, and what one peer's reader gives is copied into the other's writer. Overlays
-- wrap a peer's reader or writer.
--
-- Files, and the code that each is about:
--   Base            lists and byte strings over native numbers, `io::Result`, calls that may panic
--   ReadDebt        src/readdebt.rs: `ReadDebt`, `process_message`, `check_debt`
--   Mirror          src/mirror_peer.rs: the readers of `mirror:` and `literalreply:`
--   Reconnect       src/reconnect_peer.rs: `State`, `poll`, `main_loop!`, `autoreconnector`
--   Ws              src/ws_peer.rs: `WsReadWrapper`, `WsWriteWrapper`, `WsPinger`, compression
--   Socks5          src/socks5_peer.rs: `socks5_peer`, `read_socks_reply`
--   Specifier       src/specifier.rs: the class trait, its two macros, `SpecifierStack`
--   Specifier/Classes   the registry of src/all_peers.rs, each class as its file declares it
--   Specparse       src/specparse.rs: `some_checks`, `SpecifierStack::from_str`
--   Lints           src/lints.rs: `ClassExt`, `SpecifierStackExt`, every lint, `lint_and_fixup`
--   Constructor     src/lib.rs, src/util.rs: `PeerConstructor`, `map`, `get_only_first_conn`
--   Sessions        src/sessionserve.rs: `serve_impl`, `Session`; src/specifier.rs: `ConstructParams`
--   Copy            src/my_copy.rs: `CopyOptions`, `copy`, `poll` of `Copy`
--   Foreachmsg      src/foreachmsg_peer.rs: `State`, the reads and writes of `foreachmsg:`
--   HttpHead        src/http_peer.rs: `WaitForHttpHead`
--   Sse             src/http_peer.rs: `SseStream`
--   JsonRpc         src/jsonrpc_peer.rs: `JsonRpcWrapper`
--   Broadcast       src/broadcast_reuse_peer.rs: `InnerPeerReader`, the handles, `connection_reuser`
--   Reuse           src/primitive_reuse_peer.rs: `GlobalState`, `PeerHandle`, `connection_reuser`
--   Line            src/line_peer.rs: `Packet2LineWrapper`, `Line2PacketWrapper`
--
-- Correspondence. A Rust type that implements `SpecifierClass` is a record of what its methods return;
-- its Rust name is `get_name`. A method that panics returns `panics`. A method on `&mut self` returns the
-- object as the call leaves it, with the buffer that it was given. Texts are lists of bytes. `Linted`
-- is the result of a lint: a value with the warnings given through `on_warning`, an error, or a panic;
-- what is only logged is left out. The build modelled is a Linux one with every optional feature.
--
-- Parameters: the `url` crate's parser and the test whether a file exists are arguments of the lints.
-- The channel of a mirror, the readers under an overlay and of an HTTP head, and the two ends of a copy
-- are scripts: the results that their next polls, reads, writes and flushes give; a real
-- reader's reads give no more than its buffer holds. A future is what it resolves to, a
-- stream its items. What the inner peer of a reuser does in a call is a record of functions.
-- The slab of senders and the channels of `broadcast:` are records of functions, with laws in
-- Broadcast/Channels.
--
-- Fuel: the loop of `from_str`, the recursion of `Line2PacketWrapper::read` and the loop of `poll` take
-- fuel, and theorems below say how much is enough: five rounds more than the specifier has bytes; one
-- round more than there are queued bytes, inner results and bytes in these; three turns more than there
-- are preamble messages and results of the reader. A read of `broadcast:` takes one round more than there
-- are too long messages in front. `mirror:`, which `l_stdio` parses, has fuel 12. The
-- count of a copy and the identifiers of requests wrap at 2 ^ 64.
--
-- Not modelled: how each class constructs its peer, and the input and output of peers through tokio,
-- hyper, native-tls and the operating system; the command line's parser; the help texts; sessions of
-- a left side that serves once. Of the options only those that lints read or write are fields of the
-- model's `Options`; those of a session or a WebSocket are with these.
pub mod Base
pub mod Broadcast
pub mod Constructor
pub mod Copy
pub mod Foreachmsg
pub mod HttpHead
pub mod JsonRpc
pub mod Line
pub mod Lints
pub mod Mirror
pub mod ReadDebt
pub mod Reconnect
pub mod Reuse
pub mod Sessions
pub mod Socks5
pub mod Specifier
pub mod Specparse
pub mod Sse
pub mod Ws
