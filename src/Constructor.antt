-- ===== src/Constructor.antt =====
-- lib.rs, `PeerConstructor`, and util.rs, its combinators. A future is what it resolves to, a stream
-- the items it gives before its end; both are made elsewhere, from peers, errors and `L2rUser`s that
-- the combinators only hand on.
pub mod Overlays
mod Tests
use websocat.Base.{List, [], ◌∷◌, Outcome, returns, panics}

-- `Result<Peer, Box<dyn Error>>`
pub data PeerResult (P E : Type 0) : Type 0 where
  peer : P → PeerResult P E
  failed : E → PeerResult P E

-- A future: what it resolves to, if polling it does not panic.
abbrev pub BoxedNewPeerFuture : Type 0 → Type 0 → Type 0
BoxedNewPeerFuture P E = Outcome (PeerResult P E)

abbrev pub BoxedNewPeerStream : Type 0 → Type 0 → Type 0
BoxedNewPeerStream P E = List (PeerResult P E)

abbrev pub PeerOverlay : Type 0 → Type 0 → Type 0 → Type 0
PeerOverlay P E L = P → L → BoxedNewPeerFuture P E

pub data PeerConstructor (P E L : Type 0) : Type 0 where
  serve_once : BoxedNewPeerFuture P E → PeerConstructor P E L
  serve_multiple_times : BoxedNewPeerStream P E → PeerConstructor P E L
  overlay1 : BoxedNewPeerFuture P E → PeerOverlay P E L → PeerConstructor P E L
  overlay_m : BoxedNewPeerStream P E → PeerOverlay P E L → PeerConstructor P E L
  error : E → PeerConstructor P E L

module _ {P E : Type 0} where
  -- `Future::and_then`
  abbrev pub and_then :
      BoxedNewPeerFuture P E → (P → BoxedNewPeerFuture P E) → BoxedNewPeerFuture P E
  and_then (returns (peer p)) f = f p
  and_then (returns (failed e)) f = returns (failed e)
  and_then panics f = panics

  -- `into_future` of a stream, and `expect` of its first item.
  abbrev pub first_peer : BoxedNewPeerStream P E → BoxedNewPeerFuture P E
  first_peer [] = panics
  first_peer (x ∷ xs) = returns x

module _ {P E L : Type 0} where
  -- The overlay that `map` makes of two.
  abbrev pub composed : PeerOverlay P E L → PeerOverlay P E L → PeerOverlay P E L
  composed mapper f p l2r = and_then (mapper p l2r) (λ q. f q l2r)

  unfoldable pub map : PeerConstructor P E L → PeerOverlay P E L → PeerConstructor P E L
  map (error e) f = error e
  map (serve_once x) f = overlay1 x f
  map (serve_multiple_times s) f = overlay_m s f
  map (overlay1 x mapper) f = overlay1 x (composed mapper f)
  map (overlay_m x mapper) f = overlay_m x (composed mapper f)

  unfoldable pub get_only_first_conn : PeerConstructor P E L → L → BoxedNewPeerFuture P E
  get_only_first_conn (error e) l2r = returns (failed e)
  get_only_first_conn (serve_multiple_times stre) l2r = first_peer stre
  get_only_first_conn (serve_once futur) l2r = futur
  get_only_first_conn (overlay1 futur mapper) l2r = and_then futur (λ p. mapper p l2r)
  get_only_first_conn (overlay_m stre mapper) l2r = and_then (first_peer stre) (λ p. mapper p l2r)
