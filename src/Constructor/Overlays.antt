-- ===== src/Constructor/Overlays.antt =====
-- What overlays, put on a constructor by `map`, do to its connections.
use websocat.Base.{◌≡◌, refl, sym, ap, returns, panics}
use mathlib.Core.Path.{fun_ext}
use websocat.Constructor.{
  peer, failed, BoxedNewPeerFuture, PeerOverlay, PeerConstructor, serve_once, serve_multiple_times,
  overlay1, overlay_m, error, and_then, first_peer, composed, map, get_only_first_conn,
}

module _ {P E : Type 0} where
  and_then_assoc :
      (x : BoxedNewPeerFuture P E) (f g : P → BoxedNewPeerFuture P E)
      → and_then (and_then x f) g ≡ and_then x (λ p. and_then (f p) g)
  and_then_assoc (returns (peer p)) f g = refl
  and_then_assoc (returns (failed e)) f g = refl
  and_then_assoc panics f g = refl

module _ {P E L : Type 0} where
  -- The first connection of a constructor with one overlay more is the first connection without it,
  -- given to the overlay with the same left-to-right data: behind an error, behind overlays, and where
  -- there is no connection.
  pub get_only_first_conn-map :
      (c : PeerConstructor P E L) (f : PeerOverlay P E L) (l2r : L)
      → get_only_first_conn (map c f) l2r ≡ and_then (get_only_first_conn c l2r) (λ p. f p l2r)
  unfolding map get_only_first_conn
  get_only_first_conn-map (error e) f l2r = refl
  get_only_first_conn-map (serve_once x) f l2r = refl
  get_only_first_conn-map (serve_multiple_times s) f l2r = refl
  get_only_first_conn-map (overlay1 x mapper) f l2r =
      sym (and_then_assoc x (λ p. mapper p l2r) (λ q. f q l2r))
  get_only_first_conn-map (overlay_m s mapper) f l2r =
      sym (and_then_assoc (first_peer s) (λ p. mapper p l2r) (λ q. f q l2r))

  composed_assoc :
      (h f g : PeerOverlay P E L) → composed (composed h f) g ≡ composed h (composed f g)
  composed_assoc h f g =
      fun_ext (λ p. fun_ext (λ l. and_then_assoc (h p l) (λ q. f q l) (λ q. g q l)))

  -- Two overlays put on a constructor, one after the other, are one overlay: the first, and then, on the
  -- peer that it gives and with the same left-to-right data, the second.
  pub map-map :
      (c : PeerConstructor P E L) (f g : PeerOverlay P E L)
      → map (map c f) g ≡ map c (λ p l2r. and_then (f p l2r) (λ q. g q l2r))
  unfolding map
  map-map (error e) f g = refl
  map-map (serve_once x) f g = refl
  map-map (serve_multiple_times s) f g = refl
  map-map (overlay1 x h) f g = ap (overlay1 x) (composed_assoc h f g)
  map-map (overlay_m s h) f g = ap (overlay_m s) (composed_assoc h f g)
