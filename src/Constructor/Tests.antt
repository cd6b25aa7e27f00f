-- ===== src/Constructor/Tests.antt =====
-- Constructors with overlays at concrete inputs: peers, errors and left-to-right data are numbers.
use websocat.Base.{ℕ, ◌+◌, ◌≡◌, refl, [], ◌∷◌, returns, panics}
use websocat.Constructor.{
  peer, failed, PeerOverlay, PeerConstructor, serve_multiple_times, overlay1, and_then, map,
  get_only_first_conn,
}
use websocat.Constructor.Overlays.{get_only_first_conn-map}

abbrev add_l2r : PeerOverlay ℕ ℕ ℕ
add_l2r p l2r = returns (peer (p + l2r))

abbrev refuse : PeerOverlay ℕ ℕ ℕ
refuse p l2r = returns (failed p)

abbrev two_clients : PeerConstructor ℕ ℕ ℕ
two_clients = serve_multiple_times (peer 3 ∷ (peer 4 ∷ []))

abbrev over_one : PeerConstructor ℕ ℕ ℕ
over_one = overlay1 (returns (peer 3)) add_l2r

get_only_first_conn-nobody : get_only_first_conn (map (serve_multiple_times []) add_l2r) 2 ≡ panics
unfolding map get_only_first_conn
get_only_first_conn-nobody = refl

get_only_first_conn-two :
    get_only_first_conn (map (map two_clients add_l2r) refuse) 2 ≡ returns (failed 5)
unfolding map get_only_first_conn
get_only_first_conn-two = refl

get_only_first_conn-map_example :
    get_only_first_conn (map over_one add_l2r) 2
    ≡ and_then (get_only_first_conn over_one 2) (λ p. add_l2r p 2)
get_only_first_conn-map_example = get_only_first_conn-map over_one add_l2r 2
