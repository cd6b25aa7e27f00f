-- ===== src/Mirror/Tests.antt =====
-- Runs of the readers of mirror_peer.rs at concrete inputs.
use websocat.Base.{◌≡◌, some, [], ◌∷◌, arith}
use websocat.ReadDebt.{silent}
use websocat.Mirror.{get_mirror_peer}
use websocat.Mirror.Reads.{items, receive}
use websocat.Mirror.Delivery.{receive-mirror}

receive-mirror_example :
    receive
      (λ m. m)
      20
      (get_mirror_peer silent (items ((1 ∷ 2 ∷ 3 ∷ []) ∷ (4 ∷ []) ∷ [])))
      (0 ∷ 0 ∷ [])
    ≡ some ((1 ∷ 2 ∷ []) ∷ (3 ∷ []) ∷ (4 ∷ []) ∷ [])
receive-mirror_example =
    receive-mirror silent ((1 ∷ 2 ∷ 3 ∷ []) ∷ (4 ∷ []) ∷ []) (0 ∷ 0 ∷ []) 20 (λ e. cc) (omega arith)
      (omega arith)
