-- ===== src/Broadcast/Channels.antt =====
-- What `broadcast:` relies on: how the slab of senders and the channels of futures::unsync::mpsc behave.
use websocat.Base.{
  ℕ, ◌≡◌, ◌⊎◌, false, Option, none, some, List, [], ◌∷◌, ◌++◌, Bytes, returns, panics, ◌==◌,
}
use websocat.Broadcast.{Slab, ready, not_ready, closed, message, end, nothing, Mpsc}

pub record SlabLaws {T : Type 0} (slab : Slab T) : Type 0 where
  pub get : ℕ → T → Option ℕ
  pub get-empty : (j : ℕ) → get j slab.empty ≡ none
  pub get-insert : (c : ℕ) (t : T) → get (slab.insert c t).1 (slab.insert c t).0 ≡ some c
  pub get-insert_other :
      (c j : ℕ) (t : T) → (j == (slab.insert c t).1) ≡ false → get j (slab.insert c t).0 ≡ get j t
  pub insert-vacant : (c : ℕ) (t : T) → get (slab.insert c t).1 t ≡ none
  pub insert-same : (c d : ℕ) (t : T) → (slab.insert c t).1 ≡ (slab.insert d t).1
  pub senders-one : (c : ℕ) → slab.senders (slab.insert c slab.empty).0 ≡ c ∷ []
  pub remove-vacant : (k : ℕ) (t : T) → get k t ≡ none → slab.remove k t ≡ panics
  pub remove-taken :
      (k c : ℕ) (t : T)
      → get k t ≡ some c
      → (u : T) × (slab.remove k t ≡ returns (u, c))
        × (get k u ≡ none)
        × ((j : ℕ) → (j == k) ≡ false → get j u ≡ get j t)

-- A channel holds messages; a message that is taken is the last of them, and the first is given out.
pub record MpscLaws {C : Type 0} (mpsc : Mpsc C) : Type 0 where
  pub contents : C → List Bytes
  pub contents-channel : (n : ℕ) → contents (mpsc.channel n) ≡ []
  pub sends :
      (m : Bytes) (c : C)
      → (mpsc.start_send m c).1 ≡ ready
      → contents (mpsc.start_send m c).0 ≡ contents c ++ m ∷ []
  pub refuses :
      (m : Bytes) (c : C)
      → ((mpsc.start_send m c).1 ≡ not_ready) ⊎ ((mpsc.start_send m c).1 ≡ closed)
      → contents (mpsc.start_send m c).0 ≡ contents c
  pub completes : (c : C) → contents (mpsc.poll_complete c) ≡ contents c
  pub polls :
      (m : Bytes) (ms : List Bytes) (c : C)
      → contents c ≡ m ∷ ms
      → ((mpsc.poll c).1 ≡ message m) × (contents (mpsc.poll c).0 ≡ ms)
  pub polls-empty :
      (c : C)
      → contents c ≡ []
      → (((mpsc.poll c).1 ≡ end) ⊎ ((mpsc.poll c).1 ≡ nothing)) × (contents (mpsc.poll c).0 ≡ [])
