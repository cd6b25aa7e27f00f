-- ===== src/Reuse/Tests.antt =====
-- A reuser of a peer that counts its calls.
use websocat.Base.{
  ℕ, ◌+◌, ◌≡◌, refl, true, some, none, Option, Bytes, IoResult, ok, codes, returns, arith,
}
use websocat.Constructor.{peer}
use websocat.Reuse.{
  Reuser, default, connection_reuser, initialized, Inner, with_peer, handle_read, handle_write,
  handle_flush, handle_shutdown,
}
use websocat.Reuse.Handles.{Steps, start, next, client, resolves, handles-IsSafe}

abbrev counter : Inner ℕ
counter = record {
  read = λ n b. (n + 1, (b, ok n));
  write = λ n b. (n + 1, ok 0);
  flush = λ n. (n + 1, ok 0);
}

abbrev waiting : Reuser ℕ
waiting = record { slot = none; initializing = 1; handles = 0 }

abbrev serving : Reuser ℕ
serving = record { slot = some 5; initializing = 0; handles = 1 }

one_client : Steps ℕ counter default serving
unfolding connection_reuser initialized
one_client =
    next waiting serving (next default waiting start (client default))
      (resolves waiting 0 (peer 5) refl)

handle_shutdown-message : handle_shutdown counter true (some 5) ≡ returns (some 6)
unfolding with_peer
handle_shutdown-message = refl

handles-IsSafe_example :
    ((r : Option ℕ × (Bytes × IoResult ℕ)) × (handle_read counter (codes "ab") (some 5)
        ≡ returns r))
    × ((r : Option ℕ × IoResult ℕ) × (handle_write counter (codes "ab") (some 5) ≡ returns r))
    × ((r : Option ℕ × IoResult ℕ) × (handle_flush counter (some 5) ≡ returns r))
    × ((r : Option ℕ) × (handle_shutdown counter true (some 5) ≡ returns r))
handles-IsSafe_example = handles-IsSafe counter serving (codes "ab") true one_client (omega arith)
