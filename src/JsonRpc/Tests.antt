-- ===== src/JsonRpc/Tests.antt =====
-- Requests of jsonrpc_peer.rs at concrete inputs.
use websocat.Base.{
  ◌≡◌, refl, true, [], ◌∷◌, arith, ◌+◌, ◌%◌, take, length, replicate, Bytes, codes, ok, returns,
}
use websocat.JsonRpc.{
  JsonRead, decimal, request, bracketed, without_last, needs_brackets, json_read, id_modulus,
}
use websocat.JsonRpc.Format.{IsRequest}
use websocat.JsonRpc.Requests.{json_read-request}

request-call :
    request true 1 (codes "add", codes "1,2\n")
    ≡ codes "{\"id\":1, \"method\":\"add\", \"params\":[1,2]}\n"
unfolding request bracketed without_last needs_brackets decimal
request-call = refl

json_read-request_example :
    (r : JsonRead) × (out : Bytes) × (json_read
        (record { inner = ok (codes "add 1") ∷ []; next_id = 7; omit_jsonrpc = true })
        (replicate 64 0)
      ≡ returns r)
    × IsRequest true 7 (codes "add") (codes "1") out
    × (r.result ≡ ok (length out))
    × (take (length out) r.buf ≡ out)
    × (r.after ≡ record { inner = []; next_id = (7 + 1) % id_modulus; omit_jsonrpc = true })
unfolding request bracketed without_last needs_brackets decimal
json_read-request_example =
    json_read-request true 7 [] (replicate 64 0) [] [] (codes "dd") [] b'a' b' ' b'a' b'1'
      (codes "dd 1") tt (refl, (refl, (refl, tt))) (refl, tt) refl refl (omega arith) (omega arith)
      (omega arith)
