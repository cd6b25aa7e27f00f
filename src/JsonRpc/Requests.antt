-- ===== src/JsonRpc/Requests.antt =====
-- How a message is split, and the request made of it.
use websocat.Base.{
  ◌%◌, ℕ, suc, ◌+◌, ◌<◌, ◌≤◌, ◌≡◌, ◌⊎◌, inl, inr, refl, sym, ap, ◌∙◌, Bool, true, false, List, [],
  ◌∷◌, ◌++◌, arith, length, take, drop, All, length-append, length-drop, Bytes, IoResult, ok,
  returns, lt→ltb, take-all, take-append_left, min, append-nil, append_assoc, if-true,
}
use websocat.JsonRpc.{
  JsonRpcWrapper, JsonRead, Ps, before_method_name, inside_method_name, after_method_name,
  inside_params, is_space, split_message, request, written_over, json_step, json_read, id_modulus,
}
use websocat.JsonRpc.Format.{IsRequest, request-IsRequest}

abbrev pub Spaces : Bytes → Type 0
Spaces = All (λ c. is_space c ≡ true)

abbrev pub NoSpace : Bytes → Type 0
NoSpace = All (λ c. is_space c ≡ false)

skip-Spaces :
    (s : Ps) (ws m p rest : Bytes)
    → (s ≡ before_method_name) ⊎ (s ≡ after_method_name)
    → Spaces ws
    → split_message s m p (ws ++ rest) ≡ split_message s m p rest
unfolding split_message
skip-Spaces s [] m p rest q h = refl
skip-Spaces before_method_name (c ∷ ws) m p rest q h =
    rw (h.0, split_message) (skip-Spaces before_method_name ws m p rest q h.1)
skip-Spaces after_method_name (c ∷ ws) m p rest q h =
    rw (h.0, split_message) (skip-Spaces after_method_name ws m p rest q h.1)
skip-Spaces inside_method_name (c ∷ ws) m p rest (inl e) h = cc
skip-Spaces inside_method_name (c ∷ ws) m p rest (inr e) h = cc
skip-Spaces inside_params (c ∷ ws) m p rest (inl e) h = cc
skip-Spaces inside_params (c ∷ ws) m p rest (inr e) h = cc

take_method :
    (n m p rest : Bytes)
    → NoSpace n
    → split_message inside_method_name m p (n ++ rest)
      ≡ split_message inside_method_name (m ++ n) p rest
unfolding split_message
take_method [] m p rest h = ap (λ z. split_message inside_method_name z p rest) (sym (append-nil m))
take_method (c ∷ n) m p rest h =
    rw (h.0, split_message)
      (take_method n (m ++ c ∷ []) p rest h.1
        ∙ ap (λ z. split_message inside_method_name z p rest) (append_assoc m (c ∷ []) n))

take_params : (m p rest : Bytes) → split_message inside_params m p rest ≡ (m, p ++ rest)
unfolding split_message
take_params m p [] = ap (λ z. (m, z)) (sym (append-nil p))
take_params m p (c ∷ rest) =
    take_params m (p ++ c ∷ []) rest ∙ ap (λ z. (m, z)) (append_assoc p (c ∷ []) rest)

-- A message of a method name and parameters, with blanks before, between and perhaps within the
-- parameters, is split into them.
pub split_message-finds :
    (before between method params : Bytes) (a b d : ℕ)
    → Spaces before
    → NoSpace (a ∷ method)
    → Spaces (b ∷ between)
    → is_space d ≡ false
    → split_message before_method_name [] []
        (before ++ ((a ∷ method) ++ ((b ∷ between) ++ (d ∷ params))))
      ≡ (a ∷ method, d ∷ params)
unfolding split_message
split_message-finds before between method params a b d sp ns sp2 nd =
    skip-Spaces before_method_name before [] [] _ (inl refl) sp
    ∙ rw (ns.0, split_message)
        (take_method method (a ∷ []) [] ((b ∷ between) ++ (d ∷ params)) ns.1
          ∙ rw (sp2.0, split_message)
              (skip-Spaces after_method_name between (a ∷ method) [] (d ∷ params) (inr refl) sp2.1
                ∙ rw (nd, split_message) (take_params (a ∷ method) (d ∷ []) params)))

-- A method name and parameters, with blanks before and between them, are read as the JSON-RPC request for
-- them under the next identifier, a `u64`, if the buffer holds the request: an object with the identifier
-- in decimal, the method, and the parameters without the line break at their end, as they are if they are
-- an object or an array, and else in brackets. The identifier after it is one more, modulo 2 ^ 64.
pub json_read-request :
    (omit : Bool) (id : ℕ) (rs : List (IoResult Bytes)) (buf : Bytes)
    (before between method params : Bytes) (a b c d : ℕ) (x : Bytes)
    → Spaces before
    → NoSpace (a ∷ method)
    → Spaces (b ∷ between)
    → is_space d ≡ false
    → before ++ ((a ∷ method) ++ ((b ∷ between) ++ (d ∷ params))) ≡ c ∷ x
    → length (request omit id (a ∷ method, d ∷ params)) ≤ length buf
    → 1 < length buf
    → id < id_modulus
    → (r : JsonRead) × (out : Bytes) × (json_read
          (record { inner = ok (c ∷ x) ∷ rs; next_id = id; omit_jsonrpc = omit })
          buf
        ≡ returns r)
      × IsRequest omit id (a ∷ method) (d ∷ params) out
      × (r.result ≡ ok (length out))
      × (take (length out) r.buf ≡ out)
      × (r.after ≡ record { inner = rs; next_id = (id + 1) % id_modulus; omit_jsonrpc = omit })
unfolding json_read json_step
json_read-request omit id rs buf before between method params a b c d x sp ns sp2 nd whole fits room
      u64 =
    let s : JsonRpcWrapper = record {
      inner = ok (c ∷ x) ∷ rs;
      next_id = id;
      omit_jsonrpc = omit;
    } in
    let out = request omit id (a ∷ method, d ∷ params) in
    let found : request omit id (split_message before_method_name [] [] (c ∷ x)) ≡ out =
      ap (λ z. request omit id (split_message before_method_name [] [] z)) (sym whole)
      ∙ ap (request omit id)
          (split_message-finds before between method params a b d sp ns sp2 nd) in
    let loaded = (c ∷ x) ++ drop (suc (length x)) buf in
    let room' : length out ≤ length loaded = omega (
      arith,
      length-append (c ∷ x) (drop (suc (length x)) buf),
      length-drop (suc (length x)) buf,
    ) in
    (
      json_step (ok (c ∷ x) ∷ rs) s buf,
      out,
      if-true _ _ (lt→ltb 1 (length buf) room),
      request-IsRequest omit id (a ∷ method) params d u64,
      ap (λ z. ok (min (length buf) (length z))) found ∙ ap (λ n. ok n) (omega (arith, fits)),
      ap (λ z. take (length out) (written_over z loaded)) found
          ∙ ap (λ z. take (length out) (z ++ drop (length out) loaded))
              (take-all (length loaded) out room')
          ∙ take-append_left out (drop (length out) loaded),
      refl,
    )
