-- ===== src/JsonRpc.antt =====
-- jsonrpc_peer.rs: `JsonRpcWrapper` makes a JSON-RPC request of each message, a method name and its
-- parameters. The inner reader is a script of read results.
pub mod Format
pub mod Requests
mod Tests
use websocat.Base.{
  ℕ, suc, zero, ◌+◌, ◌/◌, ◌%◌, min, Bool, true, false, not, ◌&&◌, ◌||◌, List, [], ◌∷◌, ◌++◌, ltb,
  ◌==◌, if◌then◌else◌, length, take, drop, concat, Bytes, codes, IoResult, ok, err, would_block,
  Outcome, returns, panics,
}

pub record JsonRpcWrapper : Type 0 where
  pub inner : List (IoResult Bytes)
  pub next_id : ℕ
  pub omit_jsonrpc : Bool

pub record JsonRead : Type 0 where
  pub after : JsonRpcWrapper
  pub buf : Bytes
  pub result : IoResult ℕ

-- `jsonrpc_peer`
unfoldable pub jsonrpc_peer : List (IoResult Bytes) → Bool → JsonRpcWrapper
jsonrpc_peer inner omit_jsonrpc = record { inner = inner; next_id = 1; omit_jsonrpc = omit_jsonrpc }

pub data Ps : Type 0 where
  before_method_name inside_method_name after_method_name inside_params : Ps

abbrev pub is_space : ℕ → Bool
is_space c = c == b' ' || c == b'\t' || c == b'\n'

-- The loop over the message: the method and the parameters.
unfoldable pub split_message : Ps → Bytes → Bytes → Bytes → Bytes × Bytes
split_message s method params [] = (method, params)
split_message before_method_name method params (c ∷ cs) = elim (is_space c) [
  | true ↦ split_message before_method_name method params cs
  | false ↦ split_message inside_method_name (method ++ c ∷ []) params cs
]
split_message inside_method_name method params (c ∷ cs) = elim (is_space c) [
  | true ↦ split_message after_method_name method params cs
  | false ↦ split_message inside_method_name (method ++ c ∷ []) params cs
]
split_message after_method_name method params (c ∷ cs) = elim (is_space c) [
  | true ↦ split_message after_method_name method params cs
  | false ↦ split_message inside_params method (params ++ c ∷ []) cs
]
split_message inside_params method params (c ∷ cs) =
    split_message inside_params method (params ++ c ∷ []) cs

-- `if params[params.len() - 1] == c { params.truncate(params.len() - 1) }`
unfoldable pub without_last : ℕ → Bytes → Bytes
without_last c [] = []
without_last c (x ∷ []) = if x == c then [] else x ∷ []
without_last c (x ∷ (y ∷ ys)) = x ∷ without_last c (y ∷ ys)

unfoldable pub needs_brackets : Bytes → Bool
needs_brackets [] = true
needs_brackets (c ∷ cs) = not (c == b'{') && not (c == b'[')

-- `format!("{}", n)`, with fuel for the digits.
unfoldable pub decimal : ℕ → ℕ → Bytes → Bytes
decimal zero n digits = digits
decimal (suc f) n digits = elim (ltb n 10) [
  | true ↦ (b'0' + n) ∷ digits
  | false ↦ decimal f (n / 10) ((b'0' + n % 10) ∷ digits)
]

-- The parameters, in brackets where they are needed.
unfoldable pub bracketed : Bytes → Bytes
unfolding without_last needs_brackets
bracketed params =
    let chomped = without_last b'\r' (without_last b'\n' params) in
    if needs_brackets params then b'[' ∷ (chomped ++ b']' ∷ []) else chomped

-- All that is written, one piece for each `write_all`; 20 digits are enough for a `u64`.
unfoldable pub request : Bool → ℕ → Bytes × Bytes → Bytes
unfolding bracketed decimal
request omit_jsonrpc id message =
    (if omit_jsonrpc then codes "{\"id\":" else codes "{\"jsonrpc\":\"2.0\",\"id\":")
    ++ (decimal 20 id []
        ++ (codes ", \"method\":\""
            ++ (message.0
                ++ (codes "\", \"params\":" ++ (bracketed message.1 ++ (b'}' ∷ b'\n' ∷ []))))))

-- 2 ^ 64, where the identifiers wrap.
abbrev pub id_modulus : ℕ
id_modulus = 18446744073709551616

-- What the cursor has written: as much as the buffer holds.
abbrev pub written_over : Bytes → Bytes → Bytes
written_over out b = take (length b) out ++ drop (length out) b

unfoldable pub json_step : List (IoResult Bytes) → JsonRpcWrapper → Bytes → JsonRead
unfolding request split_message
json_step [] s b = record { after = s; buf = b; result = err would_block }
json_step (err e ∷ rs) s b = record { after = record s { inner = rs }; buf = b; result = err e }
json_step (ok [] ∷ rs) s b = record { after = record s { inner = rs }; buf = b; result = ok 0 }
json_step (ok (c ∷ x) ∷ rs) s b =
    let message = split_message before_method_name [] [] (c ∷ x) in
    let out = request s.omit_jsonrpc s.next_id message in
    record {
      after = record s { inner = rs; next_id = (s.next_id + 1) % id_modulus };
      buf = written_over out ((c ∷ x) ++ drop (suc (length x)) b);
      result = ok (min (length b) (length out));
    }

-- `impl Read for JsonRpcWrapper`
unfoldable pub json_read : JsonRpcWrapper → Bytes → Outcome JsonRead
unfolding json_step
json_read s b = if ltb 1 (length b) then returns (json_step s.inner s b) else panics
