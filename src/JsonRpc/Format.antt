-- ===== src/JsonRpc/Format.antt =====
-- What a JSON-RPC request looks like, and that `request` makes one.
use websocat.Base.{
  ◌*◌, ◌/◌, ◌%◌, ℕ, suc, zero, ◌+◌, ◌-◌, ◌<◌, ◌≤◌, ◌≡◌, ◌≢◌, ◌⊎◌, inl, inr, refl, sym, ap, ◌∙◌,
  Bool, true, false, [], ◌∷◌, ◌++◌, arith, ltb, ltb→lt, ltb→ge, ◌==◌, ==_iff, get_or, All, Bytes,
  codes, Bool-cases, append_assoc, append-nil, ends_with, IsEnding, no_break, newline,
  carriage_return, both_breaks,
}
use websocat.JsonRpc.{decimal, without_last, needs_brackets, bracketed, request, id_modulus}

-- The value of decimal digits behind those worth `acc`.
abbrev pub value : ℕ → Bytes → ℕ
value acc [] = acc
value acc (c ∷ cs) = value (acc * 10 + (c - b'0')) cs

abbrev pub IsDigit : ℕ → Type 0
IsDigit c = (b'0' ≤ c) × (c ≤ b'9')

-- A numeral: digits that are worth the number, the first of them not zero unless the number is.
pub record IsNumeral (n : ℕ) (digits : Bytes) : Type 0 where
  pub numeral : All IsDigit digits
  pub worth : value 0 digits ≡ n
  pub lead : ((n ≡ 0) × (digits ≡ b'0' ∷ [])) ⊎ (b'0' < get_or digits 0 0)

-- The parameters as a JSON value: an object or an array is taken as it is, anything else becomes the
-- elements of an array; `text` is what there is of them without the line break at their end.
pub data IsValue (text : Bytes) : Bytes → Bytes → Type 0 where
  structured : (d : ℕ) (params : Bytes) → (d ≡ b'{') ⊎ (d ≡ b'[') → IsValue text (d ∷ params) text
  elements :
      (d : ℕ) (params : Bytes)
      → d ≢ b'{'
      → d ≢ b'['
      → IsValue text (d ∷ params) (b'[' ∷ (text ++ b']' ∷ []))

abbrev pub opening : Bool → Bytes
opening true = codes "{\"id\":"
opening false = codes "{\"jsonrpc\":\"2.0\",\"id\":"

-- The request for a method and its parameters, on a line of its own.
pub record IsRequest (omit_jsonrpc : Bool) (id : ℕ) (method params out : Bytes) : Type 0 where
  pub digits : Bytes
  pub text : Bytes
  pub ending : Bytes
  pub inside : Bytes
  pub identifier : IsNumeral id digits
  pub whole : text ++ ending ≡ params
  pub ends : IsEnding text ending
  pub parameters : IsValue text params inside
  pub format :
      out
      ≡ opening omit_jsonrpc
        ++ (digits
            ++ (codes ", \"method\":\""
                ++ (method ++ (codes "\", \"params\":" ++ (inside ++ (b'}' ∷ b'\n' ∷ []))))))

abbrev pub ten_to : ℕ → ℕ
ten_to zero = 1
ten_to (suc f) = 10 * ten_to f

value-decimal :
    (f n : ℕ) (digits : Bytes) → n < ten_to f → value 0 (decimal f n digits) ≡ value n digits
unfolding decimal
value-decimal zero n digits lt = ap (λ z. value z digits) (omega arith)
value-decimal (suc f) n digits lt = elim (Bool-cases (ltb n 10)) [
  | inl one ↦ rw (one, decimal) (ap (λ z. value z digits) (omega arith))
  | inr more ↦
      rw (more, decimal)
        (value-decimal f (n / 10) ((b'0' + n % 10) ∷ digits) (omega arith)
          ∙ ap (λ z. value z digits) (omega arith))
]

decimal-IsDigit : (f n : ℕ) (digits : Bytes) → All IsDigit digits → All IsDigit (decimal f n digits)
unfolding decimal
decimal-IsDigit zero n digits all = all
decimal-IsDigit (suc f) n digits all = elim (Bool-cases (ltb n 10)) [
  | inl one ↦ rw (one, decimal) (omega (arith, ltb→lt n 10 one), all)
  | inr more ↦
      rw (more, decimal) (decimal-IsDigit f (n / 10) ((b'0' + n % 10) ∷ digits) (omega arith, all))
]

decimal-lead :
    (f n : ℕ) (digits : Bytes) → 0 < n → n < ten_to f → b'0' < get_or (decimal f n digits) 0 0
unfolding decimal
decimal-lead zero n digits some lt = absurd (omega arith)
decimal-lead (suc f) n digits some lt = elim (Bool-cases (ltb n 10)) [
  | inl one ↦ rw (one, decimal) (omega arith)
  | inr more ↦
      rw (more, decimal)
        (decimal-lead f (n / 10) ((b'0' + n % 10) ∷ digits) (omega (arith, ltb→ge n 10 more))
          (omega arith))
]

zero-or-more : (n : ℕ) → (n ≡ 0) ⊎ (0 < n)
zero-or-more zero = inl refl
zero-or-more (suc n) = inr (omega arith)

-- The identifier of a request is written in decimal, if it is a `u64`.
decimal-IsNumeral : (id : ℕ) → id < id_modulus → IsNumeral id (decimal 20 id [])
unfolding decimal
decimal-IsNumeral id lt = record {
  numeral = decimal-IsDigit 20 id [] tt;
  worth = value-decimal 20 id [] (omega arith);
  lead = elim (zero-or-more id) [
    | inl none ↦ inl (none, ap (λ n. decimal 20 n []) none)
    | inr some ↦ inr (decimal-lead 20 id [] some (omega arith))
  ];
}

without_last-cases :
    (c : ℕ) (xs : Bytes)
    → ((without_last c xs ≡ xs) × (ends_with c xs ≡ false)) ⊎ (without_last c xs ++ c ∷ [] ≡ xs)
unfolding without_last
without_last-cases c [] = inl (refl, refl)
without_last-cases c (x ∷ []) = elim (Bool-cases (x == c)) [
  | inl same ↦ inr (rw same (ap (λ z. z ∷ []) (sym ((==_iff x c).0 same))))
  | inr differs ↦ inl (rw differs refl, differs)
]
without_last-cases c (x ∷ (y ∷ ys)) = elim (without_last-cases c (y ∷ ys)) [
  | inl (same, kept) ↦ inl (ap (◌∷◌ x) same, kept)
  | inr off ↦ inr (ap (◌∷◌ x) off)
]

abbrev chomped : Bytes → Bytes
unfolding without_last
chomped params = without_last b'\r' (without_last b'\n' params)

chomped-IsEnding :
    (params : Bytes)
    → (ending : Bytes) × IsEnding (chomped params) ending × (chomped params ++ ending ≡ params)
unfolding without_last
chomped-IsEnding params =
    let p = without_last b'\n' params in
    elim (without_last-cases b'\n' params) [
      | inl (same, no_newline) ↦ elim (without_last-cases b'\r' p) [
        | inl (same', no_return) ↦
            let kept = same' ∙ same in
            (
              [],
              no_break (ap (ends_with b'\n') kept ∙ no_newline)
                  (ap (ends_with b'\r') same' ∙ no_return),
              append-nil (chomped params) ∙ kept,
            )
        | inr off ↦ (b'\r' ∷ [], carriage_return, off ∙ same)
      ]
      | inr newline_off ↦ elim (without_last-cases b'\r' p) [
        | inl (same', no_return) ↦ (
          b'\n' ∷ [],
          newline (ap (ends_with b'\r') same' ∙ no_return),
          ap (λ z. z ++ b'\n' ∷ []) same' ∙ newline_off,
        )
        | inr off ↦ (
          b'\r' ∷ b'\n' ∷ [],
          both_breaks,
          sym (append_assoc (chomped params) (b'\r' ∷ []) (b'\n' ∷ []))
              ∙ ap (λ z. z ++ b'\n' ∷ []) off
              ∙ newline_off,
        )
      ]
    ]

differs : (a b : ℕ) → (a == b) ≡ false → a ≢ b
differs a b e = λ same. ground (arith, (==_iff a b).1 same)

bracketed-IsValue :
    (d : ℕ) (params : Bytes) → IsValue (chomped (d ∷ params)) (d ∷ params) (bracketed (d ∷ params))
unfolding bracketed needs_brackets without_last
bracketed-IsValue d params = elim (Bool-cases (d == b'{')) [
  | inl brace ↦ rw brace (structured d params (inl ((==_iff d b'{').0 brace)))
  | inr no_brace ↦ elim (Bool-cases (d == b'[')) [
    | inl bracket ↦ rw (no_brace, bracket) (structured d params (inr ((==_iff d b'[').0 bracket)))
    | inr no_bracket ↦
        rw (no_brace, no_bracket)
          (elements d params (differs d b'{' no_brace) (differs d b'[' no_bracket))
  ]
]

request-format :
    (omit : Bool) (id : ℕ) (method params : Bytes)
    → request omit id (method, params)
      ≡ opening omit
        ++ (decimal 20 id []
            ++ (codes ", \"method\":\""
                ++ (method
                    ++ (codes "\", \"params\":" ++ (bracketed params ++ (b'}' ∷ b'\n' ∷ []))))))
unfolding request
request-format true id method params = refl
request-format false id method params = refl

pub request-IsRequest :
    (omit : Bool) (id : ℕ) (method params : Bytes) (d : ℕ)
    → id < id_modulus
    → IsRequest omit id method (d ∷ params) (request omit id (method, d ∷ params))
unfolding request
request-IsRequest omit id method params d lt =
    let (ending, ends, whole) = chomped-IsEnding (d ∷ params) in
    record {
      digits = decimal 20 id [];
      text = chomped (d ∷ params);
      ending = ending;
      inside = bracketed (d ∷ params);
      identifier = decimal-IsNumeral id lt;
      whole = whole;
      ends = ends;
      parameters = bracketed-IsValue d params;
      format = request-format omit id method (d ∷ params);
    }
