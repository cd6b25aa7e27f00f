-- ===== src/Line/Packets.antt =====
-- `Packet2LineWrapper` makes one line of each message.
use websocat.Base.{
  ends_with, IsEnding, no_break, newline, carriage_return, both_breaks, ℕ, suc, zero, ◌<◌, ◌≤◌, ◌≡◌,
  ◌⊎◌, inl, inr, refl, sym, ap, ◌∙◌, true, false, ◌||◌, [], ◌∷◌, ◌++◌, map, arith, ◌==◌,
  if◌then◌else◌, length, take, drop, get_or, length-append, length-take, take-append-drop, Bytes,
  ok, returns, Bool-cases, lt→ltb, ==_iff, drop-all, subst, if-true, if-false, take-append_le,
  drop-get_or,
}
use websocat.Line.Framed.{chomp-le}
use websocat.Line.{
  Script, LineRead, Packet2LineWrapper, chomp, set, replace_newlines, newline_terminated,
  zero_terminated, packet_step, packet_read,
}

-- A line break within a message becomes a space.
abbrev pub blank : ℕ → ℕ
blank c = if c == b'\n' || c == b'\r' then b' ' else c

-- The line that is made of message `m`.
pub record IsLineOf (m : Bytes) (r : LineRead Packet2LineWrapper) : Type 0 where
  pub text : Bytes
  pub ending : Bytes
  pub whole : text ++ ending ≡ m
  pub ends : IsEnding text ending
  pub result : r.result ≡ ok (suc (length text))
  pub line : take (suc (length text)) r.buf ≡ map blank text ++ b'\n' ∷ []

ends_with-take :
    (c n : ℕ) (m ys : Bytes)
    → n < length m
    → ends_with c (take (suc n) m) ≡ (get_or (m ++ ys) n 0 == c)
ends_with-take c n [] ys lt = absurd (omega arith)
ends_with-take c zero (x ∷ m) ys lt = refl
ends_with-take c (suc n) (x ∷ []) ys lt = absurd (omega arith)
ends_with-take c (suc n) (x ∷ (y ∷ m)) ys lt = ends_with-take c n (y ∷ m) ys (omega arith)

chomp-cases :
    (c : ℕ) (m ys : Bytes) (n : ℕ)
    → n ≤ length m
    → ((chomp c (m ++ ys) n ≡ n) × (ends_with c (take n m) ≡ false))
      ⊎ ((suc (chomp c (m ++ ys) n) ≡ n) × (drop (chomp c (m ++ ys) n) m ≡ c ∷ drop n m))
chomp-cases c m ys zero le = inl (refl, refl)
chomp-cases c m ys (suc n) le = elim (Bool-cases (get_or (m ++ ys) n 0 == c)) [
  | inl same ↦ inr (
    ap suc (if-true _ _ same),
    ap (λ k. drop k m) (if-true _ _ same)
        ∙ drop-get_or n m ys 0 (omega arith)
        ∙ ap (λ z. z ∷ drop (suc n) m) ((==_iff _ c).0 same),
  )
  | inr differs ↦ inl (if-false _ _ differs, ends_with-take c n m ys (omega arith) ∙ differs)
]

take-replace_newlines : (n : ℕ) (b : Bytes) → take n (replace_newlines n b) ≡ map blank (take n b)
unfolding replace_newlines
take-replace_newlines zero b = refl
take-replace_newlines (suc n) [] = refl
take-replace_newlines (suc n) (c ∷ b) = ap (◌∷◌ (blank c)) (take-replace_newlines n b)

take-set : (n c : ℕ) (b : Bytes) → n ≤ length b → take (suc n) (set n c b) ≡ take n b ++ c ∷ []
take-set zero c b le = refl
take-set (suc n) c [] le = absurd (omega arith)
take-set (suc n) c (x ∷ b) le = ap (◌∷◌ x) (take-set n c b (omega arith))

length-replace_newlines : (n : ℕ) (b : Bytes) → length (replace_newlines n b) ≡ length b
unfolding replace_newlines
length-replace_newlines zero b = refl
length-replace_newlines (suc n) [] = refl
length-replace_newlines (suc n) (c ∷ b) = ap suc (length-replace_newlines n b)

-- Where the line of message `m` ends.
abbrev text_length : Bytes → Bytes → ℕ
text_length m ys = chomp b'\r' (m ++ ys) (chomp b'\n' (m ++ ys) (length m))

text_length-le : (m ys : Bytes) → text_length m ys ≤ length m
text_length-le m ys =
    let inner = chomp b'\n' (m ++ ys) (length m) in
    omega (arith, chomp-le b'\n' (m ++ ys) (length m), chomp-le b'\r' (m ++ ys) inner)

-- What `chomp` leaves of an ending.
text_length-ends : (m ys : Bytes) → IsEnding (take (text_length m ys) m) (drop (text_length m ys) m)
text_length-ends m ys =
    let n = length m in
    let k = chomp b'\n' (m ++ ys) n in
    let done_all = drop-all n m (omega arith) in
    let outer = chomp-cases b'\r' m ys k (chomp-le b'\n' (m ++ ys) n) in
    elim (chomp-cases b'\n' m ys n (omega arith)) [
      | inl (same, whole) ↦
          let nothing_yet = ap (λ i. drop i m) same ∙ done_all in
          let no_newline = subst (λ i. ends_with b'\n' (take i m) ≡ false) (sym same) whole in
          elim outer [
            | inl (same', no_return) ↦
                subst (λ i. IsEnding (take i m) (drop i m)) (sym same')
                  (subst (IsEnding (take k m)) (sym nothing_yet) (no_break no_newline no_return))
            | inr (less, return) ↦
                subst (IsEnding (take (text_length m ys) m))
                  (sym (return ∙ ap (◌∷◌ b'\r') nothing_yet)) carriage_return
          ]
      | inr (less, break) ↦
          let one_break = break ∙ ap (◌∷◌ b'\n') done_all in
          elim outer [
            | inl (same', no_return) ↦
                subst (λ i. IsEnding (take i m) (drop i m)) (sym same')
                  (subst (IsEnding (take k m)) (sym one_break) (newline no_return))
            | inr (less', return) ↦
                subst (IsEnding (take (text_length m ys) m))
                  (sym (return ∙ ap (◌∷◌ b'\r') one_break)) both_breaks
          ]
    ]

length-take_text : (m ys : Bytes) → length (take (text_length m ys) m) ≡ text_length m ys
length-take_text m ys = omega (arith, length-take (text_length m ys) m, text_length-le m ys)

newline_terminated-line :
    (m ys : Bytes)
    → take (suc (text_length m ys)) (newline_terminated (m ++ ys) (length m)).0
      ≡ map blank (take (text_length m ys) m) ++ b'\n' ∷ []
unfolding newline_terminated
newline_terminated-line m ys =
    let n = text_length m ys in
    take-set n b'\n' (replace_newlines n (m ++ ys))
      (omega (arith, length-replace_newlines n (m ++ ys), length-append m ys, text_length-le m ys))
    ∙ ap (λ z. z ++ b'\n' ∷ [])
        (take-replace_newlines n (m ++ ys)
          ∙ ap (map blank) (take-append_le n m ys (text_length-le m ys)))

-- A message shorter than the buffer is made one line: the line break at its end, if it has one (a line feed, a carriage
-- return, or both), is taken off, every newline and carriage return before it becomes a space, and one
-- newline ends it.
pub packet_read-IsLineOf :
    (c : ℕ) (x buf : Bytes) (rs : Script)
    → suc (length x) < length buf
    → (r : LineRead Packet2LineWrapper) × (packet_read
          (record { inner = ok (c ∷ x) ∷ rs; null_terminated = false })
          buf
        ≡ returns r)
      × IsLineOf (c ∷ x) r
unfolding packet_read packet_step newline_terminated
packet_read-IsLineOf c x buf rs fits =
    let m = c ∷ x in
    let ys = drop (length m) buf in
    let text = take (text_length m ys) m in
    let n = length-take_text m ys in
    (
      packet_step false (ok m ∷ rs) buf,
      if-true _ _ (lt→ltb 1 (length buf) (omega arith)),
      record {
        text = text;
        ending = drop (text_length m ys) m;
        whole = take-append-drop (text_length m ys) m;
        ends = text_length-ends m ys;
        result = ap (λ k. ok (suc k)) (sym n);
        line =
            ap (λ k. take (suc k) (newline_terminated (m ++ ys) (length m)).0) n
            ∙ newline_terminated-line m ys;
      },
    )

-- With zero bytes for terminators: the message as it is, but for one zero byte at its end, and one
-- zero byte after it.
pub packet_read-zero :
    (c : ℕ) (x buf : Bytes) (rs : Script)
    → suc (length x) < length buf
    → (r : LineRead Packet2LineWrapper) × (text ending : Bytes) × (packet_read
          (record { inner = ok (c ∷ x) ∷ rs; null_terminated = true })
          buf
        ≡ returns r)
      × (text ++ ending ≡ c ∷ x)
      × ((ending ≡ []) ⊎ (ending ≡ 0 ∷ []))
      × (r.result ≡ ok (suc (length text)))
      × (take (suc (length text)) r.buf ≡ text ++ 0 ∷ [])
unfolding packet_read packet_step zero_terminated
packet_read-zero c x buf rs fits =
    let m = c ∷ x in
    let ys = drop (length m) buf in
    let n = chomp 0 (m ++ ys) (length m) in
    let le = chomp-le 0 (m ++ ys) (length m) in
    let text_n : length (take n m) ≡ n = omega (arith, length-take n m) in
    (
      packet_step true (ok m ∷ rs) buf,
      take n m,
      drop n m,
      if-true _ _ (lt→ltb 1 (length buf) (omega arith)),
      take-append-drop n m,
      elim (chomp-cases 0 m ys (length m) (omega arith)) [
        | inl (same, whole) ↦ inl (ap (λ i. drop i m) same ∙ drop-all (length m) m (omega arith))
        | inr (less, zero_byte) ↦ inr (zero_byte ∙ ap (◌∷◌ 0) (drop-all (length m) m (omega arith)))
      ],
      ap (λ k. ok (suc k)) (sym text_n),
      ap (λ k. take (suc k) (set n 0 (m ++ ys))) text_n
          ∙ take-set n 0 (m ++ ys) (omega (arith, length-append m ys))
          ∙ ap (λ z. z ++ 0 ∷ []) (take-append_le n m ys le),
    )
