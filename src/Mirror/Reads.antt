-- ===== src/Mirror/Reads.antt =====
-- Reading on, with one buffer, until a read of `mirror:` or `literalreply:` fails.
use websocat.Base.{
  ℕ, suc, zero, ◌+◌, ◌<◌, ◌≡◌, ◌≢◌, inl, inr, refl, ap, ◌∙◌, Option, none, some, List, [], ◌∷◌,
  ◌++◌, arith, length, take, drop, Bytes, ok, err, would_block, returns, panics, Option-cases,
}
use websocat.ReadDebt.{drop_message, ZeroMessagesHandling, ReadDebt, IsValid}
use websocat.ReadDebt.Delivery.{
  share, remainder, owed, process_message-keeps, check_debt-pays, check_debt-free,
  remainder-IsOwing, IsOwing-some, length-pos,
}
use websocat.Mirror.Pieces.{
  split_owed, split_all, filled, share-pos, length-owed-remainder, length-filled, split-joined,
}
use websocat.Mirror.{ChannelPoll, item, MirrorRead, Read, poll_loop, read_with}

-- A channel that has these items and then is not ready.
abbrev pub items {ℓ} : {A : Type ℓ} → List A → List (ChannelPoll A)
items [] = []
items (x ∷ xs) = item x ∷ items xs

module _ {ℓ} {A : Type ℓ} (bytes : A → Bytes) where
  -- Reads until one fails, with one buffer; `none` when the fuel runs out or a call panics.
  unfoldable pub receive : ℕ → MirrorRead A → Bytes → Option (List Bytes)
  receive zero m buf = none
  receive (suc f) m buf = elim (read_with bytes m buf) [
    | panics ↦ none
    | returns r ↦ elim r.result [
      | err _ ↦ some []
      | ok n ↦ elim (receive f r.after r.buf) [
        | none ↦ none
        | some rest ↦ some (take n r.buf ∷ rest)
      ]
    ]
  ]

  read_with-debt :
      (r : ReadDebt) (polls : List (ChannelPoll A)) (buf d : Bytes)
      → r.debt ≡ some d
      → IsValid r
      → 0 < length buf
      → read_with bytes (record { debt = r; ch = polls }) buf
        ≡ returns (record {
          after = record { debt = record r { debt = remainder (share buf d) d }; ch = polls };
          buf = take (share buf d) d ++ drop (share buf d) buf;
          result = ok (share buf d);
        })
  unfolding read_with
  read_with-debt r polls buf d e v pos = ground (arith, check_debt-pays r buf d e v pos)

  read_with-item :
      (r : ReadDebt) (x : A) (polls : List (ChannelPoll A)) (buf : Bytes)
      → r.debt ≡ none
      → r.handling ≢ drop_message
      → r.zero_messages ≡ ZeroMessagesHandling.deliver
      → read_with bytes (record { debt = r; ch = item x ∷ polls }) buf
        ≡ returns (record {
          after = record {
            debt = record r { debt = remainder (share buf (bytes x)) (bytes x) };
            ch = polls;
          };
          buf = take (share buf (bytes x)) (bytes x) ++ drop (share buf (bytes x)) buf;
          result = ok (share buf (bytes x));
        })
  unfolding read_with poll_loop
  read_with-item r x polls buf d k z =
      ground (arith, check_debt-free r buf d, process_message-keeps r buf (bytes x) d k z)

  read_with-end :
      (r : ReadDebt) (buf : Bytes)
      → r.debt ≡ none
      → read_with bytes (record { debt = r; ch = [] }) buf
        ≡ returns
            (record { after = record { debt = r; ch = [] }; buf = buf; result = err would_block })
  unfolding read_with poll_loop
  read_with-end r buf d = ground (arith, check_debt-free r buf d)

  -- Enough fuel: one read for each byte and for each message.
  abbrev pub work : List A → ℕ
  work [] = 0
  work (x ∷ xs) = length (bytes x) + 1 + work xs

  abbrev pub payloads : List A → List Bytes
  payloads [] = []
  payloads (x ∷ xs) = bytes x ∷ payloads xs

  pub receive-step :
      (f n : ℕ) (m : MirrorRead A) (buf : Bytes) (r : Read A) (rest : List Bytes)
      → read_with bytes m buf ≡ returns r
      → r.result ≡ ok n
      → receive f r.after r.buf ≡ some rest
      → receive (suc f) m buf ≡ some (take n r.buf ∷ rest)
  unfolding receive
  receive-step f n m buf r rest e en er = ground arith

  owing_work :
      (f : ℕ) (buf d : Bytes) (o : Option Bytes) (xs : List A)
      → o ≡ some d
      → d ≢ []
      → 0 < length buf
      → length (owed o) + work xs < suc f
      → length (owed (remainder (share buf d) d)) + work xs < f
  owing_work f buf d o xs e ne pos w =
      let some_bytes = length-pos d ne in
      let bound : length d + work xs < suc f = rw e at w in
      omega (arith, length-owed-remainder (share buf d) d, share-pos buf d pos some_bytes)

  pub receive-end :
      (f : ℕ) (r : ReadDebt) (buf : Bytes)
      → r.debt ≡ none
      → receive (suc f) (record { debt = r; ch = [] }) buf ≡ some []
  unfolding receive
  receive-end f r buf d = ground (arith, read_with-end r buf d)

  -- What `receive` returns from this state, for any further items.
  abbrev Receives : ℕ → ReadDebt → List A → Bytes → Type 0
  Receives f r xs buf =
      receive f (record { debt = r; ch = items xs }) buf
      ≡ some (split_owed (length buf) r.debt ++ split_all (length buf) (payloads xs))

  receive-debt :
      (f : ℕ) (r : ReadDebt) (d : Bytes) (xs : List A) (buf : Bytes)
      → r.debt ≡ some d
      → IsValid r
      → 0 < length buf
      → Receives f (record r { debt = remainder (share buf d) d }) xs (filled buf d)
      → Receives (suc f) r xs buf
  receive-debt f r d xs buf debt v pos ih =
      receive-step f _ _ buf _ _ (read_with-debt r (items xs) buf d debt v pos) refl ih
      ∙ rw (debt, length-filled buf d) (ap some (split-joined buf d _ pos))

  receive-item :
      (f : ℕ) (r : ReadDebt) (x : A) (xs : List A) (buf : Bytes)
      → r.debt ≡ none
      → r.handling ≢ drop_message
      → r.zero_messages ≡ ZeroMessagesHandling.deliver
      → 0 < length buf
      → Receives f
          (record r { debt = remainder (share buf (bytes x)) (bytes x) })
          xs
          (filled buf (bytes x))
      → Receives (suc f) r (x ∷ xs) buf
  receive-item f r x xs buf free k z pos ih =
      receive-step f _ _ buf _ _ (read_with-item r x (items xs) buf free k z) refl ih
      ∙ rw (free, length-filled buf (bytes x)) (ap some (split-joined buf (bytes x) _ pos))

  pub receive-items :
      (f : ℕ) (r : ReadDebt) (xs : List A) (buf : Bytes)
      → IsValid r
      → r.handling ≢ drop_message
      → r.zero_messages ≡ ZeroMessagesHandling.deliver
      → 0 < length buf
      → length (owed r.debt) + work xs < f
      → Receives f r xs buf
  receive-items zero r xs buf v k z pos w = absurd (omega arith)
  receive-items (suc f) r [] buf v k z pos w = elim (Option-cases r.debt) [
    | inl free ↦ receive-end f r buf free ∙ rw free
    | inr (d, debt) ↦ receive-debt f r d [] buf debt v pos (
        receive-items f (record r { debt = remainder (share buf d) d }) [] (filled buf d)
          (remainder-IsOwing (share buf d) d r.handling k) k z (rw (length-filled buf d) pos)
          (owing_work f buf d r.debt [] debt (IsOwing-some d v debt).0 pos w))
  ]
  receive-items (suc f) r (x ∷ xs) buf v k z pos w = elim (Option-cases r.debt) [
    | inl free ↦ receive-item f r x xs buf free k z pos (
        receive-items f (record r { debt = remainder (share buf (bytes x)) (bytes x) }) xs
          (filled buf (bytes x)) (remainder-IsOwing (share buf (bytes x)) (bytes x) r.handling k) k
          z (rw (length-filled buf (bytes x)) pos)
          (omega (arith, length-owed-remainder (share buf (bytes x)) (bytes x))))
    | inr (d, debt) ↦ receive-debt f r d (x ∷ xs) buf debt v pos (
        receive-items f (record r { debt = remainder (share buf d) d }) (x ∷ xs) (filled buf d)
          (remainder-IsOwing (share buf d) d r.handling k) k z (rw (length-filled buf d) pos)
          (owing_work f buf d r.debt (x ∷ xs) debt (IsOwing-some d v debt).0 pos w))
  ]
