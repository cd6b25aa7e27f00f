-- ===== src/Mirror/Delivery.antt =====
-- What a reader of `mirror:` or `literalreply:` receives until its channel has nothing more.
use websocat.Base.{
  replicate, ℕ, suc, zero, ◌<◌, ◌≡◌, ◌≢◌, inl, inr, refl, ap, ◌∙◌, true, false, none, some, List,
  [], ◌∷◌, arith, ltb, if◌then◌else◌, length, take, Bytes, ok, returns, Bool-cases, take-all,
  take-take_append,
}
use websocat.ReadDebt.{
  DebtHandling, silent, drop_message, ZeroMessagesHandling, ReadDebt, process_message, nothing,
}
use websocat.ReadDebt.Delivery.{check_debt-free}
use websocat.Mirror.Pieces.{split_all, filled, length-filled}
use websocat.Mirror.{
  ChannelPoll, item, poll_loop, read_with, get_mirror_peer, get_literal_reply_peer,
}
use websocat.Mirror.Reads.{items, work, payloads, receive, receive-items, receive-end, receive-step}

payloads-id : (msgs : List Bytes) → payloads (λ m. m) msgs ≡ msgs
payloads-id [] = refl
payloads-id (m ∷ msgs) = ap (◌∷◌ m) (payloads-id msgs)

-- Unless `mirror:` drops too long messages, its reader receives each message written, in order, cut
-- into pieces of the buffer's length; with the fuel given it neither panics nor stops short.
pub receive-mirror :
    (handling : DebtHandling) (msgs : List Bytes) (buf : Bytes) (f : ℕ)
    → handling ≢ drop_message
    → 0 < length buf
    → work (λ m. m) msgs < f
    → receive (λ m. m) f (get_mirror_peer handling (items msgs)) buf
      ≡ some (split_all (length buf) msgs)
unfolding get_mirror_peer
receive-mirror handling msgs buf f k pos w =
    receive-items (λ m. m) f
      (record { debt = none; handling = handling; zero_messages = ZeroMessagesHandling.deliver })
      msgs buf nothing k refl pos (omega arith)
    ∙ rw (payloads-id msgs)

payloads-replies :
    (content : Bytes) (written : List (Unit {0}))
    → payloads (λ _. content) written ≡ replicate (length written) content
payloads-replies content [] = refl
payloads-replies content (u ∷ written) = ap (◌∷◌ content) (payloads-replies content written)

-- Whoever reads from `literalreply:` receives the reply once for each message written, each time cut
-- into pieces of the buffer's length.
pub receive-literal_reply :
    (content : Bytes) (written : List (Unit {0})) (buf : Bytes) (f : ℕ)
    → 0 < length buf
    → work (λ _. content) written < f
    → receive (λ _. content) f (get_literal_reply_peer (items written)) buf
      ≡ some (split_all (length buf) (replicate (length written) content))
unfolding get_literal_reply_peer
receive-literal_reply content written buf f pos w =
    receive-items (λ _. content) f
      (record { debt = none; handling = silent; zero_messages = ZeroMessagesHandling.deliver })
      written buf nothing (λ e. cc) refl pos (omega arith)
    ∙ rw (payloads-replies content written)

-- The messages that a buffer of `cap` bytes can hold.
abbrev pub fitting : ℕ → List Bytes → List Bytes
fitting cap [] = []
fitting cap (m ∷ ms) = if ltb cap (length m) then fitting cap ms else m ∷ fitting cap ms

read_with-skip :
    (r : ReadDebt) (m : Bytes) (polls : List (ChannelPoll Bytes)) (buf : Bytes)
    → r.debt ≡ none
    → r.handling ≡ drop_message
    → ltb (length buf) (length m) ≡ true
    → read_with (λ m. m) (record { debt = r; ch = item m ∷ polls }) buf
      ≡ read_with (λ m. m) (record { debt = r; ch = polls }) buf
unfolding read_with poll_loop process_message
read_with-skip r m polls buf free k over = ground (arith, check_debt-free r buf free)

read_with-fits :
    (r : ReadDebt) (m : Bytes) (polls : List (ChannelPoll Bytes)) (buf : Bytes)
    → r.debt ≡ none
    → r.handling ≡ drop_message
    → r.zero_messages ≡ ZeroMessagesHandling.deliver
    → ltb (length buf) (length m) ≡ false
    → read_with (λ m. m) (record { debt = r; ch = item m ∷ polls }) buf
      ≡ returns (record {
        after = record { debt = r; ch = polls };
        buf = filled buf m;
        result = ok (length m);
      })
unfolding read_with poll_loop process_message
read_with-fits r m polls buf free k z fits = ground (arith, check_debt-free r buf free)

receive-skip :
    (f : ℕ) (r : ReadDebt) (m : Bytes) (ms : List Bytes) (buf : Bytes)
    → r.debt ≡ none
    → r.handling ≡ drop_message
    → ltb (length buf) (length m) ≡ true
    → receive (λ m. m) (suc f) (record { debt = r; ch = items (m ∷ ms) }) buf
      ≡ receive (λ m. m) (suc f) (record { debt = r; ch = items ms }) buf
unfolding receive
receive-skip f r m ms buf free k over =
    ground (arith, read_with-skip r m (items ms) buf free k over)

take-filled :
    (buf m : Bytes) → ltb (length buf) (length m) ≡ false → take (length m) (filled buf m) ≡ m
take-filled buf m fits =
    rw fits (take-take_append (length m) m _ (omega arith) ∙ take-all (length m) m (omega arith))

receive-fitting :
    (msgs : List Bytes) (f : ℕ) (r : ReadDebt) (buf : Bytes)
    → r.debt ≡ none
    → r.handling ≡ drop_message
    → r.zero_messages ≡ ZeroMessagesHandling.deliver
    → length msgs < f
    → receive (λ m. m) f (record { debt = r; ch = items msgs }) buf
      ≡ some (fitting (length buf) msgs)
receive-fitting msgs zero r buf free k z w = absurd (omega arith)
receive-fitting [] (suc f) r buf free k z w = receive-end (λ m. m) f r buf free
receive-fitting (m ∷ ms) (suc f) r buf free k z w =
    elim (Bool-cases (ltb (length buf) (length m))) [
      | inl over ↦
          receive-skip f r m ms buf free k over
          ∙ receive-fitting ms (suc f) r buf free k z (omega arith)
          ∙ rw over
      | inr fits ↦
          receive-step (λ m. m) f _ _ buf _ _ (read_with-fits r m (items ms) buf free k z fits) refl
            (receive-fitting ms f r (filled buf m) free k z (omega arith))
          ∙ rw (length-filled buf m, take-filled buf m fits, fits)
    ]

-- With `drop_message` the reader receives, in order and each in one read, exactly the messages
-- that its buffer can hold.
pub receive-mirror_dropping :
    (msgs : List Bytes) (buf : Bytes) (f : ℕ)
    → length msgs < f
    → receive (λ m. m) f (get_mirror_peer drop_message (items msgs)) buf
      ≡ some (fitting (length buf) msgs)
unfolding get_mirror_peer
receive-mirror_dropping msgs buf f w = receive-fitting msgs f _ buf refl refl refl w
