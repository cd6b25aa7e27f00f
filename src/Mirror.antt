-- ===== src/Mirror.antt =====
-- mirror_peer.rs: the readers of `mirror:` and `literalreply:`. The channel between the two halves of
-- the peer is `futures::sync::mpsc`; a reader sees it as the results of its successive polls.
pub mod Pieces
pub mod Reads
pub mod Delivery
mod Tests
use websocat.Base.{
  ℕ, suc, zero, ◌+◌, ◌-◌, ◌<◌, ◌≤◌, ◌≡◌, ◌≢◌, ◌⊎◌, inl, inr, refl, sym, ap, ◌∙◌, Bool, true, false,
  not, ◌&&◌, ◌||◌, Option, none, some, List, [], ◌∷◌, ◌++◌, map, arith, ltb, leb, ◌==◌,
  if◌then◌else◌, length, take, drop, concat, get_or, is_empty, All, length-append, length-take,
  length-drop, take-append-drop, Bytes, codes, IoResult, ok, err, ErrorKind, would_block,
  broken_pipe, write_zero, other, Outcome, returns, panics, Bool-cases, Option-cases, ltb→lt,
  ltb→ge, lt→ltb, ge→ltb, ==_iff, take-all, drop-all, take-append_left, drop-append_left, min,
  append-nil, append_assoc, replicate, subst, ◌↔◌,
}
use websocat.ReadDebt.{
  DebtHandling, silent, ZeroMessagesHandling, ProcessMessageResult, return, recurse, ReadDebt,
  Processed, process_message, check_debt,
}

-- What `Receiver::poll` answers.
pub data ChannelPoll {ℓ} (A : Type ℓ) : Type ℓ where
  item : A → ChannelPoll A
  closed : ChannelPoll A
  not_ready : ChannelPoll A
  failed : ChannelPoll A

-- A reader: its debt, and the answers that its channel's next polls give. With no further answer
-- known the channel is not ready.
pub record MirrorRead {ℓ} (A : Type ℓ) : Type ℓ where
  pub debt : ReadDebt
  pub ch : List (ChannelPoll A)

-- What one `read` leaves: the reader, the caller's buffer, and the result.
pub record Read {ℓ} (A : Type ℓ) : Type ℓ where
  pub after : MirrorRead A
  pub buf : Bytes
  pub result : IoResult ℕ

module _ {ℓ} {A : Type ℓ} where
  -- The `loop`, with the bytes that an item stands for.
  unfoldable pub poll_loop :
      (A → Bytes) → List (ChannelPoll A) → ReadDebt → Bytes → Outcome (Read A)
  poll_loop bytes [] r buf =
      returns (record { after = record { debt = r; ch = [] }; buf = buf; result = err would_block })
  poll_loop bytes (item x ∷ polls) r buf = elim (process_message r buf (bytes x)) [
    | panics ↦ panics
    | returns p ↦ elim p.result [
      | return n ↦
          returns
            (record { after = record { debt = p.after; ch = polls }; buf = p.buf; result = n })
      | recurse ↦ poll_loop bytes polls p.after p.buf
    ]
  ]
  poll_loop bytes (not_ready ∷ polls) r buf =
      returns
        (record { after = record { debt = r; ch = polls }; buf = buf; result = err would_block })
  poll_loop bytes (_ ∷ polls) r buf =
      returns
        (record { after = record { debt = r; ch = polls }; buf = buf; result = err broken_pipe })

  unfoldable pub read_with : (A → Bytes) → MirrorRead A → Bytes → Outcome (Read A)
  unfolding poll_loop
  read_with bytes m buf = elim (check_debt m.debt buf) [
    | panics ↦ panics
    | returns none ↦ poll_loop bytes m.ch m.debt buf
    | returns (some (r, buf', ret)) ↦
        returns (record { after = record m { debt = r }; buf = buf'; result = ret })
  ]

-- `impl Read for MirrorRead`
unfoldable pub mirror_read : MirrorRead Bytes → Bytes → Outcome (Read Bytes)
unfolding read_with
mirror_read = read_with (λ x. x)

-- `impl Read for LiteralReplyRead`
unfoldable pub literal_read : Bytes → MirrorRead (Unit {0}) → Bytes → Outcome (Read (Unit {0}))
unfolding read_with
literal_read content = read_with (λ _. content)

-- The reader of `get_mirror_peer`.
pub get_mirror_peer : DebtHandling → List (ChannelPoll Bytes) → MirrorRead Bytes
get_mirror_peer handling polls = record {
  debt = record { debt = none; handling = handling; zero_messages = ZeroMessagesHandling.deliver };
  ch = polls;
}

-- The reader of `get_literal_reply_peer`.
pub get_literal_reply_peer : List (ChannelPoll (Unit {0})) → MirrorRead (Unit {0})
get_literal_reply_peer polls = record {
  debt = record { debt = none; handling = silent; zero_messages = ZeroMessagesHandling.deliver };
  ch = polls;
}
