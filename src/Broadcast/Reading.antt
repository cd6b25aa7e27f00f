-- ===== src/Broadcast/Reading.antt =====
-- What a client of `broadcast:` reads.
use websocat.Base.{
  ℕ, suc, zero, ◌<◌, ◌≤◌, ◌≡◌, refl, ◌∙◌, ◌⊎◌, inl, inr, some, List, [], ◌∷◌, ◌++◌, Bytes, ok, err,
  ErrorKind, would_block, if◌then◌else◌, ltb, length, All, ge→ltb, lt→ltb, arith,
}
use websocat.Broadcast.{message, Mpsc, broadcast_read}
use websocat.Broadcast.Channels.{MpscLaws}

-- They do not fit the buffer.
abbrev pub AreTooLong : ℕ → List Bytes → Type 0
AreTooLong size ms = All (λ m. size < length m) ms

module _ {C : Type 0} (mpsc : Mpsc C) where
  message_turn :
      (fuel size : ℕ) (m : Bytes) (c : C)
      → (mpsc.poll c).1 ≡ message m
      → broadcast_read mpsc (suc fuel) size c ≡ (
          if ltb size (length m)
          then broadcast_read mpsc fuel size (mpsc.poll c).0
          else some ((mpsc.poll c).0, m, ok (length m)))
  unfolding broadcast_read
  message_turn fuel size m c e = rw (e, broadcast_read)

  -- A read with fuel for one round more than there are too long messages in front drops these, and gives
  -- the first message that fits the buffer, whole; what is behind it stays in the channel.
  pub broadcast_read-first :
      (laws : MpscLaws mpsc) (fuel size : ℕ) (skipped rest : List Bytes) (m : Bytes) (c : C)
      → laws.contents c ≡ skipped ++ m ∷ rest
      → AreTooLong size skipped
      → length m ≤ size
      → length skipped < fuel
      → (d : C) × (broadcast_read mpsc fuel size c ≡ some (d, m, ok (length m)))
        × (laws.contents d ≡ rest)
  broadcast_read-first laws zero size skipped rest m c holds long fits lt = absurd (omega arith)
  broadcast_read-first laws (suc fuel) size [] rest m c holds long fits lt =
      let (gives, left) = laws.polls m rest c holds in
      (_, message_turn fuel size m c gives ∙ rw (ge→ltb size (length m) fits), left)
  broadcast_read-first laws (suc fuel) size (x ∷ skipped) rest m c holds long fits lt =
      let (gives, left) = laws.polls x (skipped ++ m ∷ rest) c holds in
      let (d, e, contents) =
        broadcast_read-first laws fuel size skipped rest m (mpsc.poll c).0 left long.1 fits
          (omega arith) in
      (d, message_turn fuel size x c gives ∙ rw (lt→ltb size (length x) long.0, e), contents)

  -- If no message in the channel fits the buffer, a read with the same fuel drops them all, and fails with
  -- a broken pipe, or because it would block.
  pub broadcast_read-none :
      (laws : MpscLaws mpsc) (fuel size : ℕ) (skipped : List Bytes) (c : C)
      → laws.contents c ≡ skipped
      → AreTooLong size skipped
      → length skipped < fuel
      → (d : C) × (e : ErrorKind) × (broadcast_read mpsc fuel size c ≡ some (d, [], err e))
        × (laws.contents d ≡ [])
        × ((e ≡ ErrorKind.broken_pipe) ⊎ (e ≡ would_block))
  unfolding broadcast_read
  broadcast_read-none laws zero size skipped c holds long lt = absurd (omega arith)
  broadcast_read-none laws (suc fuel) size [] c holds long lt =
      let (gives, left) = laws.polls-empty c holds in
      elim gives [
        | inl ended ↦
            ((mpsc.poll c).0, ErrorKind.broken_pipe, rw (ended, broadcast_read), left, inl refl)
        | inr waits ↦ ((mpsc.poll c).0, would_block, rw (waits, broadcast_read), left, inr refl)
      ]
  broadcast_read-none laws (suc fuel) size (x ∷ skipped) c holds long lt =
      let (gives, left) = laws.polls x skipped c holds in
      let (d, e, reads, left_over, which) =
        broadcast_read-none laws fuel size skipped (mpsc.poll c).0 left long.1 (omega arith) in
      (
        d,
        e,
        message_turn fuel size x c gives ∙ rw (lt→ltb size (length x) long.0, reads),
        left_over,
        which,
      )
