-- ===== src/Ws/Stamps.antt =====
-- ws_peer.rs: the time stamp in a pong, seconds and nanoseconds in network byte order.
use websocat.Base.{
  ℕ, zero, suc, ◌+◌, ◌*◌, ◌/◌, ◌%◌, ◌<◌, ◌≡◌, refl, sym, ap, ◌∙◌, true, false, not, Bool, Option,
  none, some, List, [], ◌∷◌, ◌++◌, arith, length, length-append, take, drop, take-append_left,
  drop-append_left, Bytes, panics, Outcome, if◌then◌else◌, ltb,
}
use websocat.ReadDebt.Delivery.{check_debt-free}
use websocat.Ws.{Foreign, message, pong, SourcePoll, WsReadWrapper}
use websocat.Ws.Reading.{
  bad_timestamp, overflows, be_value, seconds_modulus, reset_timeout, read_loop, receive_message,
  ws_read, after_debt, WsRead,
}

-- `n` in `k` bytes, the most significant first.
abbrev pub be_bytes : ℕ → ℕ → Bytes
be_bytes zero n = []
be_bytes (suc k) n = be_bytes k (n / 256) ++ n % 256 ∷ []

abbrev pub bytes_modulus : ℕ → ℕ
bytes_modulus zero = 1
bytes_modulus (suc k) = 256 * bytes_modulus k

abbrev pub stamp : ℕ → ℕ → Bytes
stamp secs nanos = be_bytes 8 secs ++ be_bytes 4 nanos

-- The time in nanoseconds is below that of 2 ^ 64 seconds.
abbrev pub is_duration : ℕ → ℕ → Bool
is_duration secs nanos = ltb (secs * 1000000000 + nanos) (seconds_modulus * 1000000000)

be_value-append : (acc c : ℕ) (xs : Bytes) → be_value acc (xs ++ c ∷ []) ≡ be_value acc xs * 256 + c
be_value-append acc c [] = refl
be_value-append acc c (x ∷ xs) = be_value-append (acc * 256 + x) c xs

be_value-be_bytes : (k n : ℕ) → n < bytes_modulus k → be_value 0 (be_bytes k n) ≡ n
be_value-be_bytes zero n lt = omega arith
be_value-be_bytes (suc k) n lt =
    be_value-append 0 (n % 256) (be_bytes k (n / 256))
    ∙ ap (λ z. z * 256 + n % 256) (be_value-be_bytes k (n / 256) (omega arith))
    ∙ omega arith

length-be_bytes : (k n : ℕ) → length (be_bytes k n) ≡ k
length-be_bytes zero n = refl
length-be_bytes (suc k) n =
    omega (arith, length-append (be_bytes k (n / 256)) (n % 256 ∷ []), length-be_bytes k (n / 256))

overflows-is_duration : (secs nanos : ℕ) → overflows secs nanos ≡ not (is_duration secs nanos)
unfolding overflows
overflows-is_duration secs nanos = ground arith

bad_timestamp-stamp :
    (secs nanos : ℕ)
    → secs < bytes_modulus 8
    → nanos < bytes_modulus 4
    → bad_timestamp (stamp secs nanos) ≡ not (is_duration secs nanos)
unfolding bad_timestamp
bad_timestamp-stamp secs nanos s_fits n_fits =
    let front : take 8 (stamp secs nanos) ≡ be_bytes 8 secs =
      take-append_left (be_bytes 8 secs) (be_bytes 4 nanos) in
    let back : drop 8 (stamp secs nanos) ≡ be_bytes 4 nanos =
      drop-append_left (be_bytes 8 secs) (be_bytes 4 nanos) in
    ap (λ z. overflows z (be_value 0 (be_bytes 4 nanos))) (be_value-be_bytes 8 secs s_fits)
    ∙ ap (overflows secs) (be_value-be_bytes 4 nanos n_fits)
    ∙ overflows-is_duration secs nanos

-- The deadline for the next pong, put off.
abbrev pub postponed : ℕ → Option (ℕ × ℕ) → Option (ℕ × ℕ)
postponed now none = none
postponed now (some (deadline, interval)) = some (now + interval, interval)

reset_timeout-postponed : (now : ℕ) (t : Option (ℕ × ℕ)) → reset_timeout now t ≡ postponed now t
reset_timeout-postponed now none = refl
reset_timeout-postponed now (some (deadline, interval)) = refl

module _ (o : Foreign) (now : ℕ) (w : WsReadWrapper) (ps : List SourcePoll) (buf : Bytes)
    (free : w.debt.debt ≡ none) where
  pong-loop :
      (b : Bytes)
      → w.s ≡ message (pong b) ∷ ps
      → ws_read o now w buf ≡ (
          if bad_timestamp b
          then panics
          else read_loop o now ps
              (record w { s = ps; pong_timeout = reset_timeout now w.pong_timeout })
              buf)
  unfolding ws_read read_loop receive_message
  pong-loop b next = rw (check_debt-free w.debt buf free, next) refl

  free-loop :
      (t : Option (ℕ × ℕ))
      → ws_read o now (record w { s = ps; pong_timeout = t }) buf
        ≡ read_loop o now ps (record w { s = ps; pong_timeout = t }) buf
  unfolding ws_read
  free-loop t =
      ap (after_debt o now (record w { s = ps; pong_timeout = t }) buf)
        (check_debt-free w.debt buf free)

  if-not : (b : Bool) (x y : Outcome WsRead) → (if not b then x else y) ≡ (if b then y else x)
  if-not true x y = refl
  if-not false x y = refl

  -- Where no read debt is left, a pong whose payload is a time stamp, seconds of 64 bits and nanoseconds
  -- of 32 in network byte order, is read on from, with its deadline put off, as if it had not come, if
  -- the time in nanoseconds is below that of 2 ^ 64 seconds; with any other the read panics.
  pub ws_read-pong :
      (secs nanos : ℕ)
      → secs < bytes_modulus 8
      → nanos < bytes_modulus 4
      → w.s ≡ message (pong (stamp secs nanos)) ∷ ps
      → ws_read o now w buf ≡ (
          if is_duration secs nanos
          then ws_read o now (record w { s = ps; pong_timeout = postponed now w.pong_timeout }) buf
          else panics)
  ws_read-pong secs nanos s_fits n_fits next =
      let t = w.pong_timeout in
      let goes : Option (ℕ × ℕ) → Outcome WsRead =
        λ d. read_loop o now ps (record w { s = ps; pong_timeout = d }) buf in
      pong-loop (stamp secs nanos) next
      ∙ ap (λ b. if b then panics else goes (reset_timeout now t))
          (bad_timestamp-stamp secs nanos s_fits n_fits)
      ∙ if-not (is_duration secs nanos) panics (goes (reset_timeout now t))
      ∙ ap (λ d. if is_duration secs nanos then goes d else panics) (reset_timeout-postponed now t)
      ∙ ap (λ r. if is_duration secs nanos then r else panics) (sym (free-loop (postponed now t)))
