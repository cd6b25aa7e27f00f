-- ===== src/ReadDebt/Delivery.antt =====
-- What one call of `process_message` or `check_debt` does.
use websocat.Base.{
  ℕ, ◌<◌, ◌≡◌, ◌≢◌, inl, inr, refl, ap, Option, none, some, [], ◌∷◌, ◌++◌, arith, ltb,
  if◌then◌else◌, length, take, drop, length-drop, take-append-drop, Bytes, ok, returns, Bool-cases,
  ltb→lt, ltb→ge, ge→ltb, drop-all, take-all, ◌≤◌, ◌∙◌, if-false,
}
use websocat.ReadDebt.{
  DebtHandling, silent, warn, drop_message, ZeroMessagesHandling, return, ReadDebt, Processed, fill,
  fit, process_message, check, check_debt, IsOwing, nothing, something, IsValid,
}

-- The bytes a reader still owes.
abbrev pub owed : Option Bytes → Bytes
owed none = []
owed (some d) = d

drop-ne-nil : (l : ℕ) (d : Bytes) → l < length d → drop l d ≢ []
drop-ne-nil l d h e = absurd (omega (arith, length-drop l d, ap length e))

fill-IsOwing :
    (r : ReadDebt) (buf msg : Bytes) (l : ℕ)
    → ((l < length msg) → r.handling ≢ drop_message)
    → IsValid (fill r buf msg l).after
unfolding fill
fill-IsOwing r buf msg l keeps = elim (Bool-cases (ltb l (length msg))) [
  | inl more ↦ rw more (something (drop-ne-nil l msg (ltb→lt _ _ more)) (keeps (ltb→lt _ _ more)))
  | inr all ↦ rw all nothing
]

fit-IsValid :
    (h : DebtHandling) (r : ReadDebt) (buf msg : Bytes)
    → r.handling ≡ h
    → r.debt ≡ none
    → IsValid (fit h r buf msg).after
unfolding fit
fit-IsValid silent r buf msg e d = fill-IsOwing r buf msg _ (λ _ k. cc)
fit-IsValid warn r buf msg e d = fill-IsOwing r buf msg _ (λ _ k. cc)
fit-IsValid drop_message r buf msg e d = elim (Bool-cases (ltb (length buf) (length msg))) [
  | inl over ↦ rw over (rw d nothing)
  | inr fits ↦ rw fits (fill-IsOwing r buf msg (length msg) (λ k. absurd (omega arith)))
]

-- A reader with no debt accepts a message without a panic, and is left with a valid debt.
pub process_message-IsValid :
    (r : ReadDebt) (buf msg : Bytes)
    → r.debt ≡ none
    → (p : Processed) × (process_message r buf msg ≡ returns p) × IsValid p.after
unfolding process_message
process_message-IsValid r buf msg d =
    (fit r.handling r buf msg, rw d, fit-IsValid r.handling r buf msg refl d)

-- `fill` moves the message's bytes to the front of the buffer and to the debt.
fill-owed :
    (r : ReadDebt) (buf msg : Bytes) (l : ℕ)
    → take l msg ++ owed (fill r buf msg l).after.debt ≡ msg
unfolding fill
fill-owed r buf msg l = elim (Bool-cases (ltb l (length msg))) [
  | inl more ↦ rw more (take-append-drop l msg)
  | inr all ↦ rw (all, ← drop-all l msg (ltb→ge _ _ all)) (take-append-drop l msg)
]

-- What is left of a message when `l` bytes are delivered.
abbrev pub remainder : ℕ → Bytes → Option Bytes
remainder l msg = if ltb l (length msg) then some (drop l msg) else none

pub owed-remainder : (l : ℕ) (msg : Bytes) → take l msg ++ owed (remainder l msg) ≡ msg
owed-remainder l msg = elim (Bool-cases (ltb l (length msg))) [
  | inl more ↦ rw more (take-append-drop l msg)
  | inr all ↦ rw (all, ← drop-all l msg (ltb→ge _ _ all)) (take-append-drop l msg)
]

-- The bytes that a call with a buffer `buf` delivers of `msg`.
abbrev pub share : Bytes → Bytes → ℕ
share buf msg = if ltb (length buf) (length msg) then length buf else length msg

fit-keeps :
    (h : DebtHandling) (r : ReadDebt) (buf msg : Bytes)
    → h ≢ drop_message
    → fit h r buf msg ≡ fill r buf msg (share buf msg)
unfolding fit
fit-keeps silent r buf msg k = refl
fit-keeps warn r buf msg k = refl
fit-keeps drop_message r buf msg k = absurd (k refl)

-- A reader that keeps debts and delivers empty messages puts the message's first bytes into the
-- buffer, as many as fit, and owes the rest.
pub process_message-keeps :
    (r : ReadDebt) (buf msg : Bytes)
    → r.debt ≡ none
    → r.handling ≢ drop_message
    → r.zero_messages ≡ ZeroMessagesHandling.deliver
    → process_message r buf msg
      ≡ returns (record {
        after = record r { debt = remainder (share buf msg) msg };
        buf = take (share buf msg) msg ++ drop (share buf msg) buf;
        result = return (ok (share buf msg));
      })
unfolding process_message
process_message-keeps r buf msg d k z = unfold fill in ground arith

pub IsOwing-some :
    {o : Option Bytes} {h : DebtHandling} (d : Bytes)
    → IsOwing o h
    → o ≡ some d
    → (d ≢ []) × (h ≢ drop_message)
IsOwing-some d nothing e = cc
IsOwing-some d (something {d = x} {h = h} ne keeps) e = (λ z. ne (cc), keeps)

pub length-pos : (d : Bytes) → d ≢ [] → 0 < length d
length-pos [] ne = absurd (ne refl)
length-pos (x ∷ d) ne = omega arith

-- A debt is paid in the same way, and never runs into `unreachable!()`.
pub check_debt-pays :
    (r : ReadDebt) (buf d : Bytes)
    → r.debt ≡ some d
    → IsValid r
    → 0 < length buf
    → check_debt r buf
      ≡ returns (
          some (
            record r { debt = remainder (share buf d) d },
            take (share buf d) d ++ drop (share buf d) buf,
            ok (share buf d),
          ))
unfolding check_debt
check_debt-pays r buf d e v pos =
    let (ne, keeps) = IsOwing-some d v e in
    let some_bytes = length-pos d ne in unfold fill in ground arith

pub remainder-IsOwing :
    (l : ℕ) (d : Bytes) (h : DebtHandling) → h ≢ drop_message → IsOwing (remainder l d) h
remainder-IsOwing l d h keeps = elim (Bool-cases (ltb l (length d))) [
  | inl more ↦ rw more (something (drop-ne-nil l d (ltb→lt _ _ more)) keeps)
  | inr all ↦ rw all nothing
]

pub check_debt-free : (r : ReadDebt) (buf : Bytes) → r.debt ≡ none → check_debt r buf ≡ returns none
unfolding check_debt
check_debt-free r buf d = rw (d, check)

fill-whole :
    (h : DebtHandling) (z : ZeroMessagesHandling) (buf l : Bytes)
    → 0 < length l
    → fill (record { debt = none; handling = h; zero_messages = z }) buf l (length l) ≡ record {
      after = record { debt = none; handling = h; zero_messages = z };
      buf = l ++ drop (length l) buf;
      result = return (ok (length l));
    }
unfolding fill
fill-whole h z buf l some_bytes = rw (take-all (length l) l (omega arith)) (ground arith)

fit-whole :
    (h : DebtHandling) (z : ZeroMessagesHandling) (buf l : Bytes)
    → 0 < length l
    → length l ≤ length buf
    → fit h (record { debt = none; handling = h; zero_messages = z }) buf l ≡ record {
      after = record { debt = none; handling = h; zero_messages = z };
      buf = l ++ drop (length l) buf;
      result = return (ok (length l));
    }
unfolding fit
fit-whole silent z buf l some_bytes fits =
    ap (fill (record { debt = none; handling = silent; zero_messages = z }) buf l)
      (if-false _ _ (ge→ltb (length buf) (length l) fits))
    ∙ fill-whole silent z buf l some_bytes
fit-whole warn z buf l some_bytes fits =
    ap (fill (record { debt = none; handling = warn; zero_messages = z }) buf l)
      (if-false _ _ (ge→ltb (length buf) (length l) fits))
    ∙ fill-whole warn z buf l some_bytes
fit-whole drop_message z buf l some_bytes fits =
    rw (ge→ltb (length buf) (length l) fits) (fill-whole drop_message z buf l some_bytes)

-- A message that is not empty and fits the buffer is delivered whole, however a reader handles debts
-- and empty messages.
pub process_message-whole :
    (h : DebtHandling) (z : ZeroMessagesHandling) (buf l : Bytes)
    → 0 < length l
    → length l ≤ length buf
    → process_message (record { debt = none; handling = h; zero_messages = z }) buf l
      ≡ returns (record {
        after = record { debt = none; handling = h; zero_messages = z };
        buf = l ++ drop (length l) buf;
        result = return (ok (length l));
      })
unfolding process_message
process_message-whole h z buf l some_bytes fits = ap returns (fit-whole h z buf l some_bytes fits)
