-- ===== src/ReadDebt.antt =====
-- readdebt.rs: the part of a message that did not fit the reader's buffer is kept as a debt, which
-- the next read pays first.
pub mod Delivery
mod Tests
use websocat.Base.{
  ℕ, suc, zero, ◌+◌, ◌<◌, ◌≤◌, ◌≡◌, ◌≢◌, refl, Bool, true, false, ◌&&◌, Option, none, some, List,
  [], ◌∷◌, ◌++◌, ltb, ◌==◌, if◌then◌else◌, length, take, drop as skip, Bytes, IoResult, ok, Outcome,
  returns, panics,
}

pub data DebtHandling : Type 0 where
  silent warn drop_message : DebtHandling

pub data ZeroMessagesHandling : Type 0 where
  drop deliver : ZeroMessagesHandling

pub data ProcessMessageResult : Type 0 where
  return : IoResult ℕ → ProcessMessageResult
  recurse : ProcessMessageResult

-- The tuple struct's fields 0, 1 and 2.
pub record ReadDebt : Type 0 where
  pub debt : Option Bytes
  pub handling : DebtHandling
  pub zero_messages : ZeroMessagesHandling

-- What a call leaves: the reader, the caller's buffer, and the result.
pub record Processed : Type 0 where
  pub after : ReadDebt
  pub buf : Bytes
  pub result : ProcessMessageResult

-- From `buf[..l].copy_from_slice` on.
pub fill : ReadDebt → Bytes → Bytes → ℕ → Processed
fill r buf buf_in l = record {
  after = record r { debt = if ltb l (length buf_in) then some (skip l buf_in) else none };
  buf = take l buf_in ++ skip l buf;
  result =
      if l == 0
      then elim r.zero_messages [
        | ZeroMessagesHandling.deliver ↦ return (ok l)
        | ZeroMessagesHandling.drop ↦ recurse
      ]
      else return (ok l);
}

-- `process_message` behind its assertion, on the reader's debt handling.
pub fit : DebtHandling → ReadDebt → Bytes → Bytes → Processed
unfolding fill
fit silent r buf buf_in =
    fill r buf buf_in (if ltb (length buf) (length buf_in) then length buf else length buf_in)
fit warn r buf buf_in =
    fill r buf buf_in (if ltb (length buf) (length buf_in) then length buf else length buf_in)
fit drop_message r buf buf_in =
    if ltb (length buf) (length buf_in)
    then record { after = r; buf = buf; result = recurse }
    else fill r buf buf_in (length buf_in)

abbrev pub process : Option Bytes → ReadDebt → Bytes → Bytes → Outcome Processed
process none r buf buf_in = returns (fit r.handling r buf buf_in)
process (some _) r buf buf_in = panics

unfoldable pub process_message : ReadDebt → Bytes → Bytes → Outcome Processed
unfolding fit
process_message r = process r.debt r

-- `check_debt` on the outcome of processing the debt.
abbrev pub paid : Outcome Processed → Outcome (Option (ReadDebt × Bytes × IoResult ℕ))
paid panics = panics
paid (returns p) = elim p.result [
  | return x ↦ returns (some (p.after, p.buf, x))
  | recurse ↦ panics
]

abbrev pub check :
    Option Bytes → ReadDebt → Bytes → Outcome (Option (ReadDebt × Bytes × IoResult ℕ))
check none r buf = returns none
check (some debt) r buf = paid (process none (record r { debt = none }) buf debt)

-- `none` when there is no debt; the reader is then unchanged.
unfoldable pub check_debt : ReadDebt → Bytes → Outcome (Option (ReadDebt × Bytes × IoResult ℕ))
unfolding fit
check_debt r = check r.debt r

-- What every reader keeps: a debt is never empty, and never kept by a reader that drops messages.
pub data IsOwing : Option Bytes → DebtHandling → Type 0 where
  nothing : {h : DebtHandling} → IsOwing none h
  something : {d : Bytes} {h : DebtHandling} → d ≢ [] → h ≢ drop_message → IsOwing (some d) h

abbrev pub IsValid : ReadDebt → Type 0
IsValid r = IsOwing r.debt r.handling
