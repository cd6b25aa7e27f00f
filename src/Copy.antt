-- ===== src/Copy.antt =====
-- my_copy.rs: the future that copies a reader into a writer. Reader and writer are the peers', and are
-- scripts: the results that the next reads, writes and flushes give. A read puts its bytes at the front
-- of the buffer, as many as fit; a write takes no more than it is offered. A poll behind the one that
-- is ready, which panics, is not modelled.
pub mod Writing
pub mod Reading
pub mod Conserved
pub mod Going
pub mod Ends
mod Tests
use websocat.Base.{
  ℕ, suc, zero, ◌+◌, ◌-◌, ◌%◌, Bool, true, false, not, ◌&&◌, Option, none, some, List, [], ◌∷◌,
  ◌++◌, ltb, ◌==◌, if◌then◌else◌, length, take, drop, get_or, is_empty, min, replicate, Bytes,
  IoResult, ok, err, ErrorKind, would_block, broken_pipe, write_zero,
}

pub record CopyOptions : Type 0 where
  pub stop_on_reader_zero_read : Bool
  pub once : Bool
  pub buffer_size : ℕ
  pub skip : Bool
  pub max_ops : Option ℕ

-- A writer: the results of its next writes and flushes, and all that it has taken.
pub record Writer : Type 0 where
  pub replies : List (IoResult ℕ)
  pub flushes : List (IoResult (Unit {0}))
  pub written : Bytes

pub record Copy : Type 0 where
  pub reader : List (IoResult Bytes)
  pub read_done : Bool
  pub writer : Writer
  pub pos : ℕ
  pub cap : ℕ
  pub amt : ℕ
  pub buf : Bytes
  pub opts : CopyOptions
  pub read_occurred : Bool
  pub remaining_ops : Option ℕ
  pub preamble : List Bytes
  pub preamble_index : ℕ

unfoldable pub copy : List (IoResult Bytes) → Writer → CopyOptions → List Bytes → Copy
copy reader writer opts preamble = record {
  reader = reader;
  read_done = false;
  writer = writer;
  pos = 0;
  cap = 0;
  amt = 0;
  buf = replicate opts.buffer_size 0;
  opts = opts;
  read_occurred = false;
  remaining_ops = opts.max_ops;
  preamble = preamble;
  preamble_index = 0;
}

-- `Poll` of the number of bytes copied.
pub data Poll : Type 0 where
  ready : ℕ → Poll
  not_ready : Poll
  failed : ErrorKind → Poll

-- A part of `poll`: it returns, or goes on.
pub data Round : Type 0 where
  yields : Copy → Poll → Round
  goes_on : Copy → Round

-- `try_nb!` on an error.
abbrev pub try_nb : ErrorKind → Poll
try_nb would_block = not_ready
try_nb e = failed e

-- `try_nb!(writer.flush())`
unfoldable pub flush : List (IoResult (Unit {0})) → Copy → Round
flush [] c = yields c not_ready
flush (err e ∷ fs) c = yields (record c { writer = record c.writer { flushes = fs } }) (try_nb e)
flush (ok _ ∷ fs) c = goes_on (record c { writer = record c.writer { flushes = fs } })

-- The writer takes the first `n` bytes; what the code does then is `update`.
unfoldable pub taken : ℕ → (ℕ → Copy → Copy) → Bytes → Copy → Round
unfolding flush
taken zero update bytes c = yields c (failed write_zero)
taken (suc n) update bytes c = flush c.writer.flushes (
    update (suc n)
      (record c { writer = record c.writer { written = c.writer.written ++ take (suc n) bytes } }))

-- `writer.write(data)`, and a flush if the writer took some bytes.
unfoldable pub emit : List (IoResult ℕ) → (ℕ → Copy → Copy) → Bytes → Copy → Round
unfolding taken
emit [] update bytes c = yields c not_ready
emit (err e ∷ rs) update bytes c =
    yields (record c { writer = record c.writer { replies = rs } }) (try_nb e)
emit (ok n ∷ rs) update bytes c =
    taken (min n (length bytes)) update bytes
      (record c { writer = record c.writer { replies = rs } })

-- A preamble message counts as sent, however short its write was.
abbrev pub next_preamble : ℕ → Copy → Copy
next_preamble n c = record c { preamble_index = suc c.preamble_index }

-- 2 ^ 64, where `amt` wraps.
abbrev pub amt_modulus : ℕ
amt_modulus = 18446744073709551616

abbrev pub advance : ℕ → Copy → Copy
advance n c = record c { pos = c.pos + n; amt = (c.amt + n) % amt_modulus }

-- `self.buf[self.pos..self.cap]`
abbrev pub unwritten : Copy → Bytes
unwritten c = drop c.pos (take c.cap c.buf)

-- The `while` loop. Each turn uses up one result of the writer's, and without one it returns.
unfoldable pub write_loop : List (IoResult ℕ) → Copy → Round
unfolding emit
write_loop [] c =
    if ltb c.pos c.cap then emit c.writer.replies advance (unwritten c) c else goes_on c
write_loop (_ ∷ rs) c =
    if ltb c.pos c.cap
    then elim (emit c.writer.replies advance (unwritten c) c) [
      | yields c' p ↦ yields c' p
      | goes_on c' ↦ write_loop rs c'
    ]
    else goes_on c

-- Behind the last flush the copy is done.
abbrev pub completed : Round → Round
completed (yields c p) = yields c p
completed (goes_on c) = yields c (ready c.amt)

-- The `if` at the end of the loop.
unfoldable pub finish : Copy → Round
unfolding flush
finish c = if c.pos == c.cap && c.read_done then completed (flush c.writer.flushes c) else goes_on c

unfoldable pub write_phase : Copy → Round
unfolding write_loop finish
write_phase c = elim (write_loop c.writer.replies c) [
  | yields c' p ↦ yields c' p
  | goes_on c' ↦ finish c'
]

-- `*maxops -= 1`, which is not reached at zero.
abbrev pub one_less : Option ℕ → Option ℕ
one_less none = none
one_less (some n) = some (n - 1)

abbrev pub no_more : Copy → Copy
no_more c = record c { read_done = true }

-- A successful read gave `x`.
unfoldable pub read_bytes : Bytes → Copy → Round
unfolding write_phase
read_bytes [] c = goes_on (if c.opts.stop_on_reader_zero_read then no_more c else c)
read_bytes (b ∷ x) c = write_phase (record c {
  pos = 0;
  cap = suc (length x);
  buf = (b ∷ x) ++ drop (suc (length x)) c.buf;
  read_occurred = true;
})

unfoldable pub read_phase : List (IoResult Bytes) → Copy → Round
unfolding read_bytes
read_phase [] c = yields c not_ready
read_phase (err broken_pipe ∷ rs) c = goes_on (no_more (record c { reader = rs }))
read_phase (err e ∷ rs) c = yields (record c { reader = rs }) (try_nb e)
read_phase (ok x ∷ rs) c =
    read_bytes (take (length c.buf) x)
      (record c { reader = rs; remaining_ops = one_less c.remaining_ops })

abbrev pub is_exhausted : Option ℕ → Bool
is_exhausted (some zero) = true
is_exhausted _ = false

-- From the comment on an empty buffer on.
unfoldable pub copy_phase : Copy → Round
unfolding read_phase write_phase
copy_phase c =
    if c.pos == c.cap && not c.read_done
    then (if c.read_occurred && c.opts.once
        then goes_on (no_more c)
        else if is_exhausted c.remaining_ops
        then goes_on (no_more c)
        else read_phase c.reader c)
    else write_phase c

-- One turn of the `loop`.
unfoldable pub copy_round : Copy → Round
unfolding emit copy_phase
copy_round c =
    if ltb c.preamble_index (length c.preamble)
    then emit c.writer.replies next_preamble (get_or c.preamble c.preamble_index []) c
    else if c.opts.skip
    then yields c (ready 0)
    else copy_phase c

-- `poll`; `none` when the fuel runs out.
unfoldable pub poll : ℕ → Copy → Option (Copy × Poll)
poll zero c = none
poll (suc f) c = elim (copy_round c) [ yields c' p ↦ some (c', p) | goes_on c' ↦ poll f c' ]
