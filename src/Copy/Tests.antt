-- ===== src/Copy/Tests.antt =====
-- A copy of my_copy.rs at a concrete input.
use websocat.Base.{◌≡◌, refl, true, false, none, some, [], ◌∷◌, ok, arith, codes}
use websocat.Copy.{
  CopyOptions, Writer, Copy, Poll, ready, copy, copy_round, copy_phase, read_phase, read_bytes,
  write_phase, write_loop, emit, taken, flush, finish, poll,
}
use websocat.Copy.Writing.{IsCopying, IsComplete}
use websocat.Copy.Conserved.{poll-IsCopying}
use websocat.Copy.Going.{HasRoom}
use websocat.Copy.Ends.{poll-ends}

abbrev usual : CopyOptions
usual = record {
  stop_on_reader_zero_read = true;
  once = false;
  buffer_size = 4;
  skip = false;
  max_ops = none;
}

-- Takes one byte, then two, then all.
abbrev slow : Writer
slow = record {
  replies = ok 1 ∷ ok 2 ∷ ok 9 ∷ [];
  flushes = ok tt ∷ ok tt ∷ ok tt ∷ ok tt ∷ [];
  written = [];
}

abbrev before : Copy
before = copy (ok (codes "abc") ∷ ok (codes "d") ∷ ok [] ∷ []) slow usual []

abbrev behind : Copy
behind = record before {
  reader = [];
  read_done = true;
  writer = record { replies = []; flushes = []; written = codes "abcd" };
  pos = 1;
  cap = 1;
  amt = 4;
  buf = codes "dbc\0";
  read_occurred = true;
}

before-IsCopying : IsCopying (codes "abcd") before
unfolding copy
before-IsCopying = record {
  drained = refl;
  enabled = refl;
  in_cap = omega arith;
  in_buf = omega arith;
  whole = refl;
  counted = refl;
}

poll-before : poll 9 before ≡ some (behind, ready 4)
unfolding copy poll copy_round copy_phase read_phase read_bytes write_phase write_loop emit taken
    flush finish
poll-before = refl

poll-IsCopying_example : IsCopying (codes "abcd") behind × IsComplete behind (ready 4)
poll-IsCopying_example =
    poll-IsCopying (codes "abcd") 9 before behind (ready 4) before-IsCopying poll-before

before-HasRoom : HasRoom before
unfolding copy
before-HasRoom = record { in_cap = omega arith; in_buf = omega arith }

poll-ends_example : (c' : Copy) × (p : Poll) × (poll 9 before ≡ some (c', p))
unfolding copy
poll-ends_example = poll-ends 9 before before-HasRoom (omega arith)
