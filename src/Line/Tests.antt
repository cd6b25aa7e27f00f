-- ===== src/Line/Tests.antt =====
-- Runs of the wrappers of line_peer.rs at concrete inputs.
use websocat.Base.{
  ◌≡◌, ◌++◌, refl, true, false, none, some, [], ◌∷◌, arith, Bytes, ok, replicate, codes, returns,
}
use websocat.Line.{
  Script, LineRead, Packet2LineWrapper, packet_read, Line2PacketWrapper, line2packet_peer,
  overwritten, char_to_look_at, line_read, deliver_the_line, chomp_terminator, happy_case, has,
  position, queued_round, read_round, inner_round, line_round,
}
use websocat.Line.Rounds.{line_read-ends}
use websocat.Line.Conserved.{IsKeeping, sent, pending, line_read-conserves}
use websocat.Line.Framed.{IsFramed, line_read-IsFramed}
use websocat.Line.Stale.{LosesTail, line_read-keeps_newline, line_read-LosesTail}
use websocat.Line.Packets.{IsLineOf, packet_read-IsLineOf}

abbrev buf8 : Bytes
buf8 = replicate 8 0

-- Two reads that cut `ab\ncd\n` in the second line.
abbrev cut : Script
cut = ok (codes "ab" ++ b'\n' ∷ codes "c") ∷ ok (codes "d" ++ b'\n' ∷ []) ∷ []

abbrev keeping : Line2PacketWrapper
keeping = line2packet_peer cut true false false

abbrev first_line : LineRead Line2PacketWrapper
first_line = record {
  after = record {
    inner = ok (codes "d" ++ b'\n' ∷ []) ∷ [];
    queue = codes "c";
    retain_newlines = true;
    allow_incomplete_lines = true;
    drop_too_long_lines = false;
    eof = false;
    null_terminated = false;
  };
  buf = codes "ab" ++ b'\n' ∷ codes "c" ++ replicate 4 0;
  result = ok 3;
}

line_read-cut : line_read 9 keeping buf8 ≡ some first_line
unfolding line2packet_peer line_read line_round position inner_round read_round happy_case has
    queued_round deliver_the_line chomp_terminator
line_read-cut = refl

keeping-IsKeeping : IsKeeping keeping
unfolding line2packet_peer
keeping-IsKeeping = record { retains = refl; newlines = refl; splits = refl }

line_read-ends_example : (r : LineRead Line2PacketWrapper) × (line_read 9 keeping buf8 ≡ some r)
unfolding line2packet_peer
line_read-ends_example = line_read-ends 9 keeping buf8 (omega arith)

line_read-conserves_example : sent first_line ++ pending first_line.after ≡ pending keeping
line_read-conserves_example =
    line_read-conserves 9 keeping buf8 first_line keeping-IsKeeping line_read-cut refl

line_read-IsFramed_example : IsFramed (char_to_look_at keeping) (sent first_line)
line_read-IsFramed_example = line_read-IsFramed 9 keeping buf8 first_line line_read-cut

-- A reader that takes line ends off, with a line queued.
abbrev stripping : Line2PacketWrapper
stripping = record {
  inner = [];
  queue = codes "ab" ++ b'\n' ∷ codes "cd";
  retain_newlines = false;
  allow_incomplete_lines = true;
  drop_too_long_lines = false;
  eof = false;
  null_terminated = false;
}

position-queued : position b'\n' stripping.queue ≡ some 2
unfolding position
position-queued = refl

line_read-keeps_newline_example :
    line_read 1 stripping buf8
    ≡ some (record {
      after = record stripping { queue = codes "cd" };
      buf = overwritten buf8 (codes "ab" ++ b'\n' ∷ []);
      result = ok 3;
    })
line_read-keeps_newline_example =
    line_read-keeps_newline 0 stripping buf8 2 refl refl refl position-queued (omega arith)
      (λ e. cc) (λ e. cc)

abbrev incomplete : Line2PacketWrapper
incomplete = record stripping { inner = ok [] ∷ []; queue = codes "abcd" }

position-incomplete : position b'\n' incomplete.queue ≡ none
unfolding position
position-incomplete = refl

line_read-LosesTail_example :
    (r : LineRead Line2PacketWrapper) × (line_read 1 incomplete (0 ∷ 0 ∷ []) ≡ some r)
    × LosesTail 0 incomplete.queue (0 ∷ 0 ∷ []) buf8 r
line_read-LosesTail_example =
    line_read-LosesTail 0 incomplete (0 ∷ 0 ∷ []) buf8 [] refl refl refl position-incomplete refl
      (omega arith)

packet_read-IsLineOf_example :
    (r : LineRead Packet2LineWrapper) × (packet_read
        (record { inner = ok (b'a' ∷ b'\n' ∷ b'b' ∷ b'\n' ∷ []) ∷ []; null_terminated = false })
        buf8
      ≡ returns r)
    × IsLineOf (b'a' ∷ b'\n' ∷ b'b' ∷ b'\n' ∷ []) r
packet_read-IsLineOf_example =
    packet_read-IsLineOf b'a' (b'\n' ∷ b'b' ∷ b'\n' ∷ []) buf8 [] (omega arith)
