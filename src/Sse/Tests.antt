-- ===== src/Sse/Tests.antt =====
-- A message of two lines, and one that is not taken at once.
use websocat.Base.{◌≡◌, refl, [], ◌∷◌, ◌++◌, Bytes, ok, err, would_block, codes, returns, arith}
use websocat.Sse.{SseState, SseStream, before_line, sse_write}
use websocat.Sse.Events.{Wrote, sse_write-Wrote}
use websocat.Sse.Rounds.{event_of}

abbrev message : Bytes
message = codes "a" ++ b'\n' ∷ codes "bc"

event_of-message :
    event_of message ≡ codes "data: a" ++ b'\n' ∷ (codes "data: bc" ++ b'\n' ∷ b'\n' ∷ [])
event_of-message = refl

-- In the middle of the second line, after five bytes of its prefix.
abbrev halfway : SseStream
halfway = record {
  writes = ok 1 ∷ ok 9 ∷ err would_block ∷ [];
  output = codes "data: a" ++ b'\n' ∷ codes "data:";
  state = before_line 5;
  consumed_actual_buffer = 2;
}

sse_write-halfway :
    sse_write halfway message
    ≡ returns (record {
      after = record {
        writes = [];
        output = codes "data: a" ++ b'\n' ∷ codes "data: bc";
        state = SseState.after_line;
        consumed_actual_buffer = 4;
      };
      result = err would_block;
    })
unfolding sse_write
sse_write-halfway = refl

sse_write-Wrote_example :
    Wrote (event_of message) message halfway.writes (sse_write halfway message)
sse_write-Wrote_example = sse_write-Wrote (event_of message) message halfway (record {
  placed = (omega arith, omega arith);
  whole = refl;
  writable = (omega arith, (omega arith, (tt, tt)));
})
