-- ===== src/Ws/Tests.antt =====
-- Frames of ws_peer.rs at concrete inputs, with toy encoders: base64 moves bytes up by 14, compression
-- puts one byte in front.
use websocat.Base.{
  ◌+◌, ◌-◌, ◌≡◌, ◌≢◌, refl, true, false, none, some, List, [], ◌∷◌, ◌++◌, map, arith, leb,
  if◌then◌else◌, length, drop, All, Bytes, codes, replicate, ok, returns, panics, ap,
}
use websocat.ReadDebt.{check_debt, process_message, silent}
use websocat.Mirror.{read_with}
use websocat.Ws.{
  text, ping, pong, Foreign, fires, waits, taken, complete, Sink, SourcePoll, message, WsOptions,
  finish_building_ws_peer, method_of,
}
use websocat.Ws.Reading.{ws_read}
use websocat.Ws.Writing.{ws_write}
use websocat.Ws.Pinger.{poll_completing, aborted, idle, waiting_for_timer, ping_poll, ready}
use websocat.Ws.Stamps.{stamp, ws_read-pong}
use websocat.Ws.Channel.{format, channel, SameRead, ws_read-SameRead}
use websocat.Ws.Lines.{IsLawful}
use websocat.Ws.RoundTrip.{as_text, writer_of, reader_of, ws_write-ws_read}
use websocat.Ws.Pings.{Answers, ws_read-Answers}
use websocat.Ws.Beats.{part_of_beat, beats, willing, ping_poll-beats}

abbrev toy : Foreign
toy = record {
  base64_encode = map (λ c. c + 14);
  base64_decode = λ x. some (map (λ c. c - 14) x);
  is_utf8 = λ x. true;
  from_utf8_lossy = λ x. x;
  encoder = λ m x. 1 ∷ x;
  decoder = λ m x. drop 1 x;
  poll_delay = λ deadline now. if leb deadline now then fires else waits;
}

toy-decodes : (x : Bytes) → map (λ c. c - 14) (map (λ c. c + 14) x) ≡ x
toy-decodes [] = refl
toy-decodes (c ∷ x) = let same : c + 14 - 14 ≡ c = omega arith in rw (same, toy-decodes x) refl

toy-alphabet : (x : Bytes) → All (λ c. c ≢ b'\r') (map (λ c. c + 14) x)
toy-alphabet [] = tt
toy-alphabet (c ∷ x) = ((λ e. omega arith), toy-alphabet x)

length-toy : (x : Bytes) → length (map (λ c. c + 14) x) ≡ length x
length-toy [] = refl
length-toy (c ∷ x) = omega (arith, length-toy x)

toy-IsLawful : IsLawful toy
toy-IsLawful = record {
  decodes = λ x. ap some (toy-decodes x);
  alphabet = toy-alphabet;
  fits = λ x. omega (arith, length-toy x);
  restores = λ m x. refl;
}

abbrev idle_sink : Sink
idle_sink = record { sends = taken ∷ (taken ∷ []); completes = complete ∷ []; sent = [] }

abbrev options : WsOptions
options = record {
  websocket_text_mode = false;
  ws_ping_interval = none;
  ws_ping_timeout = none;
  no_exit_on_zeromsg = false;
  compress_deflate = true;
  compress_gzip = false;
  compress_zlib = false;
  uncompress_deflate = true;
  uncompress_gzip = false;
  uncompress_zlib = false;
  read_debt_handling = silent;
  ws_text_prefix = some (codes "T");
  ws_binary_prefix = some (codes "B");
  ws_binary_base64 = false;
  ws_text_base64 = true;
  close_status_code = none;
  close_reason = none;
}

abbrev frames : List SourcePoll
frames = message (ping (codes "p")) ∷ (message (text (codes "hi")) ∷ [])

ws_read-frames :
    ws_read toy 0 (reader_of options 0 frames idle_sink) (replicate 8 0)
    ≡ returns (record {
      after =
          reader_of options 0 []
            (record { sends = taken ∷ []; completes = []; sent = pong (codes "p") ∷ [] });
      buf = codes "Tvw\n" ++ replicate 4 0;
      result = ok 4;
    })
unfolding finish_building_ws_peer ws_read check_debt process_message
ws_read-frames = refl

-- The nanoseconds carry the seconds to 2 ^ 64.
ws_read-pong_example :
    ws_read toy 0
      (reader_of options 0 (message (pong (stamp 18446744073709551615 1000000000)) ∷ []) idle_sink)
      (codes "abc")
    ≡ panics
unfolding finish_building_ws_peer
ws_read-pong_example =
    ws_read-pong toy 0
      (reader_of options 0 (message (pong (stamp 18446744073709551615 1000000000)) ∷ []) idle_sink)
      [] (codes "abc") refl 18446744073709551615 1000000000 (omega arith) (omega arith) refl

ws_read-SameRead_example :
    SameRead toy
      (format (reader_of options 0 frames idle_sink))
      (ws_read toy 0 (reader_of options 0 frames idle_sink) (replicate 8 0))
      (read_with
        (λ m. m)
        (record {
          debt = (reader_of options 0 frames idle_sink).debt;
          ch =
              channel toy
                (format (reader_of options 0 frames idle_sink))
                (reader_of options 0 frames idle_sink).s;
        })
        (replicate 8 0))
unfolding finish_building_ws_peer
ws_read-SameRead_example =
    ws_read-SameRead toy 0 (λ q. omega (arith, length-toy q)) (reader_of options 0 frames idle_sink)
      (replicate 8 0) (tt, (tt, tt))
      (record { sends = ((λ e. cc), ((λ e. cc), tt)); completes = ((λ e. cc), tt) }) refl

ws_read-Answers_example :
    Answers
      (pong (codes "p") ∷ [])
      (ws_read toy 0 (reader_of options 0 frames idle_sink) (replicate 8 0))
unfolding finish_building_ws_peer
ws_read-Answers_example =
    ws_read-Answers toy 0 (reader_of options 0 frames idle_sink) (replicate 8 0)
      ((refl, (refl, tt)), omega arith)

ws_write-ws_read_example :
    (ws_write toy
        (writer_of options (record { sends = taken ∷ []; completes = []; sent = [] }))
        (codes "Tvw\n")
      ≡ record {
        after =
            writer_of options
              (record { sends = []; completes = []; sent = text (codes "hi") ∷ [] });
        result = ok 4;
      })
    × (ws_read toy 0
          (reader_of options 0 (message (text (codes "hi")) ∷ []) idle_sink)
          (replicate 8 0)
        ≡ returns (record {
          after = reader_of options 0 [] idle_sink;
          buf = codes "Tvw\n" ++ replicate 4 0;
          result = ok 4;
        }))
unfolding method_of
ws_write-ws_read_example =
    ws_write-ws_read toy options toy-IsLawful 0 (codes "Tvw\n") (text (codes "hi")) [] [] [] []
      idle_sink (replicate 8 0) refl (as_text (codes "hi") refl refl tt refl) (omega arith)
      (omega arith)

ping_poll-beats_example :
    ping_poll
      (beats (codes "ab" ∷ []) (
        part_of_beat poll_completing
          (codes "cd")
          (record { aborter = aborted; timer = idle; timestamp = [] } ∷ [])))
      (record { st = waiting_for_timer; si = willing (codes "ab" ∷ []) (taken ∷ []) [] [] })
    ≡ ready (record {
      st = poll_completing;
      si = record { sends = []; completes = []; sent = ping (codes "ab") ∷ ping (codes "cd") ∷ [] };
    })
ping_poll-beats_example =
    ping_poll-beats (codes "ab" ∷ []) poll_completing (codes "cd")
      (record { aborter = aborted; timer = idle; timestamp = [] }) [] [] [] [] refl
