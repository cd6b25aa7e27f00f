-- ===== src/Ws/RoundTrip.antt =====
-- ws_peer.rs: what one end writes, the other end, with the same options, reads.
use websocat.Base.{
  ℕ, ◌≤◌, ◌≡◌, sym, ap, ◌∙◌, true, List, [], ◌∷◌, ◌++◌, length, drop, Bytes, ok, returns, ◌<◌,
}
use websocat.ReadDebt.{check_debt}
use websocat.Ws.{
  OwnedMessage, text, binary, Foreign, compress, SendReply, taken, CompleteReply, Sink, start_send,
  text_mode, binary_mode, SourcePoll, message, WsReadWrapper, WsWriteWrapper, WsOptions, mode_of,
  method_of, zero_messages_of, finish_building_ws_peer,
}
use websocat.Ws.Reading.{
  incoming, processed, ws_read, read_loop, receive_message, process_prefixes_and_base64,
}
use websocat.Ws.Writing.{message_of, ws_write, write_gives}
use websocat.ReadDebt.Delivery.{process_message-whole}
use websocat.Ws.Encoded.{line, process_prefixes_and_base64-line}
use websocat.Ws.Lines.{
  IsLawful, Unlike, Selects, payload, uncompress-compress, message_of-text, message_of-binary,
}

-- A line that stands for a message: its prefix and its encoding are those of the options for the kind of
-- the message, and it does not begin with the prefix of the other kind.
pub data Stands (o : Foreign) (opts : WsOptions) (l : Bytes) : OwnedMessage → Type 0 where
  as_text :
      (x : Bytes)
      → l ≡ line o opts.ws_text_prefix opts.ws_text_base64 x
      → o.is_utf8 x ≡ true
      → Selects opts.ws_text_prefix (mode_of opts.websocket_text_mode) text_mode
      → Unlike opts.ws_binary_prefix (payload o opts.ws_text_base64 x)
      → Stands o opts l (text x)
  as_binary :
      (x : Bytes)
      → l ≡ line o opts.ws_binary_prefix opts.ws_binary_base64 x
      → Selects opts.ws_binary_prefix (mode_of opts.websocket_text_mode) binary_mode
      → Unlike opts.ws_text_prefix l
      → Stands o opts l (
          binary
            (compress o (method_of opts.compress_deflate opts.compress_gzip opts.compress_zlib) x))

-- The writer and the reader that the options make.
abbrev pub writer_of : WsOptions → Sink → WsWriteWrapper
unfolding finish_building_ws_peer
writer_of opts sink = (finish_building_ws_peer opts 0 [] sink true).1

abbrev pub reader_of : WsOptions → ℕ → List SourcePoll → Sink → WsReadWrapper
unfolding finish_building_ws_peer
reader_of opts now stream sink = (finish_building_ws_peer opts now stream sink true).0

module _ (o : Foreign) (opts : WsOptions) (law : IsLawful o) where
  -- The message of a line is read back as the line.
  reader_of-line :
      (now : ℕ) (l : Bytes) (m : OwnedMessage) (ps : List SourcePoll) (sink : Sink) (buf : Bytes)
      → method_of opts.compress_deflate opts.compress_gzip opts.compress_zlib
        ≡ method_of opts.uncompress_deflate opts.uncompress_gzip opts.uncompress_zlib
      → Stands o opts l m
      → 0 < length l
      → length l ≤ length buf
      → ws_read o now (reader_of opts now (message m ∷ ps) sink) buf
        ≡ returns (record {
          after = reader_of opts now ps sink;
          buf = l ++ drop (length l) buf;
          result = ok (length l);
        })
  unfolding ws_read read_loop receive_message finish_building_ws_peer check_debt
  reader_of-line now l m ps sink buf same (as_text x e utf8 own other) some_bytes fits =
      ap (incoming (read_loop o now ps) (reader_of opts now ps sink) buf) (
        process_prefixes_and_base64-line o opts.ws_text_prefix opts.ws_text_base64 x (law.fits x)
        ∙ ap returns (sym e))
      ∙ ap (processed (read_loop o now ps) (reader_of opts now ps sink)) (
          process_message-whole opts.read_debt_handling (zero_messages_of opts.no_exit_on_zeromsg)
            buf l some_bytes fits)
  reader_of-line now l m ps sink buf same (as_binary x e own other) some_bytes fits =
      ap (incoming (read_loop o now ps) (reader_of opts now ps sink) buf) (
        ap (process_prefixes_and_base64 o opts.ws_binary_prefix opts.ws_binary_base64)
          (rw (← same) (uncompress-compress o _ x law))
        ∙ process_prefixes_and_base64-line o opts.ws_binary_prefix opts.ws_binary_base64 x
            (law.fits x)
        ∙ ap returns (sym e))
      ∙ ap (processed (read_loop o now ps) (reader_of opts now ps sink)) (
          process_message-whole opts.read_debt_handling (zero_messages_of opts.no_exit_on_zeromsg)
            buf l some_bytes fits)

  writer_of-line :
      (l : Bytes) (m : OwnedMessage) (sink : Sink)
      → Stands o opts l m
      → message_of o (writer_of opts sink) l ≡ m
  unfolding finish_building_ws_peer
  writer_of-line l m sink (as_text x e utf8 own other) =
      rw e (message_of-text o (writer_of opts sink) x law utf8 own other)
  writer_of-line l m sink (as_binary x e own other) =
      rw e (message_of-binary o (writer_of opts sink) x law own (rw e at other))

  -- What one end writes, the other end reads, if both have the same options, which decompress what they
  -- compress: a line that stands for a message is sent as this message, if the sink takes it, and of this
  -- message the other end reads the line, if it fits the buffer and is not empty.
  pub ws_write-ws_read :
      (now : ℕ) (l : Bytes) (m : OwnedMessage) (rs : List SendReply) (cs : List CompleteReply)
      (sent : List OwnedMessage) (ps : List SourcePoll) (sink : Sink) (buf : Bytes)
      → method_of opts.compress_deflate opts.compress_gzip opts.compress_zlib
        ≡ method_of opts.uncompress_deflate opts.uncompress_gzip opts.uncompress_zlib
      → Stands o opts l m
      → 0 < length l
      → length l ≤ length buf
      → (ws_write o (writer_of opts (record { sends = taken ∷ rs; completes = cs; sent = sent })) l
          ≡ record {
            after = writer_of opts (record { sends = rs; completes = cs; sent = sent ++ m ∷ [] });
            result = ok (length l);
          })
        × (ws_read o now (reader_of opts now (message m ∷ ps) sink) buf
            ≡ returns (record {
              after = reader_of opts now ps sink;
              buf = l ++ drop (length l) buf;
              result = ok (length l);
            }))
  unfolding ws_write start_send writer_of
  ws_write-ws_read now l m rs cs sent ps sink buf same stands some_bytes fits = (
    ap
        (λ n.
          write_gives (writer_of opts (record { sends = taken ∷ rs; completes = cs; sent = sent }))
            (length l) (start_send (record { sends = taken ∷ rs; completes = cs; sent = sent }) n))
        (writer_of-line l m (record { sends = taken ∷ rs; completes = cs; sent = sent }) stands),
    reader_of-line now l m ps sink buf same stands some_bytes fits,
  )
