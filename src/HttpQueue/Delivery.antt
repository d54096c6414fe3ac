-- ===== src/HttpQueue/Delivery.antt =====
-- The client that reads the broker's event stream, internal/shared/http_message_queue.go.
use mathlib.Core.List.{append_assoc, append-nil}
use telemetry_punitha.Prelude.{
  ℕ, ◌+◌, ◌<◌, ◌≡◌, ◌≢◌, refl, sym, ap, ◌∙◌, Bool, true, false, not, ◌&&◌, List, [], ◌∷◌, ◌++◌,
  Text, codes, text_eq, text_eqb, text_eqb_iff, ◌==◌, ltb, lt→ltb, length, All, has_prefix,
  has_prefix-append, trim_prefix, trim_prefix-append, if◌then◌else◌, arith,
}
use telemetry_punitha.Strconv.{itoa}
use telemetry_punitha.MsgQueue.Message.{Message, Codec}
use telemetry_punitha.MsgQueue.Partition.{Partition}
use telemetry_punitha.MsgQueue.Handlers.{Poll, event, consume_loop}
use telemetry_punitha.HttpQueue.{HttpMessageQueue, JsonMap, Sent, ack_url, deliver, scan}
use telemetry_punitha.HttpQueue.Lines.{scan_lines, scan_lines-nil}
use telemetry_punitha.HttpQueue.Stream.{IsStreamable, stream, scan_lines-event, consume_loop-stream}

module _ {ℓ} {S : Type ℓ} (codec : Codec) (json : JsonMap) (h : HttpMessageQueue)
    (handler : S → Text → Text → Text → Bool × S) where
  -- The messages handled one after another: each one that the handler takes is acknowledged.
  unfoldable pub handle_all : List Message → S → Sent × S
  handle_all [] state = ([], state)
  handle_all (m ∷ ms) state =
      let (success, after) = handler state m.topic m.payload m.id in
      let (more, last) = handle_all ms after in
      (
        if success
            then (ack_url h m.topic m.partition, json.entry (codes "id") m.id) ∷ more
            else more,
        last,
      )

  scan_id :
      (buffer : ℕ) (id i d : Text) (lines : List Text) (state : S)
      → length id + 4 < buffer
      → scan codec json h handler buffer ((codes "id: " ++ id) ∷ lines) i d state
        ≡ scan codec json h handler buffer lines id d state
  unfolding scan
  scan_id buffer id i d lines state short =
      let fits : ltb (length (codes "id: " ++ id)) buffer ≡ true = lt→ltb _ _ (omega arith) in
      ground
        (arith, fits, has_prefix-append (codes "id: ") id, trim_prefix-append (codes "id: ") id)

  scan_data :
      (buffer : ℕ) (data' i d : Text) (lines : List Text) (state : S)
      → length data' + 6 < buffer
      → scan codec json h handler buffer ((codes "data: " ++ data') ∷ lines) i d state
        ≡ scan codec json h handler buffer lines i data' state
  unfolding scan
  scan_data buffer data' i d lines state short =
      let fits : ltb (length (codes "data: " ++ data')) buffer ≡ true = lt→ltb _ _ (omega arith) in
      let no_id : has_prefix (codes "data: " ++ data') (codes "id: ") ≡ false =
        unfold has_prefix in refl in
      ground (
        arith,
        fits,
        no_id,
        has_prefix-append (codes "data: ") data',
        trim_prefix-append (codes "data: ") data',
      )

  scan_partition :
      (buffer : ℕ) (part i d : Text) (lines : List Text) (state : S)
      → length part + 11 < buffer
      → scan codec json h handler buffer ((codes "partition: " ++ part) ∷ lines) i d state
        ≡ scan codec json h handler buffer lines i d state
  unfolding scan text_eqb
  scan_partition buffer part i d lines state short =
      let fits : ltb (length (codes "partition: " ++ part)) buffer ≡ true =
        lt→ltb _ _ (omega arith) in
      let no_id : has_prefix (codes "partition: " ++ part) (codes "id: ") ≡ false =
        unfold has_prefix in refl in
      let no_data : has_prefix (codes "partition: " ++ part) (codes "data: ") ≡ false =
        unfold has_prefix in refl in
      ground (arith, fits, no_id, no_data)

  scan_blank :
      (buffer : ℕ) (i d : Text) (lines : List Text) (state : S)
      → 0 < buffer
      → i ≢ []
      → d ≢ []
      → scan codec json h handler buffer ([] ∷ lines) i d state ≡ (
        (deliver codec json h handler d state).0
            ++ (scan codec json h handler buffer lines [] []
                (deliver codec json h handler d state).1).0,
        (scan codec json h handler buffer lines [] [] (deliver codec json h handler d state).1).1,
      )
  unfolding scan
  scan_blank buffer i d lines state short hi hd =
      let fits : ltb 0 buffer ≡ true = lt→ltb _ _ short in
      let complete : (◌==◌ {A = Text} [] [] && (not (i == []) && not (d == []))) ≡ true =
        ground (arith, text_eqb_iff [] [], text_eqb_iff i [], text_eqb_iff d []) in
      let no_id : has_prefix [] (codes "id: ") ≡ false = unfold has_prefix in refl in
      let no_data : has_prefix [] (codes "data: ") ≡ false = unfold has_prefix in refl in
      ground (arith, fits, no_id, no_data, complete)

  deliver-marshal :
      (m : Message) (state : S)
      → codec.IsPlain m
      → deliver codec json h handler (codec.marshal m) state ≡ (
          let (success, after) = handler state m.topic m.payload m.id in
          (
            if success
                then (ack_url h m.topic m.partition, json.entry (codes "id") m.id) ∷ []
                else [],
            after,
          ))
  unfolding deliver
  deliver-marshal m state plain = ground (arith, codec.unmarshal-marshal m plain)

  -- Nothing is handled before an empty line.
  scan_given :
      (buffer : ℕ) (lines : List Text) (i d : Text) (state : S)
      → All (λ (line : Text). (line == []) ≡ false) lines
      → scan codec json h handler buffer lines i d state ≡ ([], state)
  unfolding scan
  scan_given buffer [] i d state given = refl
  scan_given buffer (line ∷ lines) i d state (one, given) = ground (
    arith,
    one,
    scan_given buffer lines (trim_prefix line (codes "id: ")) d state given,
    scan_given buffer lines i (trim_prefix line (codes "data: ")) state given,
    scan_given buffer lines i d state given,
  )

  -- The client handles exactly the messages of the stream, in their order, each one once, and posts
  -- an acknowledgement for exactly those that its handler takes; a part behind the events that has
  -- no empty line changes nothing.
  pub scan-stream_part :
      (buffer : ℕ) (ms : List Message) (part : Text) (state : S)
      → All (IsStreamable codec buffer) ms
      → All (λ (line : Text). (line == []) ≡ false) (scan_lines part)
      → scan codec json h handler buffer (scan_lines (stream codec ms ++ part)) [] [] state
        ≡ handle_all ms state
  unfolding stream handle_all
  scan-stream_part buffer [] part state good given =
      scan_given buffer (scan_lines part) [] [] state given
  scan-stream_part buffer (m ∷ ms) part state (g, good) given =
      let s = handler state m.topic m.payload m.id in
      ap (λ l. scan codec json h handler buffer l [] [] state)
        (ap scan_lines (append_assoc (event codec m) (stream codec ms) part)
          ∙ scan_lines-event codec m (stream codec ms ++ part) g.id_line g.json_line)
      ∙ scan_id buffer m.id [] [] _ state g.id_short
      ∙ scan_data buffer (codec.marshal m) m.id [] _ state g.json_short
      ∙ scan_partition buffer (itoa m.partition) m.id (codec.marshal m) _ state g.partition_short
      ∙ scan_blank buffer m.id (codec.marshal m) _ state (omega (arith, g.id_short)) g.id_given
          g.json_given
      ∙ (rw (deliver-marshal m state g.plain, scan-stream_part buffer ms part s.1 good given)
          (ground arith))

  pub scan-stream :
      (buffer : ℕ) (ms : List Message) (state : S)
      → All (IsStreamable codec buffer) ms
      → scan codec json h handler buffer (scan_lines (stream codec ms)) [] [] state
        ≡ handle_all ms state
  scan-stream buffer ms state good =
      ap (λ text. scan codec json h handler buffer (scan_lines text) [] [] state)
        (sym (append-nil (stream codec ms)))
      ∙ scan-stream_part buffer ms [] state good (rw scan_lines-nil tt)

  -- From the queue of an open partition to the client's handler: what consumeHandler writes to a
  -- client that stays connected, over as many polls as messages wait, makes the client handle
  -- exactly these messages, in the order of the queue, and acknowledge exactly those that its
  -- handler takes. The messages are streamable: their JSON texts are read back, and their IDs
  -- and JSON texts are not empty, are single lines, and fit the scanner's buffer.
  pub scan-consume_loop :
      (buffer : ℕ) (group : Text) (polls : List Poll) (p : Partition) (state : S)
      → p.closed ≡ false
      → length polls ≡ length p.queue
      → All (λ (poll : Poll). poll.gone ≡ false) polls
      → All (IsStreamable codec buffer) p.queue
      → scan codec json h handler buffer
          (scan_lines (consume_loop codec group polls p).0)
          []
          []
          state
        ≡ handle_all p.queue state
  scan-consume_loop buffer group polls p state alive h' stays good =
      ap (λ s. scan codec json h handler buffer (scan_lines s) [] [] state)
        (consume_loop-stream codec group p.queue polls p refl alive h' stays)
      ∙ scan-stream buffer p.queue state good
