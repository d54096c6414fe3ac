-- ===== src/HttpQueue/Stream.antt =====
-- The event stream that the broker writes, services/msg_queue/main.go.
use mathlib.Core.List.{append_assoc}
use telemetry_punitha.Prelude.{
  ℕ, ◌+◌, ◌<◌, ◌≡◌, ◌≢◌, refl, ap, ◌∙◌, false, List, [], ◌∷◌, ◌++◌, Text, codes, text_eq, length,
  All, arith, mentions,
}
use telemetry_punitha.Strconv.{itoa}
use telemetry_punitha.MsgQueue.Message.{Message, Codec}
use telemetry_punitha.MsgQueue.Http.{newline}
use telemetry_punitha.MsgQueue.Partition.{Partition, message, fetch_and_track, track}
use telemetry_punitha.MsgQueue.Handlers.{Poll, event, consume_loop}
use telemetry_punitha.HttpQueue.Lines.{
  IsLine, IsLine-append, scan_lines, scan_lines-append, itoa-IsLine,
}

-- The events of some messages.
unfoldable pub stream : Codec → List Message → Text
stream codec [] = []
stream codec (m ∷ ms) = event codec m ++ stream codec ms

-- A message whose event comes through: its JSON text is read back, its ID and its JSON text are
-- lines and not empty, and its lines fit the scanner's buffer.
pub record IsStreamable (codec : Codec) (buffer : ℕ) (m : Message) : Type 0 where
  pub plain : codec.IsPlain m
  pub id_given : m.id ≢ []
  pub json_given : codec.marshal m ≢ []
  pub id_line : IsLine m.id
  pub json_line : IsLine (codec.marshal m)
  pub id_short : length m.id + 4 < buffer
  pub json_short : length (codec.marshal m) + 6 < buffer
  pub partition_short : length (itoa m.partition) + 11 < buffer

module _ (codec : Codec) where
  pub event_append :
      (m : Message) (rest : Text)
      → event codec m ++ rest
        ≡ (codes "id: " ++ m.id)
          ++ newline
            ∷ ((codes "data: " ++ codec.marshal m)
                ++ newline
                  ∷ ((codes "partition: " ++ itoa m.partition) ++ newline ∷ newline ∷ rest))
  unfolding event
  event_append m rest =
      let z = newline ∷ newline ∷ [] in
      let y = newline ∷ (codes "partition: " ++ (itoa m.partition ++ z)) in
      let x = newline ∷ (codes "data: " ++ (codec.marshal m ++ y)) in
      ap (λ l. codes "id: " ++ l)
        (append_assoc m.id x rest
          ∙ ap (λ l. m.id ++ newline ∷ (codes "data: " ++ l))
              (append_assoc (codec.marshal m) y rest
                ∙ ap (λ l. codec.marshal m ++ newline ∷ (codes "partition: " ++ l))
                    (append_assoc (itoa m.partition) z rest)))

  pub scan_lines-event :
      (m : Message) (rest : Text)
      → IsLine m.id
      → IsLine (codec.marshal m)
      → scan_lines (event codec m ++ rest)
        ≡ (codes "id: " ++ m.id)
          ∷ (codes "data: " ++ codec.marshal m)
          ∷ (codes "partition: " ++ itoa m.partition)
          ∷ []
          ∷ scan_lines rest
  unfolding mentions
  scan_lines-event m rest hi hj =
      let id_line = IsLine-append (codes "id: ") m.id (refl, refl) hi in
      let json_line = IsLine-append (codes "data: ") (codec.marshal m) (refl, refl) hj in
      let part_line =
        IsLine-append (codes "partition: ") (itoa m.partition) (refl, refl)
          (itoa-IsLine m.partition) in
      ap scan_lines (event_append m rest)
      ∙ scan_lines-append (codes "id: " ++ m.id) _ id_line
      ∙ ap (λ l. (codes "id: " ++ m.id) ∷ l)
          (scan_lines-append (codes "data: " ++ codec.marshal m) _ json_line
            ∙ ap (λ l. (codes "data: " ++ codec.marshal m) ∷ l)
                (scan_lines-append (codes "partition: " ++ itoa m.partition) _ part_line
                  ∙ ap (λ l. (codes "partition: " ++ itoa m.partition) ∷ l)
                      (scan_lines-append [] rest (refl, refl))))

  -- What the broker writes to a client that stays connected, over as many polls as messages wait.
  pub consume_loop-stream :
      (group : Text) (ms : List Message) (polls : List Poll) (p : Partition)
      → p.queue ≡ ms
      → p.closed ≡ false
      → length polls ≡ length ms
      → All (λ (poll : Poll). poll.gone ≡ false) polls
      → (consume_loop codec group polls p).0 ≡ stream codec ms
  unfolding consume_loop stream
  consume_loop-stream group [] [] p e alive h stays = refl
  consume_loop-stream group [] (poll ∷ polls) p e alive h stays = absurd (omega arith)
  consume_loop-stream group (m ∷ ms) [] p e alive h stays = absurd (omega arith)
  consume_loop-stream group (m ∷ ms) (poll ∷ polls) p e alive h stays =
      let next = track m group poll.now (record p { queue = ms }) in
      let same : next.queue ≡ ms = unfold track in refl in
      let open' : next.closed ≡ false = unfold track in alive in
      let got : fetch_and_track poll.done group poll.now p ≡ (message m, next) =
        unfold fetch_and_track in rw (alive, e) refl in
      let rest = consume_loop-stream group ms polls next same open' (omega arith) stays.1 in
      ground (arith, stays.0, got, rest)
