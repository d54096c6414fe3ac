-- ===== src/Pipeline/Arrival.antt =====
-- A row of the streamer on its way from the broker's queue to the collector's database.
use telemetry_punitha.Prelude.{
  ℕ, ◌≡◌, ◌≢◌, ◌≤◌, ap, ◌∙◌, Bool, true, false, List, [], ◌∷◌, ◌++◌, some, Text, codes, length,
  has_prefix, All, if◌then◌else◌, arith,
}
use telemetry_punitha.Prelude.Int.{ℤ}
use telemetry_punitha.MsgQueue.Message.{Message, Codec}
use telemetry_punitha.MsgQueue.Http.{trim_space}
use telemetry_punitha.MsgQueue.Partition.{Partition}
use telemetry_punitha.MsgQueue.Broker.{Broker}
use telemetry_punitha.MsgQueue.Broker.Registry.{find}
use telemetry_punitha.MsgQueue.Handlers.{Bodies, ProduceCall, Poll, message_of, consume_loop}
use telemetry_punitha.MsgQueue.Handlers.Delivery.{IsStored}
use telemetry_punitha.HttpQueue.{HttpMessageQueue, JsonMap, Sent, ack_url, scan}
use telemetry_punitha.HttpQueue.Lines.{scan_lines}
use telemetry_punitha.HttpQueue.Stream.{IsStreamable}
use telemetry_punitha.HttpQueue.Delivery.{handle_all, scan-consume_loop}
use telemetry_punitha.HttpQueue.Subscribing.{handle_all-append}
use telemetry_punitha.Influx.{TelemetryRecord}
use telemetry_punitha.Collector.{Formats, field, record_of, collected, collect, handle}
use telemetry_punitha.Collector.Handling.{collect-message_of}

module _ {ℓ} {F T : Type 0} {S : Type ℓ} (formats : Formats F T)
    (write : S → TelemetryRecord F T → Bool × S) (codec : Codec) (json : JsonMap)
    (h : HttpMessageQueue) where
  abbrev collector : S → Text → Text → Text → Bool × S
  collector = handle formats write

  -- The messages before, and then the write of the record.
  abbrev pub After : List Message → Message → TelemetryRecord F T → S → Sent × S → Type ℓ
  After earlier m rec database outcome =
      let (posted, before) = handle_all codec json h (handle formats write) earlier database in
      (outcome.1 ≡ (write before rec).1)
      × (outcome.0
          ≡ posted
            ++ (if (write before rec).0
                then (ack_url h m.topic m.partition, json.entry (codes "id") m.id) ∷ []
                else []))

  handle_all-last :
      (earlier : List Message) (m : Message) (rec : TelemetryRecord F T) (database : S)
      → collect formats m.payload ≡ collected rec
      → After earlier m rec database
          (handle_all codec json h collector (earlier ++ m ∷ []) database)
  handle_all-last earlier m rec database e =
      let before = (handle_all codec json h collector earlier database).1 in
      let one : handle_all codec json h collector (m ∷ []) before ≡ (
        if (write before rec).0
            then (ack_url h m.topic m.partition, json.entry (codes "id") m.id) ∷ []
            else [],
        (write before rec).1,
      ) =
        unfold handle_all in unfold handle in ground (arith, e) in
      let both = handle_all-append codec json h collector earlier (m ∷ []) database in
      (
        ap (λ o. o.1) both ∙ ap (λ o. o.1) one,
        ap (λ o. o.0) both
            ∙ ap (λ o. (handle_all codec json h collector earlier database).0 ++ o.0) one,
      )

  -- A row that the streamer published and the broker stored arrives: a consumer that stays
  -- connected, and whose polls empty the open partition, makes the collector handle the messages
  -- before it and then write the record of the row's fields, and it acknowledges the message
  -- exactly if that write succeeds. The broker reads the payload in the client's body, the JSON
  -- array is read back and is not empty, the row has twelve fields or more with a number and a
  -- time in their places, and the messages are streamable.
  pub row_arrives :
      (bodies : Bodies) (call : ProduceCall) (buffer : ℕ) (group topic : Text) (part : ℤ)
      (csv_record : List Text) (value : F) (timestamp : T) (polls : List Poll) (b c : Broker)
      (q : Partition) (database : S)
      → let payload = formats.marshal_array csv_record in
        let body = json.entry (codes "payload") payload in
        let m = message_of codec bodies call topic part body in
        has_prefix (trim_space body) (codes "{") ≡ true
        → bodies.payload_field (trim_space body) ≡ some payload
        → formats.IsPlainArray csv_record
        → payload ≢ []
        → 12 ≤ length csv_record
        → formats.parse_float (field 10 csv_record) ≡ some value
        → formats.parse_time (field 0 csv_record) ≡ some timestamp
        → IsStored call.env topic part m b c
        → find topic part c ≡ some q
        → q.closed ≡ false
        → length polls ≡ length q.queue
        → All (λ (poll : Poll). poll.gone ≡ false) polls
        → All (IsStreamable codec buffer) q.queue
        → (earlier : List Message) × (q.queue ≡ earlier ++ m ∷ [])
          × After earlier m (record_of formats csv_record value timestamp) database (
              scan codec json h
                (handle formats write)
                buffer
                (scan_lines (consume_loop codec group polls q).0)
                []
                []
                database)
  row_arrives bodies call buffer group topic part csv_record value timestamp polls b c q database
        object there plain given long number date (p, got, stored) found alive turns stays good =
      let m =
        message_of codec bodies call topic part
          (json.entry (codes "payload") (formats.marshal_array csv_record)) in
      let rec = record_of formats csv_record value timestamp in
      let queue : q.queue ≡ p.queue ++ m ∷ [] = ground (arith, stored, found) in
      let read =
        collect-message_of formats codec bodies call json topic part csv_record value timestamp
          object there plain given long number date in
      let (last, posted) = handle_all-last p.queue m rec database read in
      let all =
        scan-consume_loop codec json h collector buffer group polls q database alive turns stays
          good
        ∙ ap (λ l. handle_all codec json h collector l database) queue in
      (p.queue, queue, (ap (λ o. o.1) all ∙ last, ap (λ o. o.0) all ∙ posted))
