-- ===== src/Metrics/Collecting.antt =====
-- The handler of services/collector/main.go with its metrics.
use mathlib.Core.Option.{bind}
use telemetry_punitha.Prelude.{
  ℕ, ◌+◌, ◌≡◌, ◌≢◌, refl, ◌∙◌, Bool, true, false, List, [], ◌∷◌, Option, some, Text, codes, text_eq,
  text_eqb, text_eqb_iff, if◌then◌else◌, arith, Bool-cases, inl, inr,
}
use telemetry_punitha.Influx.{TelemetryRecord}
use telemetry_punitha.Collector.{Formats, skipped, bad_json, collected, collect, handle}
use telemetry_punitha.Collector.Handling.{Collected-cases}
use telemetry_punitha.Metrics.Utf8.{is_utf8, all_utf8}
use telemetry_punitha.Metrics.{
  Vector, messages_consumed, message_processing_duration, telemetry_data_points,
  database_operations, database_operation_duration, Prometheus, record_message_consumed,
  record_message_processing, record_database_operation, record_telemetry_data_point,
}

abbrev pub service : Text
service = codes "collector-service"

module _ {ℓ} {F T G : Type 0} {S : Type ℓ} (client : Prometheus G) (formats : Formats F T)
    (write : S → TelemetryRecord F T → Bool × S) where
  open client use {Registry}

  -- The metrics of a write, with the time that it took.
  record_write : Bool → G → Registry → Option Registry
  record_write written duration r = elim written [
    | false ↦ record_database_operation client service (codes "write") (codes "error") duration r
    | true ↦
        bind (record_database_operation client service (codes "write") (codes "success") duration r)
          (record_telemetry_data_point client service (codes "gpu_metric"))
  ]

  -- The handler; `none` is a panic of the Prometheus client. `taken` is the time that it takes,
  -- and `writing` that of its write.
  unfoldable pub metered_handle :
      G → G → Text → Text → Text → Registry × S → Option (Bool × (Registry × S))
  unfolding record_write
  metered_handle taken writing topic body id (r, database) =
      bind (record_message_consumed client service topic r) (λ r1. elim (collect formats body) [
        | skipped ↦
            bind (record_message_processing client service topic taken r1)
              (λ r2. some (true, (r2, database)))
        | bad_json ↦
            bind (record_message_processing client service topic taken r1)
              (λ r2. some (false, (r2, database)))
        | collected data' ↦
            let (written, after) = write database data' in
            bind (record_write written writing r1) (λ r2.
              bind (record_message_processing client service topic taken r2)
                (λ r3. some (written, (r3, after))))
      ])

  -- Whether the body becomes a record that is written.
  abbrev pub stores : Text → S → Bool
  stores body database = elim (collect formats body) [
    | skipped ↦ false
    | bad_json ↦ false
    | collected data' ↦ (write database data').0
  ]

  abbrev of_topic : Vector → Text → Registry → ℕ
  of_topic v topic r = client.total v.name (service ∷ topic ∷ []) r

  -- What one message adds.
  pub record Counts (topic : Text) (stored : Bool) (r after : Registry) : Type 0 where
    pub consumed : of_topic messages_consumed topic after ≡ of_topic messages_consumed topic r + 1
    pub processed :
        of_topic message_processing_duration topic after
        ≡ of_topic message_processing_duration topic r + 1
    pub data_points :
        of_topic telemetry_data_points (codes "gpu_metric") after
        ≡ of_topic telemetry_data_points (codes "gpu_metric") r + (if stored then 1 else 0)

  differ : (a b : Text) → text_eqb a b ≡ false → a ≢ b
  differ a b h e = ground (arith, text_eqb_iff a b)

  other_inc :
      (v w : Vector) (ls ms : List Text) (r : Registry)
      → text_eqb v.name w.name ≡ false
      → client.total w.name ms (client.inc v ls r) ≡ client.total w.name ms r
  other_inc v w ls ms r h = client.total-inc_other v ls ms w.name r (differ v.name w.name h)

  other_observe :
      (v w : Vector) (ls ms : List Text) (x : G) (r : Registry)
      → text_eqb v.name w.name ≡ false
      → client.total w.name ms (client.observe v ls x r) ≡ client.total w.name ms r
  other_observe v w ls ms x r h =
      client.total-observe_other v ls ms w.name x r (differ v.name w.name h)

  module _ (topic : Text) (taken writing : G) where
    abbrev topic_labels : List Text
    topic_labels = service ∷ topic ∷ []

    abbrev point_labels : List Text
    point_labels = service ∷ codes "gpu_metric" ∷ []

    abbrev consume : Registry → Registry
    consume r = client.inc messages_consumed topic_labels r

    abbrev process : Registry → Registry
    process r = client.observe message_processing_duration topic_labels taken r

    -- The two counters of the database are others.
    abbrev operate : Text → Registry → Registry
    operate status r =
        client.observe database_operation_duration (service ∷ codes "write" ∷ []) writing
          (client.inc database_operations (service ∷ codes "write" ∷ status ∷ []) r)

    operate_other :
        (w : Vector) (status : Text) (ms : List Text) (r : Registry)
        → text_eqb database_operation_duration.name w.name ≡ false
        → text_eqb database_operations.name w.name ≡ false
        → client.total w.name ms (operate status r) ≡ client.total w.name ms r
    operate_other w status ms r h k =
        other_observe database_operation_duration w (service ∷ codes "write" ∷ []) ms writing _ h
        ∙ other_inc database_operations w (service ∷ codes "write" ∷ status ∷ []) ms r k

    around :
        (n : ℕ) (r mid : Registry)
        → ((w : Vector) (ms : List Text)
            → text_eqb telemetry_data_points.name w.name ≡ false
            → text_eqb database_operation_duration.name w.name ≡ false
            → text_eqb database_operations.name w.name ≡ false
            → client.total w.name ms mid ≡ client.total w.name ms (consume r))
        → client.total telemetry_data_points.name point_labels mid
          ≡ client.total telemetry_data_points.name point_labels (consume r) + n
        → (of_topic messages_consumed topic (process mid) ≡ of_topic messages_consumed topic r + 1)
          × (of_topic message_processing_duration topic (process mid)
              ≡ of_topic message_processing_duration topic r + 1)
          × (of_topic telemetry_data_points (codes "gpu_metric") (process mid)
              ≡ of_topic telemetry_data_points (codes "gpu_metric") r + n)
    unfolding text_eqb
    around n r mid same points = (
      omega (
        arith,
        other_observe message_processing_duration messages_consumed topic_labels topic_labels taken
            mid refl,
        same messages_consumed topic_labels refl refl refl,
        client.total-inc messages_consumed topic_labels r,
      ),
      omega (
        arith,
        client.total-observe message_processing_duration topic_labels taken mid,
        same message_processing_duration topic_labels refl refl refl,
        other_inc messages_consumed message_processing_duration topic_labels topic_labels r refl,
      ),
      omega (
        arith,
        other_observe message_processing_duration telemetry_data_points topic_labels point_labels
            taken mid refl,
        points,
        other_inc messages_consumed telemetry_data_points topic_labels point_labels r refl,
      ),
    )

    counts_of :
        (stored : Bool) (r mid : Registry)
        → ((w : Vector) (ms : List Text)
            → text_eqb telemetry_data_points.name w.name ≡ false
            → text_eqb database_operation_duration.name w.name ≡ false
            → text_eqb database_operations.name w.name ≡ false
            → client.total w.name ms mid ≡ client.total w.name ms (consume r))
        → client.total telemetry_data_points.name point_labels mid
          ≡ client.total telemetry_data_points.name point_labels (consume r)
            + (if stored then 1 else 0)
        → Counts topic stored r (process mid)
    counts_of stored r mid same points =
        let (c, p, d) = around (if stored then 1 else 0) r mid same points in
        record { consumed = c; processed = p; data_points = d }

    unwritten : (r : Registry) → Counts topic false r (process (consume r))
    unwritten r = counts_of false r (consume r) (λ w ms h k l. refl) (omega arith)

    failed_write :
        (r : Registry) → Counts topic false r (process (operate (codes "error") (consume r)))
    unfolding text_eqb
    failed_write r =
        counts_of false r (operate (codes "error") (consume r))
          (λ w ms h k l. operate_other w (codes "error") ms (consume r) k l)
          (omega (
            arith,
            operate_other telemetry_data_points (codes "error") point_labels (consume r) refl refl,
          ))

    written :
        (r : Registry)
        → Counts topic true r (
            process (
              client.inc telemetry_data_points point_labels
                (operate (codes "success") (consume r))))
    unfolding text_eqb
    written r =
        let done = operate (codes "success") (consume r) in
        counts_of true r (client.inc telemetry_data_points point_labels done)
          (λ w ms h k l.
            other_inc telemetry_data_points w point_labels ms done h
            ∙ operate_other w (codes "success") ms (consume r) k l)
          (omega (
            arith,
            client.total-inc telemetry_data_points point_labels done,
            operate_other telemetry_data_points (codes "success") point_labels (consume r) refl
                refl,
          ))

    service_valid : is_utf8 service ≡ true
    unfolding is_utf8
    service_valid = refl

    -- The metrics of a write have no label that depends on the message.
    record_write_lem :
        (done : Bool) (r : Registry)
        → record_write done writing r
          ≡ some (
              if done
              then client.inc telemetry_data_points point_labels (operate (codes "success") r)
              else operate (codes "error") r)
    unfolding record_write record_database_operation record_telemetry_data_point bind all_utf8
        is_utf8
    record_write_lem true r = refl
    record_write_lem false r = refl

    -- On a topic that is valid UTF-8 the collector's handler with its metrics does not panic,
    -- and answers and writes as the handler without them does; whatever becomes of the message,
    -- it counts it once as consumed and once as processed, and it counts a data point exactly if
    -- a record was written.
    pub metered_handle_lem :
        (body id : Text) (r : Registry) (database : S)
        → is_utf8 topic ≡ true
        → (after : Registry) × (metered_handle taken writing topic body id (r, database)
            ≡ some (
              (handle formats write database topic body id).0,
              (after, (handle formats write database topic body id).1),
            ))
          × Counts topic (stores body database) r after
    unfolding metered_handle handle record_message_consumed record_message_processing bind all_utf8
    metered_handle_lem body id r database valid =
        let s = service_valid in
        elim (Collected-cases (collect formats body)) [
          | inl skip ↦ (
            process (consume r),
            rw (handle, skip, s, valid) refl,
            rw (stores, skip) (unwritten r),
          )
          | inr (inl bad) ↦
              (process (consume r), rw (handle, bad, s, valid) refl, rw (stores, bad) (unwritten r))
          | inr (inr (rec, got)) ↦ elim (Bool-cases (write database rec).0) [
            | inl stored ↦ (
              process (
                  client.inc telemetry_data_points point_labels
                    (operate (codes "success") (consume r))),
              rw (handle, got, stored, s, valid, record_write_lem true (consume r)) refl,
              rw (stores, got, stored) (written r),
            )
            | inr lost ↦ (
              process (operate (codes "error") (consume r)),
              rw (handle, got, lost, s, valid, record_write_lem false (consume r)) refl,
              rw (stores, got, lost) (failed_write r),
            )
          ]
        ]
