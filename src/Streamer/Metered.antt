-- ===== src/Streamer/Metered.antt =====
-- StreamCSV of services/streamer/stream_csv.go with its metrics.
use mathlib.Core.Option.{bind}
use telemetry_punitha.Prelude.{
  ℕ, ◌+◌, ◌≡◌, ◌≢◌, refl, Bool, true, false, List, [], ◌∷◌, Option, some, Text, codes, ltb,
  text_eqb, text_eqb_iff, sym, length, Result, ok, err, if◌then◌else◌, arith, Bool-cases, inl, inr,
}
use telemetry_punitha.Metrics.Utf8.{is_utf8, all_utf8}
use telemetry_punitha.Metrics.{
  messages_produced, telemetry_data_points, Prometheus, record_message_produced,
  record_telemetry_data_point,
}
use telemetry_punitha.Streamer.{Read, row, broken, publish_attempts, max_retries, stream_rows}

abbrev service : Text
service = codes "streamer-service"

abbrev topic_labels : List Text
topic_labels = service ∷ codes "telemetry" ∷ []

abbrev record_labels : List Text
record_labels = service ∷ codes "csv_record" ∷ []

module _ {ℓ} {G : Type 0} {S : Type ℓ} (client : Prometheus G) (marshal : List Text → Text)
    (publish : S → Text → Bool × S) where
  open client use {Registry}

  -- The metrics of a record, which are recorded only if it was published; `none` is a panic of the
  -- Prometheus client.
  unfoldable pub record_published : Bool → Registry → Option Registry
  record_published published r = elim published [
    | false ↦ some r
    | true ↦
        bind (record_message_produced client service (codes "telemetry") r)
          (record_telemetry_data_point client service (codes "csv_record"))
  ]

  unfoldable pub metered_rows :
      List Read → Bool → ℕ → Registry → S → Option (Result Text ℕ × (Registry × S))
  unfolding record_published
  metered_rows [] skip_header record_count r state = some (ok record_count, (r, state))
  metered_rows (broken e ∷ reads) skip_header record_count r state = some (err e, (r, state))
  metered_rows (row rec ∷ reads) true record_count r state =
      metered_rows reads false record_count r state
  metered_rows (row rec ∷ reads) false record_count r state = elim (ltb (length rec) 12) [
    | true ↦ metered_rows reads false record_count r state
    | false ↦
        let (published, after) =
          publish_attempts marshal publish (max_retries marshal publish) (marshal rec) state in
        bind (record_published published r)
          (λ r1. metered_rows reads false (record_count + 1) r1 after)
  ]

  -- The records that are published, up to the end of the file or the first error.
  unfoldable pub successes : List Read → Bool → S → ℕ
  successes [] skip_header state = 0
  successes (broken e ∷ reads) skip_header state = 0
  successes (row rec ∷ reads) true state = successes reads false state
  successes (row rec ∷ reads) false state = elim (ltb (length rec) 12) [
    | true ↦ successes reads false state
    | false ↦
        let (published, after) =
          publish_attempts marshal publish (max_retries marshal publish) (marshal rec) state in
        let rest = successes reads false after in if published then 1 + rest else rest
  ]

  abbrev count : Registry → Registry
  count r =
      client.inc telemetry_data_points record_labels (client.inc messages_produced topic_labels r)

  -- What `n` published records add.
  pub record Counted (n : ℕ) (r after : Registry) : Type 0 where
    pub produced :
        client.total messages_produced.name topic_labels after
        ≡ client.total messages_produced.name topic_labels r + n
    pub data_points :
        client.total telemetry_data_points.name record_labels after
        ≡ client.total telemetry_data_points.name record_labels r + n

  names_differ : messages_produced.name ≢ telemetry_data_points.name
  unfolding text_eqb
  names_differ e = ground (arith, text_eqb_iff messages_produced.name telemetry_data_points.name)

  Counted-count : (n : ℕ) (r after : Registry) → Counted n (count r) after → Counted (1 + n) r after
  Counted-count n r after c =
      let once = client.inc messages_produced topic_labels r in
      record {
        produced = omega (
          arith,
          c.produced,
          client.total-inc messages_produced topic_labels r,
          client.total-inc_other telemetry_data_points record_labels topic_labels
              messages_produced.name once (λ e. names_differ (sym e)),
        );
        data_points = omega (
          arith,
          c.data_points,
          client.total-inc telemetry_data_points record_labels once,
          client.total-inc_other messages_produced topic_labels record_labels
              telemetry_data_points.name r names_differ,
        );
      }

  -- The loop of StreamCSV over the rows of a file does not panic with its metrics, publishes and
  -- counts its records as it does without them, and adds to both counters the number of records
  -- that are published.
  pub metered_rows_lem :
      (reads : List Read) (skip_header : Bool) (record_count : ℕ) (r : Registry) (state : S)
      → (after : Registry) × (metered_rows reads skip_header record_count r state
          ≡ some (
            (stream_rows marshal publish reads skip_header record_count state).0,
            (after, (stream_rows marshal publish reads skip_header record_count state).1),
          ))
        × Counted (successes reads skip_header state) r after
  unfolding metered_rows stream_rows successes record_published record_message_produced
      record_telemetry_data_point bind all_utf8 is_utf8
  metered_rows_lem [] skip_header n r state =
      (r, refl, record { produced = omega arith; data_points = omega arith })
  metered_rows_lem (broken e ∷ reads) skip_header n r state =
      (r, refl, record { produced = omega arith; data_points = omega arith })
  metered_rows_lem (row rec ∷ reads) true n r state = metered_rows_lem reads false n r state
  metered_rows_lem (row rec ∷ reads) false n r state = elim (Bool-cases (ltb (length rec) 12)) [
    | inl short ↦
        let (after, same, counted) = metered_rows_lem reads false n r state in
        (after, rw (metered_rows, stream_rows, short) same, rw (successes, short) counted)
    | inr whole ↦
        let done =
          publish_attempts marshal publish (max_retries marshal publish) (marshal rec) state in
        elim (Bool-cases done.0) [
          | inl published ↦
              let (after, same, counted) = metered_rows_lem reads false (n + 1) (count r) done.1 in
              (
                after,
                rw (metered_rows, stream_rows, whole, published) same,
                rw (successes, whole, published) (Counted-count _ r after counted),
              )
          | inr failed ↦
              let (after, same, counted) = metered_rows_lem reads false (n + 1) r done.1 in
              (
                after,
                rw (metered_rows, stream_rows, whole, failed) same,
                rw (successes, whole, failed) counted,
              )
        ]
  ]
