-- ===== src/Pipeline/Reading.antt =====
-- A row on its way from the collector through the database to a client of the API service.
use telemetry_punitha.Prelude.{
  All, Has, ◌∷◌, zero, suc, has_prefix, ℕ, ◌≡◌, ◌≢◌, ◌≤◌, refl, sym, ap, ◌∙◌, ◌⊎◌, inl, inr, Bool,
  true, false, List, [], ◌++◌, none, some, Text, codes, text_eq, text_eqb_iff, length, ok,
  length-append, has_prefix-append, subst, arith, Option-cases,
}
use telemetry_punitha.Prelude.Int.{ℤ}
use telemetry_punitha.Config.{Environment, load, get_env}
use telemetry_punitha.ServeMux.{route_request, handled}
use telemetry_punitha.ServeMux.Canonical.{IsSegment, device_path, clean_path-device_path}
use telemetry_punitha.Security.{valid_key}
use telemetry_punitha.Security.Access.{Carries, api_key_middleware_iff}
use telemetry_punitha.Services.{collector_influx}
use telemetry_punitha.Metrics.{Prometheus}
use telemetry_punitha.Metrics.Middleware.{StatusText}
use telemetry_punitha.Influx.{TelemetryRecord, Row, point_of, device_query}
use telemetry_punitha.Influx.Client.{
  InfluxDb, InfluxWriter, write_telemetry, query_records, query_telemetry_by_device,
}
use telemetry_punitha.Influx.Stored.{
  IsPlain, IsLineText, nil-IsLineText, IsLinePoint, Flux, query_records-write_telemetry,
}
use telemetry_punitha.Collector.{Formats, field, record_of, handle}
use telemetry_punitha.Collector.Handling.{collect-marshal_array}
use telemetry_punitha.Api.{listed, answer_of, gpu_telemetry}
use telemetry_punitha.Api.Telemetry.{gpu_telemetry_lem}
use telemetry_punitha.Api.Service.{
  HttpRequest, to_guard, to_api, influx_of, routes, gpu, telemetry, handle_endpoint, serve_http,
}
use telemetry_punitha.Api.Guarded.{route_request-gpu}

-- The API service reads from the database, organisation and bucket that the collector writes to.
influx_of-collector_influx : (env : Environment) → influx_of env ≡ collector_influx env
unfolding influx_of collector_influx load get_env
influx_of-collector_influx env = refl

device_routed :
    (method id : Text) → IsSegment id → route_request routes method (device_path id) ≡ handled gpu
device_routed method id seg =
    route_request-gpu method (device_path id)
      (has_prefix-append (codes "/api/v1/gpus/") (id ++ codes "/telemetry"))
      (omega (arith, length-append id (codes "/telemetry"))) (clean_path-device_path id seg)

-- WriteTelemetry as the collector's handler sees it: whether it returned nil.
abbrev pub write_to :
    {F T : Type 0} (db : InfluxDb F T)
    → InfluxWriter
    → db.State
    → TelemetryRecord F T
    → Bool × db.State
write_to db iw s record' =
    let (failure, after) = write_telemetry db iw record' s in
    (elim failure [ none ↦ true | some e ↦ false ], after)

module _ {F T : Type 0} (db : InfluxDb F T) (flux : Flux db) (client : Prometheus F)
    (status_text : StatusText) (formats : Formats F T) (print_time : T → Text) (of_int : ℤ → F)
    (zero_float : F) (env : Environment) where
  field-All :
      (i : ℕ) (csv_record : List Text) → All IsLineText csv_record → IsLineText (field i csv_record)
  unfolding field
  field-All i [] texts = nil-IsLineText
  field-All zero (s ∷ more) (here, texts) = here
  field-All (suc i) (s ∷ more) (here, texts) = field-All i more texts

  record_of-IsLinePoint :
      (csv_record : List Text) (value : F) (timestamp : T)
      → All IsLineText csv_record
      → has_prefix (field 1 csv_record) (codes "#") ≡ false
      → IsLinePoint (point_of (record_of formats csv_record value timestamp))
  unfolding point_of record_of
  record_of-IsLinePoint csv_record value timestamp texts no_comment =
      let at = λ (i : ℕ). field-All i csv_record texts in
      record {
        measurement_text = at 1;
        no_comment = no_comment;
        tag_texts = (at 3, (at 2, (at 4, (at 5, (at 6, (at 7, (at 8, (at 9, (at 11, tt)))))))));
      }

  write_to_done :
      (iw : InfluxWriter) (s after : db.State) (rec : TelemetryRecord F T)
      → write_to db iw s rec ≡ (true, after)
      → ((write_telemetry db iw rec s).0 ≡ none) × ((write_telemetry db iw rec s).1 ≡ after)
  write_to_done iw s after rec e = elim (Option-cases (write_telemetry db iw rec s).0) [
    | inl fine ↦ (fine, ap (λ o. o.1) e)
    | inr (failure, failed) ↦ absurd (ground (arith, ap (λ o. o.0) e, failed))
  ]

  -- A request with the key for the telemetry of a device reaches its handler.
  device_served :
      (s : db.State) (duration : F) (r : HttpRequest) (registry : client.Registry) (id : Text)
      → IsSegment id
      → r.path ≡ device_path id
      → Carries (valid_key (env (codes "API_KEY"))) (to_guard r)
      → let iw = influx_of env in
        serve_http db client status_text formats.parse_time print_time of_int zero_float env s
          duration r registry
        ≡ some (
          telemetry (
              gpu_telemetry formats.parse_time print_time
                (λ text. query_records db iw of_int zero_float text s)
                iw.bucket
                (to_api r)),
          registry,
        )
  unfolding serve_http handle_endpoint
  device_served s duration r registry id seg path carried =
      let passed = (api_key_middleware_iff (env (codes "API_KEY")) (to_guard r)).1 (inr carried) in
      let routed : route_request routes r.method r.path ≡ handled gpu =
        ap (route_request routes r.method) path ∙ device_routed r.method id seg in
      ground (arith, passed, routed)

  answered_device :
      (s : db.State) (r : HttpRequest) (id : Text) (records : List (TelemetryRecord F T))
      → IsSegment id
      → r.method ≡ codes "GET"
      → r.path ≡ device_path id
      → (r.start_time ≡ []) ⊎ (r.end_time ≡ [])
      → query_telemetry_by_device db (collector_influx env) of_int zero_float id s ≡ ok records
      → let iw = influx_of env in
        gpu_telemetry formats.parse_time print_time
          (λ text. query_records db iw of_int zero_float text s)
          iw.bucket
          (to_api r)
        ≡ listed id (length records) records
  unfolding query_telemetry_by_device answer_of
  answered_device s r id records seg get path bound found =
      let iw = influx_of env in
      let query = λ (text : Text). query_records db iw of_int zero_float text s in
      let same = influx_of-collector_influx env in
      let known : query (device_query iw.bucket id) ≡ ok records =
        ap (λ w. query_records db w of_int zero_float (device_query w.bucket id) s) same ∙ found in
      gpu_telemetry_lem formats.parse_time print_time query iw.bucket id (to_api r)
        (ground (arith, text_eqb_iff r.method (codes "GET"))) path seg.whole
      ∙ ground (arith, known, text_eqb_iff r.start_time [], text_eqb_iff r.end_time [])

  -- A row that the collector takes can be read: right after its handler has written the record,
  -- a GET of the device's telemetry with the key and no complete time range is answered with
  -- records that include the row's record, by an API service of the same environment. The JSON
  -- array is read back and is not empty, the row has twelve fields or more with a number and a
  -- time in their places, its fields are valid UTF-8 without control characters and backslashes,
  -- its metric does not begin with #, the time is in the range of the query, the device's ID is
  -- one segment of a path and it and the bucket stand for themselves in a Flux string, and the
  -- database answers the query.
  pub row_answered :
      (s after : db.State) (topic message_id : Text) (csv_record : List Text) (value : F)
      (timestamp : T) (rows : List (Row F T)) (duration : F) (r : HttpRequest)
      (registry : client.Registry)
      → let iw = collector_influx env in
        let id = field 4 csv_record in
        formats.IsPlainArray csv_record
        → formats.marshal_array csv_record ≢ []
        → 12 ≤ length csv_record
        → formats.parse_float (field 10 csv_record) ≡ some value
        → formats.parse_time (field 0 csv_record) ≡ some timestamp
        → flux.InRange timestamp
        → All IsLineText csv_record
        → has_prefix (field 1 csv_record) (codes "#") ≡ false
        → IsPlain iw.bucket
        → IsPlain id
        → IsSegment id
        → handle formats (write_to db iw) s topic (formats.marshal_array csv_record) message_id
          ≡ (true, after)
        → db.query iw (device_query iw.bucket id) after ≡ ok (rows, none)
        → r.method ≡ codes "GET"
        → r.path ≡ device_path id
        → (r.start_time ≡ []) ⊎ (r.end_time ≡ [])
        → Carries (valid_key (env (codes "API_KEY"))) (to_guard r)
        → (records : List (TelemetryRecord F T)) × (serve_http db client status_text
              formats.parse_time print_time of_int zero_float env after duration r registry
            ≡ some (telemetry (listed id (length records) records), registry))
          × Has (record_of formats csv_record value timestamp) records
  row_answered s after topic message_id csv_record value timestamp rows duration r registry plain
        given long number date range carried_texts no_comment bucket quoted seg handled' answered
        get path bound carried =
      let iw = collector_influx env in
      let id = field 4 csv_record in
      let rec = record_of formats csv_record value timestamp in
      let same : rec.uuid ≡ id = unfold record_of in refl in
      let time : rec.time ≡ timestamp = unfold record_of in refl in
      let read =
        collect-marshal_array formats csv_record value timestamp plain given long number date in
      let stepped : handle formats (write_to db iw) s topic (formats.marshal_array csv_record)
            message_id
          ≡ write_to db iw s rec =
        unfold handle in ground (arith, read) in
      let (fine, then') = write_to_done iw s after rec (sym stepped ∙ handled') in
      let asked : db.query iw (device_query iw.bucket rec.uuid) (write_telemetry db iw rec s).1
          ≡ ok (rows, none) =
        ap (λ u. db.query iw (device_query iw.bucket u) (write_telemetry db iw rec s).1) same
        ∙ ap (λ a. db.query iw (device_query iw.bucket id) a) then'
        ∙ answered in
      let (records, found, there) =
        query_records-write_telemetry of_int zero_float db flux iw rec s rows bucket
          (subst IsPlain (sym same) quoted) (λ e. seg.given (sym same ∙ e))
          (subst flux.InRange (sym time) range)
          (record_of-IsLinePoint csv_record value timestamp carried_texts no_comment) fine asked in
      let listed' = answered_device after r id records seg get path bound (
        sym (ap (λ w. query_telemetry_by_device db iw of_int zero_float id w) then')
        ∙ sym (
            ap
              (λ u.
                query_telemetry_by_device db iw of_int zero_float u (write_telemetry db iw rec s).1)
              same)
        ∙ found) in
      (
        records,
        device_served after duration r registry id seg path carried
            ∙ ap (λ a. some (telemetry a, registry)) listed',
        there,
      )
