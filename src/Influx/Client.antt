-- ===== src/Influx/Client.antt =====
-- InfluxWriter of internal/influx/influx.go: the writes and queries of one organisation's bucket.
use telemetry_punitha.Prelude.{List, ◌++◌, Option, Text, codes, Result, ok, err}
use telemetry_punitha.Prelude.Int.{ℤ}
use telemetry_punitha.Influx.{
  TelemetryRecord, Point, Row, point_of, parse_query_results, query_unique_uuids, recent_query,
  device_query,
}

-- The client is given by the URL and the token that it was made with.
pub record InfluxWriter : Type 0 where
  pub url : Text
  pub token : Text
  pub org : Text
  pub bucket : Text

unfoldable pub new_influx_writer : Text → Text → Text → Text → InfluxWriter
new_influx_writer url token org bucket = record {
  url = url;
  token = token;
  org = org;
  bucket = bucket;
}

-- The client library with the database behind it: a write gives an error or none, and a query
-- an error, or the rows with the error that ended them, if one did.
pub record InfluxDb (F T : Type 0) : Type 1 where
  pub State : Type 0
  pub write_point : InfluxWriter → Point F T → State → Option Text × State
  pub query : InfluxWriter → Text → State → Result Text (List (Row F T) × Option Text)

-- The Flux query of QueryUniqueUUIDs.
unfoldable pub uuids_query : Text → Text
uuids_query bucket =
    codes "from(bucket: \""
    ++ (bucket
        ++ codes
            "\") |> range(start: 0) |> group(columns: [\"uuid\"]) |> keep(columns: [\"uuid\"]) |> distinct(column: \"uuid\")")

module _ {F T : Type 0} (db : InfluxDb F T) (iw : InfluxWriter) where
  open db use {State, write_point, query}

  unfoldable pub write_telemetry : TelemetryRecord F T → State → Option Text × State
  write_telemetry record' s = write_point iw (point_of record') s

  unfoldable pub query_unique : State → Result Text (List Text)
  query_unique s = elim (query iw (uuids_query iw.bucket) s) [
    | err e ↦ err e
    | ok (rows, end) ↦ query_unique_uuids rows end
  ]

  -- A query with parseQueryResults; `of_int` and `zero_float` are those of the parse.
  module _ (of_int : ℤ → F) (zero_float : F) where
    unfoldable pub query_records : Text → State → Result Text (List (TelemetryRecord F T))
    query_records flux s = elim (query iw flux s) [
      | err e ↦ err e
      | ok (rows, end) ↦ parse_query_results of_int zero_float rows end
    ]

    unfoldable pub query_recent_telemetry : ℤ → State → Result Text (List (TelemetryRecord F T))
    unfolding query_records
    query_recent_telemetry limit s = query_records (recent_query iw.bucket limit) s

    unfoldable pub query_telemetry_by_device :
        Text → State → Result Text (List (TelemetryRecord F T))
    unfolding query_records
    query_telemetry_by_device uuid s = query_records (device_query iw.bucket uuid) s
