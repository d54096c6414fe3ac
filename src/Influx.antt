-- ===== src/Influx.antt =====
-- internal/telemetry/telemetry.go, and the conversions of internal/influx/influx.go between its
-- records and the points and rows of InfluxDB.
pub mod RoundTrip
pub mod Client
pub mod Stored
use telemetry_punitha.Prelude.{
  ℕ, List, [], ◌∷◌, ◌++◌, Option, none, some, Text, codes, text_eq, Result, ok, err,
}
use telemetry_punitha.Prelude.Int.{ℤ}
use telemetry_punitha.Prelude.Map.{Map, lookup}
use telemetry_punitha.Strconv.{itoa}

-- `F` stands for float64 and `T` for time.Time.
pub record TelemetryRecord (F T : Type 0) : Type 0 where
  pub device_id : Text
  pub metric : Text
  pub value : F
  pub time : T
  pub gpu_id : Text
  pub uuid : Text
  pub model_name : Text
  pub hostname : Text
  pub container : Text
  pub pod : Text
  pub namespace : Text
  pub labels_raw : Text

pub record Point (F T : Type 0) : Type 0 where
  pub measurement : Text
  pub tags : Map Text Text
  pub value : F
  pub time : T

-- A value in a row of a result: an `interface{}` that is not nil.
pub data Value (F : Type 0) : Type 0 where
  string : Text → Value F
  float : F → Value F
  integer : ℤ → Value F
  other : Value F

pub record Row (F T : Type 0) : Type 0 where
  pub values : Map Text (Value F)
  pub time : T

module _ {F T : Type 0} where
  -- The point of WriteTelemetry.
  unfoldable pub point_of : TelemetryRecord F T → Point F T
  point_of record' = record {
    measurement = record'.metric;
    tags =
        (codes "device_id", record'.device_id)
        ∷ (codes "gpu_id", record'.gpu_id)
        ∷ (codes "uuid", record'.uuid)
        ∷ (codes "modelName", record'.model_name)
        ∷ (codes "Hostname", record'.hostname)
        ∷ (codes "container", record'.container)
        ∷ (codes "pod", record'.pod)
        ∷ (codes "namespace", record'.namespace)
        ∷ (codes "labels_raw", record'.labels_raw)
        ∷ [];
    value = record'.value;
    time = record'.time;
  }

  -- A string column: empty for nil and for a value of another type.
  unfoldable pub string_at : Text → Row F T → Text
  string_at key row = elim (lookup key row.values) [
    | none ↦ []
    | some v ↦ elim v [ string s ↦ s | float f ↦ [] | integer z ↦ [] | other ↦ [] ]
  ]

  -- The conversion of an int to a float64, and the float64 0.
  module _ (of_int : ℤ → F) (zero_float : F) where
    unfoldable pub value_at : Row F T → F
    value_at row = elim (lookup (codes "_value") row.values) [
      | none ↦ zero_float
      | some v ↦ elim v [
        | string s ↦ zero_float
        | float f ↦ f
        | integer z ↦ of_int z
        | other ↦ zero_float
      ]
    ]

    unfoldable pub parse_row : Row F T → TelemetryRecord F T
    unfolding string_at value_at
    parse_row row = record {
      device_id = string_at (codes "device_id") row;
      metric = string_at (codes "_measurement") row;
      value = value_at row;
      time = row.time;
      gpu_id = string_at (codes "gpu_id") row;
      uuid = string_at (codes "uuid") row;
      model_name = string_at (codes "modelName") row;
      hostname = string_at (codes "Hostname") row;
      container = string_at (codes "container") row;
      pod = string_at (codes "pod") row;
      namespace = string_at (codes "namespace") row;
      labels_raw = string_at (codes "labels_raw") row;
    }

    unfoldable pub parse_rows : List (Row F T) → List (TelemetryRecord F T)
    unfolding parse_row
    parse_rows [] = []
    parse_rows (row ∷ rows) = parse_row row ∷ parse_rows rows

    -- The rows that the iteration gives before it ends, and its error.
    unfoldable pub parse_query_results :
        List (Row F T) → Option Text → Result Text (List (TelemetryRecord F T))
    unfolding parse_rows
    parse_query_results rows (some e) = err e
    parse_query_results rows none = ok (parse_rows rows)

  uuids_of : List (Row F T) → List Text
  uuids_of [] = []
  uuids_of (row ∷ rows) =
      let rest = uuids_of rows in
      elim (lookup (codes "uuid") row.values) [
        | none ↦ rest
        | some v ↦ elim v [ string s ↦ s ∷ rest | float f ↦ rest | integer z ↦ rest | other ↦ rest ]
      ]

  -- The loop of QueryUniqueUUIDs.
  unfoldable pub query_unique_uuids : List (Row F T) → Option Text → Result Text (List Text)
  unfolding uuids_of
  query_unique_uuids rows (some e) = err e
  query_unique_uuids rows none = ok (uuids_of rows)

-- The Flux queries.
unfoldable pub recent_query : Text → ℤ → Text
recent_query bucket limit =
    codes "from(bucket: \""
    ++ (bucket
        ++ (codes "\") |> range(start: -24h) |> sort(columns:[\"_time\"], desc:true) |> limit(n:"
            ++ (itoa limit ++ codes ")")))

unfoldable pub device_query : Text → Text → Text
device_query bucket uuid =
    codes "from(bucket: \""
    ++ (bucket
        ++ (codes "\") |> range(start: 0) |> filter(fn: (r) => r.uuid == \""
            ++ (uuid ++ codes "\") |> sort(columns:[\"_time\"], desc:true)")))
