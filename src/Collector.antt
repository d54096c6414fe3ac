-- ===== src/Collector.antt =====
-- The message handler of services/collector/main.go.
pub mod Handling
use telemetry_punitha.Prelude.{
  ℕ, Bool, true, false, List, [], ◌∷◌, Option, none, some, Text, text_eq, ◌==◌, ltb, length,
  get_elem?, if◌then◌else◌, ◌≡◌,
}
use telemetry_punitha.Influx.{TelemetryRecord}

-- encoding/json on arrays of strings, strconv.ParseFloat and time.Parse with RFC 3339. An array
-- comes back from its own text if its strings are valid UTF-8.
pub record Formats (F T : Type 0) : Type 1 where
  pub marshal_array : List Text → Text
  pub unmarshal_array : Text → Option (List Text)
  pub IsPlainArray : List Text → Type 0
  pub unmarshal-marshal_array :
      (xs : List Text) → IsPlainArray xs → unmarshal_array (marshal_array xs) ≡ some xs
  pub parse_float : Text → Option F
  pub parse_time : Text → Option T

-- csvRecord[i], for an index in range.
unfoldable pub field : ℕ → List Text → Text
field i csv_record = elim (get_elem? csv_record i) [ none ↦ [] | some s ↦ s ]

-- What becomes of a body: skipped (empty, too short, or with a bad value or time), refused as bad
-- JSON, or a record to be written.
pub data Collected (F T : Type 0) : Type 0 where
  skipped bad_json : Collected F T
  collected : TelemetryRecord F T → Collected F T

module _ {F T : Type 0} (formats : Formats F T) where
  unfoldable pub record_of : List Text → F → T → TelemetryRecord F T
  unfolding field
  record_of csv_record value timestamp = record {
    device_id = field 3 csv_record;
    metric = field 1 csv_record;
    value = value;
    time = timestamp;
    gpu_id = field 2 csv_record;
    uuid = field 4 csv_record;
    model_name = field 5 csv_record;
    hostname = field 6 csv_record;
    container = field 7 csv_record;
    pod = field 8 csv_record;
    namespace = field 9 csv_record;
    labels_raw = field 11 csv_record;
  }

  unfoldable pub collect : Text → Collected F T
  unfolding field record_of
  collect body = if body == [] then skipped else elim (formats.unmarshal_array body) [
    | none ↦ bad_json
    | some csv_record ↦
        if ltb (length csv_record) 12
        then skipped
        else elim (formats.parse_float (field 10 csv_record)) [
          | none ↦ skipped
          | some value ↦ elim (formats.parse_time (field 0 csv_record)) [
            | none ↦ skipped
            | some timestamp ↦ collected (record_of csv_record value timestamp)
          ]
        ]
  ]

  -- The handler: whether it returns nil, and the database, to which `write` is WriteTelemetry.
  module _ {ℓ} {S : Type ℓ} (write : S → TelemetryRecord F T → Bool × S) where
    unfoldable pub handle : S → Text → Text → Text → Bool × S
    handle database topic body id = elim (collect body) [
      | skipped ↦ (true, database)
      | bad_json ↦ (false, database)
      | collected data' ↦ write database data'
    ]
