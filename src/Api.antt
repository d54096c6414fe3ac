-- ===== src/Api.antt =====
-- The two handlers of services/api/main.go, and the choice of the query in internal/influx/influx.go.
pub mod Telemetry
pub mod Service
pub mod Guarded
pub mod Secured
use telemetry_punitha.Prelude.{
  ℕ, Bool, true, false, not, ◌&&◌, List, [], ◌∷◌, ◌++◌, Option, none, some, Text, codes, text_eq,
  ◌==◌, eqb, length, split, trim_prefix, if◌then◌else◌, Result, ok, err,
}
use telemetry_punitha.Influx.{TelemetryRecord, device_query}

-- The values of the query parameters are empty if they are absent.
pub record Request : Type 0 where
  pub is_get : Bool
  pub path : Text
  pub start_time : Text
  pub end_time : Text

-- The answers: a status with a text, or 200 with the JSON object of a count and a list.
pub data Answer {ℓ} (A : Type ℓ) : Type ℓ where
  status : ℕ → Text → Answer A
  listed : Text → ℕ → List A → Answer A

-- parts[0], if there is a second part and it is "telemetry".
unfoldable pub gpu_of : List Text → Option Text
gpu_of [] = none
gpu_of (gpu ∷ []) = none
gpu_of (gpu ∷ suffix ∷ parts) = if suffix == codes "telemetry" then some gpu else none

-- The answer to a result of the database.
unfoldable pub answer_of {ℓ} : {A : Type ℓ} → Text → Text → Result Text (List A) → Answer A
answer_of failure gpu_id (err e) = status 500 failure
answer_of failure gpu_id (ok records) = listed gpu_id (length records) records

-- The Flux query of QueryTelemetryByDeviceTimeRange.
unfoldable pub range_query : {T : Type 0} → (T → Text) → Text → Text → T → T → Text
range_query print_time bucket uuid start stop =
    codes "from(bucket: \""
    ++ (bucket
        ++ (codes "\") |> range(start: "
            ++ (print_time start
                ++ (codes ", stop: "
                    ++ (print_time stop
                        ++ (codes ") |> filter(fn: (r) => r.uuid == \""
                            ++ (uuid ++ codes "\") |> sort(columns:[\"_time\"], desc:true)")))))))

abbrev pub bad_time {ℓ} : {A : Type ℓ} → Answer A
bad_time = status 400 (codes "Invalid time format. Use RFC3339 format (e.g., 2023-01-01T00:00:00Z)")

-- `parse_time` is time.Parse with RFC 3339 and `print_time` the format back; `query` is what
-- InfluxDB gives for a Flux query, with its rows read.
module _ {F T : Type 0} (parse_time : Text → Option T) (print_time : T → Text)
    (query : Text → Result Text (List (TelemetryRecord F T))) where
  -- The errors of a bad time without their cause, which no caller reads.
  unfoldable pub query_by_device_time_range :
      Text → Text → Text → Text → Result Text (List (TelemetryRecord F T))
  query_by_device_time_range bucket uuid start_time end_time = elim (parse_time start_time) [
    | none ↦ err (codes "invalid start time format")
    | some start ↦ elim (parse_time end_time) [
      | none ↦ err (codes "invalid end time format")
      | some stop ↦ query (range_query print_time bucket uuid start stop)
    ]
  ]

  -- The part of the handler behind the path.
  unfoldable pub telemetry_of : Text → Request → Text → Answer (TelemetryRecord F T)
  telemetry_of bucket r gpu_id =
      let failure = codes "Failed to query telemetry data" in
      if not (r.start_time == []) && not (r.end_time == [])
      then elim (parse_time r.start_time) [
        | none ↦ bad_time
        | some start ↦ elim (parse_time r.end_time) [
          | none ↦ bad_time
          | some stop ↦
              answer_of failure gpu_id
                (query_by_device_time_range bucket gpu_id r.start_time r.end_time)
        ]
      ]
      else answer_of failure gpu_id (query (device_query bucket gpu_id))

  unfoldable pub gpu_telemetry : Text → Request → Answer (TelemetryRecord F T)
  gpu_telemetry bucket r =
      let path = trim_prefix r.path (codes "/api/v1/gpus/") in
      if not r.is_get
      then status 405 []
      else if path == []
      then status 400 (codes "GPU ID is required")
      else elim (gpu_of (split b'/' path)) [
        | none ↦ status 404 (codes "Endpoint not found")
        | some gpu_id ↦ telemetry_of bucket r gpu_id
      ]

-- The list of the GPUs; `uuids` is the result of QueryUniqueUUIDs.
unfoldable pub gpu_list : Result Text (List Text) → Request → Answer Text
gpu_list uuids r =
    if not r.is_get then status 405 [] else answer_of (codes "Failed to query GPU list") [] uuids
