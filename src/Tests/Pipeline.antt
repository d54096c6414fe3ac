-- ===== src/Tests/Pipeline.antt =====
-- The API keys, the collector, the streamer and the database rows at concrete inputs.
use telemetry_punitha.Prelude.{
  mentions, ◌≢◌, ℕ, ◌+◌, ◌≡◌, ◌≢◌, refl, ◌⊎◌, ◌↔◌, Bool, true, false, List, [], ◌∷◌, map, Option,
  none, some, Text, codes, text_eq, text_eqb, nat_eq, text_eqb_iff, ◌==◌, arith, if◌then◌else◌,
  length, ok, err, ◌++◌, has_prefix,
}
use telemetry_punitha.Prelude.Map.{lookup}
use telemetry_punitha.MsgQueue.Http.{trim_space}
use telemetry_punitha.MsgQueue.Handlers.{Bodies}
use telemetry_punitha.Security.{Request, serve, is_open, valid_key, api_key_middleware}
use telemetry_punitha.Security.Access.{Carries, api_key_middleware_iff}
use telemetry_punitha.Influx.{TelemetryRecord, Row, string, float, point_of, parse_row}
use telemetry_punitha.Influx.RoundTrip.{IsRowOf, parse_row-point_of}
use telemetry_punitha.Collector.{Formats, record_of, field, handle}
use telemetry_punitha.Collector.Handling.{IsBad, IsRecordOf, handle_cases}
use telemetry_punitha.Streamer.{Read, row, wrong_count, stream_csv}
use telemetry_punitha.Streamer.Publishing.{send_all, stream_csv_lem}
use telemetry_punitha.Tests.HttpQueue.{object}

abbrev request : Request
request = record {
  path = codes "/api/v1/gpus";
  api_key = [];
  authorization = codes "Bearer k";
  service_token = codes "t";
}

api_key_middleware_iff_example :
    (api_key_middleware (codes "k") request ≡ serve)
    ↔ ((is_open (codes "/api/v1/gpus") ≡ true) ⊎ Carries (valid_key (codes "k")) request)
api_key_middleware_iff_example = api_key_middleware_iff (codes "k") request

abbrev pub fields : List Text
fields =
    codes "t"
    ∷ codes "util"
    ∷ codes "0"
    ∷ codes "nvidia0"
    ∷ codes "GPU-1"
    ∷ codes "H100"
    ∷ codes "host"
    ∷ []
    ∷ []
    ∷ []
    ∷ codes "7"
    ∷ codes "labels"
    ∷ []

abbrev pub read_array : Text → Option (List Text)
read_array s = if s == codes "r" then some fields else none

pub read_array_lem : (xs : List Text) → xs ≡ fields → read_array (codes "r") ≡ some xs
unfolding text_eqb
read_array_lem xs e = ground arith

-- Formats for the one row above; any other text is refused.
abbrev pub formats : Formats ℕ ℕ
formats = record {
  marshal_array = λ xs. codes "r";
  unmarshal_array = read_array;
  IsPlainArray = λ xs. xs ≡ fields;
  unmarshal-marshal_array = read_array_lem;
  parse_float = λ s. some 7;
  parse_time = λ s. some 5;
}

-- The field of an object is the text behind its brace.
abbrev pub behind : Text → Option Text
behind [] = none
behind (c ∷ s) = some s

abbrev pub bodies : Bodies
bodies = record { payload_field = behind; id_field = λ body. none }

pub is_object :
    has_prefix (trim_space (object.entry (codes "payload") (codes "r"))) (codes "{") ≡ true
unfolding has_prefix trim_space
is_object = refl

pub has_payload :
    bodies.payload_field (trim_space (object.entry (codes "payload") (codes "r")))
    ≡ some (codes "r")
unfolding trim_space
has_payload = refl

-- A database that takes one record.
abbrev pub write : ℕ → TelemetryRecord ℕ ℕ → Bool × ℕ
write n r = (n == 0, 1)

handle_cases_example :
    ((codes "r" ≢ [])
      × (formats.unmarshal_array (codes "r") ≡ none)
      × (handle formats write 1 (codes "events") (codes "r") (codes "a") ≡ (false, 1)))
    ⊎ (((codes "r" ≡ []) ⊎ IsBad formats (codes "r"))
        × (handle formats write 1 (codes "events") (codes "r") (codes "a") ≡ (true, 1)))
    ⊎ ((r : TelemetryRecord ℕ ℕ) × IsRecordOf formats (codes "r") r
        × (handle formats write 1 (codes "events") (codes "r") (codes "a") ≡ write 1 r))
handle_cases_example = handle_cases formats write 1 (codes "events") (codes "r") (codes "a")

not_an_array : formats.unmarshal_array (codes "[1]") ≡ none
unfolding text_eqb
not_an_array = refl

abbrev written : TelemetryRecord ℕ ℕ
written = record_of formats fields 7 5

abbrev stored : Row ℕ ℕ
stored = record {
  values =
      (codes "_measurement", string (codes "util"))
      ∷ (codes "_value", float 7)
      ∷ (codes "device_id", string (codes "nvidia0"))
      ∷ (codes "gpu_id", string (codes "0"))
      ∷ (codes "uuid", string (codes "GPU-1"))
      ∷ (codes "modelName", string (codes "H100"))
      ∷ (codes "Hostname", string (codes "host"))
      ∷ (codes "labels_raw", string (codes "labels"))
      ∷ [];
  time = 5;
}

stored_tag :
    (key v : Text)
    → lookup key (point_of written).tags ≡ some v
    → v ≢ []
    → lookup key stored.values ≡ some (string v)
unfolding point_of record_of field lookup
stored_tag key v e given = ground (
  arith,
  text_eqb_iff (codes "_measurement") key,
  text_eqb_iff (codes "_value") key,
  text_eqb_iff (codes "device_id") key,
  text_eqb_iff (codes "gpu_id") key,
  text_eqb_iff (codes "uuid") key,
  text_eqb_iff (codes "modelName") key,
  text_eqb_iff (codes "Hostname") key,
  text_eqb_iff (codes "container") key,
  text_eqb_iff (codes "pod") key,
  text_eqb_iff (codes "namespace") key,
  text_eqb_iff (codes "labels_raw") key,
)

stored_empty :
    (key : Text)
    → lookup key (point_of written).tags ≡ some []
    → (lookup key stored.values ≡ none) ⊎ (lookup key stored.values ≡ some (string []))
unfolding point_of record_of field lookup
stored_empty key e = ground (
  arith,
  text_eqb_iff (codes "_measurement") key,
  text_eqb_iff (codes "_value") key,
  text_eqb_iff (codes "device_id") key,
  text_eqb_iff (codes "gpu_id") key,
  text_eqb_iff (codes "uuid") key,
  text_eqb_iff (codes "modelName") key,
  text_eqb_iff (codes "Hostname") key,
  text_eqb_iff (codes "container") key,
  text_eqb_iff (codes "pod") key,
  text_eqb_iff (codes "namespace") key,
  text_eqb_iff (codes "labels_raw") key,
)

stored-IsRowOf : IsRowOf (point_of written) stored
unfolding point_of record_of field lookup text_eqb
stored-IsRowOf = record {
  time = refl;
  measurement = refl;
  value = refl;
  tag = stored_tag;
  empty_tag = stored_empty;
}

parse_row-point_of_example : parse_row (λ z. 0) 0 stored ≡ written
parse_row-point_of_example = parse_row-point_of (λ z. 0) 0 written stored stored-IsRowOf

-- A queue that keeps every message.
abbrev pub keep : List Text → Text → Bool × List Text
keep sent body = (true, body ∷ sent)

keep_works : (sent : List Text) (body : Text) → (keep sent body).0 ≡ true
keep_works sent body = refl

stream_csv_lem_example :
    (stream_csv formats.marshal_array keep 1 (row fields ∷ map row (fields ∷ [])) 0 []
      ≡ (ok (0 + 1), send_all formats.marshal_array keep (fields ∷ []) []))
    × ((odd : List Text) (rest : List Read)
        → length odd ≢ 12
        → stream_csv formats.marshal_array keep 1
            (row fields ∷ (map row (fields ∷ []) ++ row odd ∷ rest))
            0
            []
          ≡ (err wrong_count, send_all formats.marshal_array keep (fields ∷ []) []))
stream_csv_lem_example =
    stream_csv_lem formats.marshal_array keep fields (fields ∷ []) 0 [] (omega arith) (refl, tt)
      keep_works

no_slash : mentions b'/' (codes "GPU-1") ≡ false
unfolding mentions
no_slash = refl
