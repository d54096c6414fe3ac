-- ===== src/Tests/Service.antt =====
-- The API service at concrete inputs, with a database that keeps the rows of its points.
use telemetry_punitha.Prelude.{
  Has, ℕ, ◌≡◌, refl, inl, inr, ◌↔◌, Bool, true, false, List, [], ◌∷◌, none, some, Text, codes,
  text_eq, text_eqb, text_eqb_iff, ◌==◌, length, mentions, ok, if◌then◌else◌, arith, split, subst,
  Bool-cases,
}
use telemetry_punitha.Prelude.Int.{pos_part}
use telemetry_punitha.Prelude.Map.{Map, lookup}
use telemetry_punitha.Config.{Environment, load, get_env}
use telemetry_punitha.ServeMux.{
  ends_in_slash, keep_segments, join_segments, clean_path, route_request, moved, route_clean,
  is_registered,
}
use telemetry_punitha.ServeMux.Canonical.{IsSegment}
use telemetry_punitha.Security.{valid_key}
use telemetry_punitha.Security.Access.{Carries}
use telemetry_punitha.Services.{collector_influx}
use telemetry_punitha.Influx.{
  TelemetryRecord, Point, Row, Value, string, float, point_of, device_query,
}
use telemetry_punitha.Influx.RoundTrip.{IsRowOf}
use telemetry_punitha.Influx.Client.{InfluxWriter, InfluxDb, new_influx_writer, write_telemetry}
use telemetry_punitha.Influx.Stored.{IsPlain, IsLineText, has_control, Flux}
use telemetry_punitha.Metrics.Utf8.{is_utf8}
use telemetry_punitha.Metrics.Middleware.{StatusText}
use telemetry_punitha.Prelude.{All, has_prefix}
use telemetry_punitha.Collector.{field, record_of, collect, handle}
use telemetry_punitha.Api.{listed}
use telemetry_punitha.Api.Service.{HttpRequest, to_guard, Reply, telemetry, routes, serve_http}
use telemetry_punitha.Api.Guarded.{is_gpu_path, is_as_is}
use telemetry_punitha.Api.Secured.{is_gpu_reply, serve_http_iff}
use telemetry_punitha.Pipeline.Reading.{write_to, row_answered}
use telemetry_punitha.Tests.Metrics.{Counted, log}
use telemetry_punitha.Tests.Pipeline.{formats, fields}

abbrev columns : Map Text Text → Map Text (Value ℕ)
columns [] = []
columns ((key, v) ∷ tags) = (key, string v) ∷ columns tags

abbrev row_of : Point ℕ ℕ → Row ℕ ℕ
row_of p = record {
  values =
      (codes "_measurement", string p.measurement)
      ∷ (codes "_value", float p.value)
      ∷ columns p.tags;
  time = p.time;
}

lookup-columns :
    (key : Text) (tags : Map Text Text) (v : Text)
    → lookup key tags ≡ some v
    → lookup key (columns tags) ≡ some (string v)
unfolding lookup
lookup-columns key [] v e = absurd (ground arith)
lookup-columns key ((k, w) ∷ tags) v e = ground (arith, lookup-columns key tags v)

-- A point with a tag of a reserved name is refused.
abbrev is_allowed : Point ℕ ℕ → Bool
is_allowed p = elim (lookup (codes "_measurement") p.tags) [
  | some v ↦ false
  | none ↦ elim (lookup (codes "_value") p.tags) [ some v ↦ false | none ↦ true ]
]

abbrev store : InfluxDb ℕ ℕ
store = record {
  State = List (Row ℕ ℕ);
  write_point = λ iw p rows.
      if is_allowed p then (none, row_of p ∷ rows) else (some (codes "reserved"), rows);
  query = λ iw flux rows. ok (rows, none);
}

tag_column :
    (p : Point ℕ ℕ)
    → is_allowed p ≡ true
    → (key v : Text) → lookup key p.tags ≡ some v
    → lookup key (row_of p).values ≡ some (string v)
unfolding lookup
tag_column p allowed key v e = ground (
  arith,
  lookup-columns key p.tags v e,
  text_eqb_iff (codes "_measurement") key,
  text_eqb_iff (codes "_value") key,
)

row_of-IsRowOf : (p : Point ℕ ℕ) → is_allowed p ≡ true → IsRowOf p (row_of p)
row_of-IsRowOf p allowed = record {
  time = refl;
  measurement = unfold lookup text_eqb in refl;
  value = unfold lookup text_eqb in refl;
  tag = λ key v e given. tag_column p allowed key v e;
  empty_tag = λ key e. inr (tag_column p allowed key [] e);
}

abbrev env : Environment
env name = if name == codes "API_KEY" then codes "k" else []

get_valid : is_utf8 (codes "GET") ≡ true
unfolding is_utf8
get_valid = refl

no_text_valid : is_utf8 [] ≡ true
unfolding is_utf8
no_text_valid = refl

abbrev status_texts : StatusText
status_texts = record { text = λ n. []; text_valid = λ n. no_text_valid }

abbrev request : HttpRequest
request = record {
  method = codes "GET";
  method_valid = get_valid;
  path = codes "/api/v1/gpus/GPU-1/telemetry";
  api_key = codes "k";
  authorization = [];
  start_time = [];
  end_time = [];
}

found_row :
    (iw : InfluxWriter) (uuid : Text) (p : Point ℕ ℕ) (s rows : List (Row ℕ ℕ))
    → (row : Row ℕ ℕ) × Has row s × IsRowOf p row
    → store.query iw (device_query iw.bucket uuid) s ≡ ok (rows, none)
    → (row : Row ℕ ℕ) × Has row rows × IsRowOf p row
found_row iw uuid p s rows (row, there, is) e = (row, subst (Has row) (ground (arith, e)) there, is)

kept_row :
    (iw : InfluxWriter) (p : Point ℕ ℕ) (s : List (Row ℕ ℕ))
    → (store.write_point iw p s).0 ≡ none
    → (row : Row ℕ ℕ) × Has row (store.write_point iw p s).1 × IsRowOf p row
kept_row iw p s e = elim (Bool-cases (is_allowed p)) [
  | inl allowed ↦ (row_of p, rw allowed (inl refl), row_of-IsRowOf p allowed)
  | inr reserved ↦ absurd (ground arith)
]

abbrev store_flux : Flux store
store_flux = record {
  Stored = λ iw p s. (row : Row ℕ ℕ) × Has row s × IsRowOf p row;
  InRange = λ t. Unit {0};
  write_point-Stored = λ iw p s e. kept_row iw p s e;
  device_query-rows = λ iw uuid p s rows bucket plain given tagged range carried stored answered.
      found_row iw uuid p s rows stored answered;
}

abbrev kept : List (Row ℕ ℕ)
kept = row_of (point_of (record_of formats fields 7 5)) ∷ []

handled' :
    handle formats (write_to store (collector_influx env)) [] (codes "t") (codes "r") (codes "a")
    ≡ (true, kept)
unfolding handle collect write_telemetry record_of point_of text_eqb lookup
handled' = refl

IsPlain-bucket : IsPlain (collector_influx env).bucket
unfolding collector_influx load get_env new_influx_writer mentions text_eqb
IsPlain-bucket = record { no_quote = refl; no_backslash = refl; no_interpolation = refl }

IsPlain-id : IsPlain (codes "GPU-1")
unfolding mentions
IsPlain-id = record { no_quote = refl; no_backslash = refl; no_interpolation = refl }

segment : IsSegment (codes "GPU-1")
unfolding mentions
segment = record {
  given = λ e. absurd (ground (arith, e));
  not_here = λ e. absurd (ground (arith, e));
  not_up = λ e. absurd (ground (arith, e));
  whole = refl;
}

the_key : Carries (valid_key (env (codes "API_KEY"))) (to_guard request)
unfolding valid_key text_eqb
the_key = inl refl

plain_fields : All IsLineText fields
unfolding has_control mentions is_utf8
plain_fields = (
  record { no_control = refl; no_escape = refl; valid = refl },
  (
    record { no_control = refl; no_escape = refl; valid = refl },
    (
      record { no_control = refl; no_escape = refl; valid = refl },
      (
        record { no_control = refl; no_escape = refl; valid = refl },
        (
          record { no_control = refl; no_escape = refl; valid = refl },
          (
            record { no_control = refl; no_escape = refl; valid = refl },
            (
              record { no_control = refl; no_escape = refl; valid = refl },
              (
                record { no_control = refl; no_escape = refl; valid = refl },
                (
                  record { no_control = refl; no_escape = refl; valid = refl },
                  (
                    record { no_control = refl; no_escape = refl; valid = refl },
                    (
                      record { no_control = refl; no_escape = refl; valid = refl },
                      (record { no_control = refl; no_escape = refl; valid = refl }, tt),
                    ),
                  ),
                ),
              ),
            ),
          ),
        ),
      ),
    ),
  ),
)

no_comment : has_prefix (field 1 fields) (codes "#") ≡ false
unfolding field has_prefix
no_comment = refl

row_answered_example :
    (records : List (TelemetryRecord ℕ ℕ)) × (serve_http store log status_texts formats.parse_time
        (λ t. [])
        pos_part
        0
        env
        kept
        3
        request
        []
      ≡ some (telemetry (listed (codes "GPU-1") (length records) records), []))
    × Has (record_of formats fields 7 5) records
unfolding field
row_answered_example =
    row_answered store store_flux log status_texts formats (λ t. []) pos_part 0 env [] kept
      (codes "t") (codes "a") fields 7 5 kept 3 request [] refl (λ e. absurd (ground (arith, e)))
      (omega arith) refl refl tt plain_fields no_comment IsPlain-bucket IsPlain-id segment handled'
      refl refl refl (inl refl) the_key

serve_http_iff_example :
    (reply : Reply ℕ ℕ) × (after : Counted) × (serve_http store log status_texts formats.parse_time
        (λ t. [])
        pos_part
        0
        env
        kept
        3
        request
        []
      ≡ some (reply, after))
    × ((is_gpu_reply reply ≡ true) ↔ (
        Carries (valid_key (env (codes "API_KEY"))) (to_guard request)
        × (is_gpu_path request.path ≡ true)
        × (is_as_is request.method request.path ≡ true)))
serve_http_iff_example =
    serve_http_iff store log status_texts formats.parse_time (λ t. []) pos_part 0 env kept 3 request
      []

-- A path that goes through an open one to the records is only redirected.
traversal :
    route_request routes (codes "GET") (codes "/swagger/../api/v1/gpus")
    ≡ moved (codes "/api/v1/gpus")
unfolding route_request route_clean is_registered clean_path ends_in_slash keep_segments
    join_segments split routes lookup text_eqb
traversal = refl
