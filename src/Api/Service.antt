-- ===== src/Api/Service.antt =====
-- main of services/api/main.go: the settings, the routes, and the API key's middleware before them.
use telemetry_punitha.Prelude.{
  ◌≡◌, true, List, [], ◌∷◌, Option, none, some, Text, codes, text_eq, ◌==◌, if◌then◌else◌,
}
use telemetry_punitha.Prelude.Int.{ℤ}
use telemetry_punitha.Prelude.Map.{Map}
use telemetry_punitha.Config.{Environment}
use telemetry_punitha.ServeMux.{no_handler, moved, handled, route_request}
use telemetry_punitha.Security.{serve, unauthorized, api_key_middleware}
use telemetry_punitha.Security
use telemetry_punitha.Metrics.Utf8.{is_utf8}
use telemetry_punitha.Metrics.{Prometheus}
use telemetry_punitha.Metrics.Middleware.{
  StatusText, Inner, Action, write_header, write, http_middleware,
}
use telemetry_punitha.Influx.{TelemetryRecord}
use telemetry_punitha.Influx.Client.{
  InfluxDb, InfluxWriter, new_influx_writer, query_records, query_unique,
}
use telemetry_punitha.Api.{Answer, gpu_telemetry, gpu_list}
use telemetry_punitha.Api

-- What the handlers and the middleware read of a request, empty if it is absent. net/http passes on
-- only a request whose method is a token, which is ASCII.
pub record HttpRequest : Type 0 where
  pub method : Text
  pub method_valid : is_utf8 method ≡ true
  pub path : Text
  pub api_key : Text
  pub authorization : Text
  pub start_time : Text
  pub end_time : Text

abbrev pub to_guard : HttpRequest → Security.Request
to_guard r = record {
  path = r.path;
  api_key = r.api_key;
  authorization = r.authorization;
  service_token = [];
}

abbrev pub to_api : HttpRequest → Api.Request
to_api r = record {
  is_get = r.method == codes "GET";
  path = r.path;
  start_time = r.start_time;
  end_time = r.end_time;
}

-- An environment variable with a default for an empty one.
setting : Environment → Text → Text → Text
setting env key default_value = if env key == [] then default_value else env key

-- The client of the database.
unfoldable pub influx_of : Environment → InfluxWriter
unfolding setting
influx_of env =
    new_influx_writer (setting env (codes "INFLUXDB_URL") (codes "http://influxdb:8086"))
      (setting env (codes "INFLUXDB_TOKEN") (codes "supersecrettoken"))
      (setting env (codes "INFLUXDB_ORG") (codes "telemetryorg"))
      (setting env (codes "INFLUXDB_BUCKET") (codes "telem_bucket"))

pub data Endpoint : Type 0 where
  health : Endpoint
  metrics : Endpoint
  swagger : Endpoint
  gpu : Endpoint
  gpus : Endpoint

unfoldable pub routes : Map Text Endpoint
routes =
    (codes "/health", health)
    ∷ (codes "/metrics", metrics)
    ∷ (codes "/swagger/", swagger)
    ∷ (codes "/api/v1/gpus/", gpu)
    ∷ (codes "/api/v1/gpus", gpus)
    ∷ []

-- The pages of the metrics and of the documentation come from the libraries that render them.
pub data Reply (F T : Type 0) : Type 0 where
  refused : Text → Reply F T
  redirected : Text → Reply F T
  not_found : Reply F T
  healthy : Inner → Reply F T
  metrics_page : Reply F T
  swagger_page : Reply F T
  telemetry : Answer (TelemetryRecord F T) → Reply F T
  gpu_ids : Answer Text → Reply F T

abbrev pub health_actions : List Action
health_actions = write_header 200 ∷ write (codes "API service healthy") ∷ []

module _ {F T : Type 0} (db : InfluxDb F T) (client : Prometheus F) (status_text : StatusText)
    (parse_time : Text → Option T) (print_time : T → Text) (of_int : ℤ → F) (zero_float : F) where
  open client use {Registry}

  -- A handler at the state of the database; `duration` is what the health check took. `none` is
  -- a panic.
  unfoldable pub handle_endpoint :
      Environment → db.State → F → HttpRequest → Registry → Endpoint → Option (Reply F T × Registry)
  handle_endpoint env s duration r registry health =
      elim (http_middleware client status_text (codes "api-service") r.method r.path duration
        health_actions registry) [ none ↦ none | some (i, after) ↦ some (healthy i, after) ]
  handle_endpoint env s duration r registry metrics = some (metrics_page, registry)
  handle_endpoint env s duration r registry swagger = some (swagger_page, registry)
  handle_endpoint env s duration r registry gpu =
      let iw = influx_of env in
      let query = λ (flux : Text). query_records db iw of_int zero_float flux s in
      some (telemetry (gpu_telemetry parse_time print_time query iw.bucket (to_api r)), registry)
  handle_endpoint env s duration r registry gpus =
      some (gpu_ids (gpu_list (query_unique db (influx_of env) s) (to_api r)), registry)

  -- A request to the server.
  unfoldable pub serve_http :
      Environment → db.State → F → HttpRequest → Registry → Option (Reply F T × Registry)
  unfolding handle_endpoint
  serve_http env s duration r registry =
      elim (api_key_middleware (env (codes "API_KEY")) (to_guard r)) [
        | unauthorized text ↦ some (refused text, registry)
        | serve ↦ elim (route_request routes r.method r.path) [
          | no_handler ↦ some (not_found, registry)
          | moved path ↦ some (redirected path, registry)
          | handled endpoint ↦ handle_endpoint env s duration r registry endpoint
        ]
      ]
