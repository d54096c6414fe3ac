-- ===== src/Metrics.antt =====
-- internal/metrics/metrics.go: the metrics of the services, and the middleware that counts requests.
pub mod Utf8
pub mod Middleware
pub mod Collecting
use telemetry_punitha.Prelude.{
  ℕ, ◌+◌, ◌≡◌, ◌≢◌, Bool, true, false, ◌||◌, ◌&&◌, List, [], ◌∷◌, ◌++◌, Option, none, some, Text,
  codes, text_eq, ◌==◌, eqb, leb, length, if◌then◌else◌,
}
use telemetry_punitha.Metrics.Utf8.{all_utf8}

-- A vector of counters, histograms or gauges, with the names of its labels.
pub record Vector : Type 0 where
  pub name : Text
  pub labels : List Text

abbrev service_and : List Text → List Text
service_and labels = codes "service" ∷ labels

abbrev pub http_requests_total : Vector
http_requests_total = record {
  name = codes "http_requests_total";
  labels = service_and (codes "method" ∷ codes "endpoint" ∷ codes "status" ∷ []);
}

abbrev pub http_request_duration : Vector
http_request_duration = record {
  name = codes "http_request_duration_seconds";
  labels = service_and (codes "method" ∷ codes "endpoint" ∷ []);
}

abbrev pub messages_produced : Vector
messages_produced = record {
  name = codes "messages_produced_total";
  labels = service_and (codes "topic" ∷ []);
}

abbrev pub messages_consumed : Vector
messages_consumed = record {
  name = codes "messages_consumed_total";
  labels = service_and (codes "topic" ∷ []);
}

abbrev pub message_processing_duration : Vector
message_processing_duration = record {
  name = codes "message_processing_duration_seconds";
  labels = service_and (codes "topic" ∷ []);
}

abbrev pub database_operations : Vector
database_operations = record {
  name = codes "database_operations_total";
  labels = service_and (codes "operation" ∷ codes "status" ∷ []);
}

abbrev pub database_operation_duration : Vector
database_operation_duration = record {
  name = codes "database_operation_duration_seconds";
  labels = service_and (codes "operation" ∷ []);
}

abbrev pub service_health : Vector
service_health = record { name = codes "service_health"; labels = service_and [] }

abbrev pub telemetry_data_points : Vector
telemetry_data_points = record {
  name = codes "telemetry_data_points_total";
  labels = service_and (codes "type" ∷ []);
}

abbrev pub active_connections : Vector
active_connections = record { name = codes "active_connections"; labels = service_and [] }

abbrev pub proxy_requests_total : Vector
proxy_requests_total = record {
  name = codes "proxy_requests_total";
  labels = service_and (codes "request_type" ∷ codes "status" ∷ []);
}

abbrev pub proxy_request_duration : Vector
proxy_request_duration = record {
  name = codes "proxy_request_duration_seconds";
  labels = service_and (codes "request_type" ∷ []);
}

abbrev pub proxy_broker_requests : Vector
proxy_broker_requests = record {
  name = codes "proxy_broker_requests_total";
  labels = service_and (codes "broker" ∷ codes "status" ∷ []);
}

abbrev pub proxy_broker_health : Vector
proxy_broker_health = record {
  name = codes "proxy_broker_health";
  labels = service_and (codes "broker" ∷ []);
}

abbrev pub proxy_health_checks : Vector
proxy_health_checks = record { name = codes "proxy_health_checks_total"; labels = service_and [] }

-- The Prometheus client, over the state of its default registry and of the vectors: whether a name
-- is registered, and how often the counter or the histogram of a vector at some label values went
-- up. `F` is float64.
pub record Prometheus (F : Type 0) : Type 1 where
  pub Registry : Type 0
  pub registered : Text → Registry → Bool
  pub register : Vector → Registry → Registry
  pub inc : Vector → List Text → Registry → Registry
  pub observe : Vector → List Text → F → Registry → Registry
  pub set : Vector → List Text → F → Registry → Registry
  pub total : Text → List Text → Registry → ℕ
  pub total-inc :
      (v : Vector) (ls : List Text) (r : Registry)
      → total v.name ls (inc v ls r) ≡ total v.name ls r + 1
  pub total-inc_other :
      (v : Vector) (ls ms : List Text) (n : Text) (r : Registry)
      → v.name ≢ n
      → total n ms (inc v ls r) ≡ total n ms r
  pub total-inc_labels :
      (v : Vector) (ls ms : List Text) (r : Registry)
      → ls ≢ ms
      → total v.name ms (inc v ls r) ≡ total v.name ms r
  pub total-observe :
      (v : Vector) (ls : List Text) (x : F) (r : Registry)
      → total v.name ls (observe v ls x r) ≡ total v.name ls r + 1
  pub total-observe_other :
      (v : Vector) (ls ms : List Text) (n : Text) (x : F) (r : Registry)
      → v.name ≢ n
      → total n ms (observe v ls x r) ≡ total n ms r

module _ {F : Type 0} (client : Prometheus F) where
  open client use {Registry, inc, observe, set}

  -- WithLabelValues panics, `none`, if the values are not as many as the labels, or not all valid
  -- UTF-8.
  abbrev fits : Vector → List Text → Bool
  fits v values = eqb (length values) (length v.labels) && all_utf8 values

  abbrev pub inc_with : Vector → List Text → Registry → Option Registry
  inc_with v values r = if fits v values then some (inc v values r) else none

  abbrev pub observe_with : Vector → List Text → F → Registry → Option Registry
  observe_with v values x r = if fits v values then some (observe v values x r) else none

  abbrev pub set_with : Vector → List Text → F → Registry → Option Registry
  set_with v values x r = if fits v values then some (set v values x r) else none

  unfoldable pub record_message_produced : Text → Text → Registry → Option Registry
  record_message_produced service topic r = inc_with messages_produced (service ∷ topic ∷ []) r

  unfoldable pub record_message_consumed : Text → Text → Registry → Option Registry
  record_message_consumed service topic r = inc_with messages_consumed (service ∷ topic ∷ []) r

  unfoldable pub record_message_processing : Text → Text → F → Registry → Option Registry
  record_message_processing service topic duration r =
      observe_with message_processing_duration (service ∷ topic ∷ []) duration r

  unfoldable pub record_database_operation : Text → Text → Text → F → Registry → Option Registry
  record_database_operation service operation status duration r =
      elim (inc_with database_operations (service ∷ operation ∷ status ∷ []) r) [
        | none ↦ none
        | some after ↦
            observe_with database_operation_duration (service ∷ operation ∷ []) duration after
      ]

  unfoldable pub record_telemetry_data_point : Text → Text → Registry → Option Registry
  record_telemetry_data_point service data_type r =
      inc_with telemetry_data_points (service ∷ data_type ∷ []) r

  unfoldable pub set_active_connections : Text → F → Registry → Option Registry
  set_active_connections service count r = set_with active_connections (service ∷ []) count r

module _ {F : Type 0} (client : Prometheus F) (one zero : F) where
  open client use {Registry, registered, register}

  -- prometheus.MustRegister; `none` is the panic at a name that is registered already.
  must_register : List Vector → Registry → Option Registry
  must_register [] r = some r
  must_register (v ∷ vs) r = if registered v.name r then none else must_register vs (register v r)

  unfoldable pub init_metrics : Text → Registry → Option Registry
  unfolding must_register
  init_metrics service r =
      elim (must_register
        (http_requests_total ∷ http_request_duration ∷ messages_produced ∷ messages_consumed
          ∷ message_processing_duration ∷ database_operations ∷ database_operation_duration
          ∷ service_health ∷ telemetry_data_points ∷ active_connections ∷ proxy_requests_total
          ∷ proxy_request_duration ∷ proxy_broker_requests ∷ proxy_broker_health
          ∷ proxy_health_checks ∷ [])
        r) [ none ↦ none | some after ↦ set_with client service_health (service ∷ []) one after ]

  unfoldable pub set_service_health : Text → Bool → Registry → Option Registry
  set_service_health service healthy r =
      set_with client service_health (service ∷ []) (if healthy then one else zero) r
