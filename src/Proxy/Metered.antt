-- ===== src/Proxy/Metered.antt =====
-- recordRequest and checkBrokerHealth of services/msg_queue_proxy/main.go with their Prometheus
-- metrics.
pub mod Totals
pub mod Views
use telemetry_punitha.Prelude.{
  ℕ, ◌+◌, ◌%◌, ◌^◌, ◌≡◌, ◌≢◌, refl, sym, ap, ◌∙◌, fun_ext, Bool, true, false, not, ◌&&◌, ◌||◌, List,
  [], ◌∷◌, Option, none, some, Text, codes, text_eq, text_eqb, text_eqb_iff, ◌==◌, leb,
  if◌then◌else◌, arith,
}
use telemetry_punitha.Metrics.{
  Prometheus, proxy_requests_total, proxy_request_duration, proxy_broker_requests,
  proxy_broker_health, proxy_health_checks, inc_with, observe_with, set_with,
}
use telemetry_punitha.Proxy.{
  SmartProxy, RequestType, produce, consume, ack, health, topics, add_int64, record_request,
  check_endpoint,
}

abbrev pub proxy_service : Text
proxy_service = codes "msg-queue-proxy"

-- The words that the callers of recordRequest pass for the kinds of requests.
abbrev pub type_name : RequestType → Text
type_name produce = codes "produce"
type_name consume = codes "consume"
type_name ack = codes "ack"
type_name health = codes "health"
type_name topics = codes "topics"

abbrev pub status_name : Bool → Text
status_name true = codes "success"
status_name false = codes "failure"

module _ {F : Type 0} (client : Prometheus F) where
  open client use {Registry}

  -- recordRequest; `seconds` is the latency again. `none` is a panic.
  unfoldable pub metered_record_request :
      RequestType → Text → ℕ → F → Bool → SmartProxy → Registry → Option (SmartProxy × Registry)
  metered_record_request kind broker latency seconds success sp r =
      let status = status_name success in
      elim (inc_with client proxy_requests_total (proxy_service ∷ type_name kind ∷ status ∷ []) r) [
        | none ↦ none
        | some r1 ↦
            elim (observe_with client proxy_request_duration (proxy_service ∷ type_name kind ∷ [])
              seconds r1) [
                | none ↦ none
                | some r2 ↦
                    elim (inc_with client proxy_broker_requests
                      (proxy_service ∷ broker ∷ status ∷ []) r2) [
                        | none ↦ none
                        | some r3 ↦ some (record_request kind broker latency success sp, r3)
                      ]
              ]
      ]

  -- The health checks; `one` and `zero_value` are the float64 values 1 and 0.
  module _ (one zero_value : F) where
    unfoldable pub metered_check_endpoint :
        Text → Option ℕ → SmartProxy → Registry → Option (SmartProxy × Registry)
    metered_check_endpoint endpoint probe sp r =
        let good : Bool = elim probe [
          | none ↦ false
          | some status ↦ leb status 200 && leb 200 status
        ] in
        elim (set_with client proxy_broker_health (proxy_service ∷ endpoint ∷ [])
          (if good then one else zero_value) r) [
            | none ↦ none
            | some after ↦ some (check_endpoint endpoint probe sp, after)
          ]

    unfoldable pub metered_check_endpoints :
        (Text → Option ℕ) → List Text → SmartProxy → Registry → Option (SmartProxy × Registry)
    metered_check_endpoints probe [] sp r = some (sp, r)
    metered_check_endpoints probe (e ∷ es) sp r = elim (metered_check_endpoint e (probe e) sp r) [
      | none ↦ none
      | some (checked, after) ↦ metered_check_endpoints probe es checked after
    ]

    unfoldable pub metered_check_broker_health :
        (Text → Option ℕ) → SmartProxy → Registry → Option (SmartProxy × Registry)
    metered_check_broker_health probe sp r =
        let s = sp.stats in
        elim (inc_with client proxy_health_checks (proxy_service ∷ []) r) [
          | none ↦ none
          | some counted ↦
              metered_check_endpoints probe sp.broker_endpoints
                (record sp {
                  stats = record s { health_check_count = add_int64 s.health_check_count 1 };
                })
                counted
        ]
