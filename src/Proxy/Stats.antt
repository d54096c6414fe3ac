-- ===== src/Proxy/Stats.antt =====
-- statusHandler and statsHandler of services/msg_queue_proxy/main.go: what they answer, less the
-- times.
pub mod Log
use telemetry_punitha.Prelude.{
  ℕ, Bool, true, false, List, [], ◌∷◌, Option, none, some, Text, length, if◌then◌else◌,
}
use telemetry_punitha.Prelude.Int.{ℤ, pos, ltb_ℤ, to_int}
use telemetry_punitha.Prelude.Map.{Map}
use telemetry_punitha.ConsistentHash.{Sha512, get_partition_distribution}
use telemetry_punitha.Proxy.{ProxyConfig, ProxyStats, SmartProxy}
use telemetry_punitha.Proxy.Requests.{count_healthy}

-- float64, as far as it is used.
pub record Float64 : Type 1 where
  pub Float : Type 0
  pub of_int : ℤ → Float
  pub divide : Float → Float → Float
  pub multiply : Float → Float → Float
  pub is_positive : Float → Bool

pub record Status : Type 0 where
  pub proxy_config : ProxyConfig
  pub broker_status : Map Text Bool
  pub partition_distribution : Map Text (List ℕ)

-- `none` is the panic of the ring.
unfoldable pub status_handler : Sha512 → SmartProxy → Option Status
status_handler sha sp =
    elim (get_partition_distribution sha sp.config.max_partitions sp.consistent_hash) [
      | none ↦ none
      | some distribution ↦ some (record {
        proxy_config = sp.config;
        broker_status = sp.healthy_brokers;
        partition_distribution = distribution;
      })
    ]

pub record Stats (F : Type 0) : Type 0 where
  pub uptime_seconds : F
  pub total_requests : ℤ
  pub successful_requests : ℤ
  pub failed_requests : ℤ
  pub success_rate_percent : F
  pub requests_per_second : F
  pub average_latency_ms : F
  pub produce : ℤ
  pub consume : ℤ
  pub ack : ℤ
  pub health : ℤ
  pub request_counts : Map Text ℕ
  pub error_counts : Map Text ℕ
  pub healthy_count : ℕ
  pub total_count : ℕ
  pub health_checks_performed : ℤ
  pub broker_failures_detected : ℤ

module _ (float : Float64) where
  open float use {Float, of_int, divide, multiply, is_positive}

  unfoldable pub stats_handler : Float → SmartProxy → Stats Float
  stats_handler uptime sp =
      let s = sp.stats in
      let zero = of_int (pos 0) in
      let total = to_int s.total_requests in
      let successful = to_int s.successful_requests in
      let count = to_int s.request_count in
      record {
        uptime_seconds = uptime;
        total_requests = total;
        successful_requests = successful;
        failed_requests = to_int s.failed_requests;
        success_rate_percent =
            if ltb_ℤ (pos 0) total
            then multiply (divide (of_int successful) (of_int total)) (of_int (pos 100))
            else zero;
        requests_per_second = if is_positive uptime then divide (of_int total) uptime else zero;
        average_latency_ms =
            if ltb_ℤ (pos 0) count
            then divide (of_int (to_int s.total_latency_ms)) (of_int count)
            else zero;
        produce = to_int s.produce_requests;
        consume = to_int s.consume_requests;
        ack = to_int s.ack_requests;
        health = to_int s.health_requests;
        request_counts = s.broker_request_counts;
        error_counts = s.broker_errors;
        healthy_count = count_healthy sp.healthy_brokers;
        total_count = length sp.broker_endpoints;
        health_checks_performed = to_int s.health_check_count;
        broker_failures_detected = to_int s.broker_failures;
      }
