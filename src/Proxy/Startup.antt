-- ===== src/Proxy/Startup.antt =====
-- loadConfig, Start and healthCheckLoop of services/msg_queue_proxy/main.go. Its getEnv and
-- getEnvInt are those of config/config.go.
pub mod Serving
use telemetry_punitha.Prelude.{
  ℕ, zero, suc, ◌+◌, ◌*◌, ◌%◌, ◌^◌, ◌<◌, ◌≡◌, refl, ap, sym, ◌∙◌, Bool, true, false, ◌||◌, List, [],
  ◌∷◌, ◌++◌, Option, none, some, Text, codes, text_eq, text_eqb_iff, ◌==◌, length, length-append,
  leb, if◌then◌else◌, arith, inl, inr, Bool-cases, Option-cases,
}
use telemetry_punitha.Prelude.Int.{ℤ, pos, negsuc, pos_part, leb_ℤ, to_uint64, to_int}
use telemetry_punitha.Prelude.Map.{Map, lookup, insert, lookup-insert}
use telemetry_punitha.Config.{Environment, get_env, get_env_int}
use telemetry_punitha.Strconv.{itoa}
use telemetry_punitha.ConsistentHash.{
  Sha512, ConsistentHash, build_ring, contains, new_consistent_hash, get_broker,
  get_broker_by_topic_partition, distribute, get_partition_distribution,
}
use telemetry_punitha.ConsistentHash.Nodes.{build_ring-IsBuilt}
use telemetry_punitha.ConsistentHash.Owner.{look_up_panics}
use telemetry_punitha.ConsistentHash.Rebalance.{same_brokers, same_virtual_nodes}
use telemetry_punitha.Proxy.{
  ProxyConfig, SmartProxy, new_smart_proxy, endpoint_of, discover, up_to_dot, discover_brokers,
  init_consistent_hash, init_broker_metrics, is_healthy, check_broker_health,
  get_broker_for_topic_partition,
}
use telemetry_punitha.Proxy.Routing.{IsStarted, init_IsStarted, owner_total}

-- time.Duration(n) * time.Second, an int64.
unfoldable pub seconds : ℤ → ℤ
seconds n = to_int (to_uint64 n * 1000000000 % 2 ^ 64)

unfoldable pub load_config : Environment → ProxyConfig
load_config env = record {
  port = get_env env (codes "PORT") (codes "8080");
  broker_service = get_env env (codes "BROKER_SERVICE") (codes "msg-queue");
  broker_count = get_env_int env (codes "BROKER_COUNT") (pos 2);
  virtual_nodes = get_env_int env (codes "VIRTUAL_NODES") (pos 150);
  max_partitions = get_env_int env (codes "MAX_PARTITIONS") (pos 2);
  health_interval = seconds (get_env_int env (codes "HEALTH_INTERVAL_SECONDS") (pos 30));
  request_timeout = seconds (get_env_int env (codes "REQUEST_TIMEOUT_SECONDS") (pos 60));
  connection_timeout = seconds (get_env_int env (codes "CONNECTION_TIMEOUT_SECONDS") (pos 10));
}

-- healthCheckLoop over some ticks, with what the brokers answer at each. `none` is the panic of
-- time.NewTicker, which ends the process.
check_ticks : List (Text → Option ℕ) → SmartProxy → SmartProxy
check_ticks [] sp = sp
check_ticks (probe ∷ probes) sp = check_ticks probes (check_broker_health probe sp)

unfoldable pub health_check_loop : List (Text → Option ℕ) → SmartProxy → Option SmartProxy
unfolding check_ticks
health_check_loop probes sp =
    if leb_ℤ sp.config.health_interval (pos 0) then none else some (check_ticks probes sp)

module _ (sha : Sha512) where
  -- Start up to the point where requests are served.
  unfoldable pub start : Environment → SmartProxy → Option SmartProxy
  start env sp = elim (discover_brokers (env (codes "NAMESPACE")) sp) [
    | none ↦ none
    | some found ↦ elim (init_consistent_hash sha found) [
      | none ↦ none
      | some ready ↦ health_check_loop [] (init_broker_metrics ready)
    ]
  ]
