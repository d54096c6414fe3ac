-- ===== src/Proxy.antt =====
-- services/msg_queue_proxy/main.go: the type SmartProxy, its routing, health checks and counters.
-- A request is one step; the locks make it one for the maps that it reads and writes.
pub mod Requests
pub mod Routing
pub mod Health
pub mod Counters
pub mod Startup
pub mod Stats
pub mod Metered
pub mod Routed
pub mod Running
pub mod Routes
pub mod Service
use telemetry_punitha.Prelude.{
  ℕ, zero, suc, ◌+◌, ◌%◌, ◌^◌, Bool, true, false, ◌&&◌, List, [], ◌∷◌, ◌++◌, Option, none, some,
  Text, codes, text_eq, length, leb, ltb, if◌then◌else◌,
}
use telemetry_punitha.Prelude.Int.{ℤ, pos, negsuc, pos_part}
use telemetry_punitha.Prelude.Map.{Map, lookup, insert}
use telemetry_punitha.Strconv.{itoa_ℕ}
use telemetry_punitha.ConsistentHash.{
  Sha512, ConsistentHash, new_consistent_hash, get_broker_by_topic_partition,
  get_partition_distribution,
}

-- The durations are numbers of nanoseconds.
pub record ProxyConfig : Type 0 where
  pub port : Text
  pub broker_service : Text
  pub broker_count : ℤ
  pub virtual_nodes : ℤ
  pub max_partitions : ℤ
  pub health_interval : ℤ
  pub request_timeout : ℤ
  pub connection_timeout : ℤ

-- The counters of ProxyStats, int64 as bit patterns.
pub record ProxyStats : Type 0 where
  pub total_requests : ℕ
  pub produce_requests : ℕ
  pub consume_requests : ℕ
  pub ack_requests : ℕ
  pub health_requests : ℕ
  pub successful_requests : ℕ
  pub failed_requests : ℕ
  pub total_latency_ms : ℕ
  pub request_count : ℕ
  pub broker_request_counts : Map Text ℕ
  pub broker_errors : Map Text ℕ
  pub health_check_count : ℕ
  pub broker_failures : ℕ

pub record SmartProxy : Type 0 where
  pub config : ProxyConfig
  pub consistent_hash : ConsistentHash
  pub broker_endpoints : List Text
  pub healthy_brokers : Map Text Bool
  pub stats : ProxyStats

abbrev pub no_stats : ProxyStats
no_stats = record {
  total_requests = 0;
  produce_requests = 0;
  consume_requests = 0;
  ack_requests = 0;
  health_requests = 0;
  successful_requests = 0;
  failed_requests = 0;
  total_latency_ms = 0;
  request_count = 0;
  broker_request_counts = [];
  broker_errors = [];
  health_check_count = 0;
  broker_failures = 0;
}

-- The ring before initConsistentHash is a nil pointer, which is never read: Start runs the two
-- functions below before it serves a request. It stands for an empty one here.
unfoldable pub new_smart_proxy : ProxyConfig → SmartProxy
new_smart_proxy config = record {
  config = config;
  consistent_hash = record {
    ring = [];
    sorted_hashes = [];
    brokers = [];
    virtual_nodes = config.virtual_nodes;
  };
  broker_endpoints = [];
  healthy_brokers = [];
  stats = no_stats;
}

-- strings.Split(s, ".")[0]
up_to_dot : Text → Text
up_to_dot [] = []
up_to_dot (c ∷ s) = elim (leb c b'.' && leb b'.' c) [ true ↦ [] | false ↦ c ∷ up_to_dot s ]

-- The pod's URL: <service>-<i>.<service>-headless.<namespace>.svc.cluster.local.
unfoldable pub endpoint_of : Text → Text → ℕ → Text
endpoint_of service namespace i =
    codes "http://"
    ++ (service
        ++ (codes "-"
            ++ (itoa_ℕ i
                ++ (codes "."
                    ++ (service
                        ++ (codes "-headless."
                            ++ (namespace ++ codes ".svc.cluster.local:8080")))))))

-- The loop of discoverBrokers, with `n` brokers left from `i`.
discover : Text → Text → ℕ → ℕ → List Text × Map Text Bool → List Text × Map Text Bool
discover service namespace zero i acc = acc
discover service namespace (suc n) i (endpoints, healthy) =
    let endpoint = endpoint_of service namespace i in
    discover service namespace n (i + 1) (endpoints ++ endpoint ∷ [], insert endpoint true healthy)

-- `namespace` is the environment variable NAMESPACE, empty if it is not set. `none` is the panic of
-- `make` with a negative capacity.
unfoldable pub discover_brokers : Text → SmartProxy → Option SmartProxy
unfolding discover up_to_dot
discover_brokers namespace sp =
    let service = up_to_dot sp.config.broker_service in
    let space : Text = elim namespace [ [] ↦ codes "telemetry" | c ∷ s ↦ c ∷ s ] in
    elim sp.config.broker_count [
      | negsuc n ↦ none
      | pos n ↦
          let (endpoints, healthy) = discover service space n 0 ([], sp.healthy_brokers) in
          some (record sp { broker_endpoints = endpoints; healthy_brokers = healthy })
    ]

-- sp.healthyBrokers[endpoint]
unfoldable pub is_healthy : Text → SmartProxy → Bool
is_healthy endpoint sp = elim (lookup endpoint sp.healthy_brokers) [ none ↦ false | some h ↦ h ]

-- The first healthy endpoint of a list, or the other broker.
first_healthy : List Text → Text → SmartProxy → Text
first_healthy [] broker sp = broker
first_healthy (e ∷ es) broker sp = if is_healthy e sp then e else first_healthy es broker sp

module _ (sha : Sha512) where
  -- `none` is a panic: here that of GetPartitionDistribution, whose result is only logged.
  unfoldable pub init_consistent_hash : SmartProxy → Option SmartProxy
  init_consistent_hash sp =
      let ring = new_consistent_hash sha sp.broker_endpoints sp.config.virtual_nodes in
      elim (get_partition_distribution sha sp.config.max_partitions ring) [
        | none ↦ none
        | some distribution ↦ some (record sp { consistent_hash = ring })
      ]

  -- `none` is the panic of the ring's look-up.
  unfoldable pub get_broker_for_topic_partition : Text → ℤ → SmartProxy → Option Text
  unfolding first_healthy
  get_broker_for_topic_partition topic partition sp =
      elim (get_broker_by_topic_partition sha topic partition sp.consistent_hash) [
        | none ↦ none
        | some broker ↦
            some
              (if is_healthy broker sp then broker else first_healthy sp.broker_endpoints broker sp)
      ]

zero_counts : List Text → Map Text ℕ → Map Text ℕ
zero_counts [] m = m
zero_counts (e ∷ es) m = zero_counts es (insert e 0 m)

unfoldable pub init_broker_metrics : SmartProxy → SmartProxy
unfolding zero_counts
init_broker_metrics sp =
    let s = sp.stats in
    record sp {
      stats = record s {
        broker_request_counts = zero_counts sp.broker_endpoints s.broker_request_counts;
        broker_errors = zero_counts sp.broker_endpoints s.broker_errors;
      };
    }

-- atomic.AddInt64
abbrev pub add_int64 : ℕ → ℕ → ℕ
add_int64 a b = (a + b) % 2 ^ 64

-- m[k]++
unfoldable pub increment : Text → Map Text ℕ → Map Text ℕ
increment k m = insert k (add_int64 (elim (lookup k m) [ none ↦ 0 | some n ↦ n ]) 1) m

pub data RequestType : Type 0 where
  produce consume ack health topics : RequestType

-- The `switch` of recordRequest, in which "topics" has no case.
unfoldable pub count_type : RequestType → ProxyStats → ProxyStats
count_type produce s = record s { produce_requests = add_int64 s.produce_requests 1 }
count_type consume s = record s { consume_requests = add_int64 s.consume_requests 1 }
count_type ack s = record s { ack_requests = add_int64 s.ack_requests 1 }
count_type health s = record s { health_requests = add_int64 s.health_requests 1 }
count_type topics s = s

unfoldable pub count_outcome : Text → Bool → ProxyStats → ProxyStats
count_outcome broker true s = record s {
  successful_requests = add_int64 s.successful_requests 1;
  broker_request_counts = increment broker s.broker_request_counts;
}
count_outcome broker false s = record s {
  failed_requests = add_int64 s.failed_requests 1;
  broker_errors = increment broker s.broker_errors;
}

-- recordRequest, less its Prometheus counters.
unfoldable pub record_request : RequestType → Text → ℕ → Bool → SmartProxy → SmartProxy
unfolding count_type count_outcome
record_request kind broker latency success sp =
    let s = count_outcome broker success (count_type kind sp.stats) in
    record sp {
      stats = record s {
        total_requests = add_int64 s.total_requests 1;
        total_latency_ms = add_int64 s.total_latency_ms latency;
        request_count = add_int64 s.request_count 1;
      };
    }

-- One round of checkBrokerHealth's loop; `probe` is the status of the answer to GET /health, or
-- none for an error.
unfoldable pub check_endpoint : Text → Option ℕ → SmartProxy → SmartProxy
check_endpoint endpoint probe sp =
    let s = sp.stats in
    if elim probe [ none ↦ false | some status ↦ leb status 200 && leb 200 status ]
    then record sp { healthy_brokers = insert endpoint true sp.healthy_brokers }
    else record sp {
      healthy_brokers = insert endpoint false sp.healthy_brokers;
      stats = record s {
        broker_failures =
            if is_healthy endpoint sp then add_int64 s.broker_failures 1 else s.broker_failures;
      };
    }

unfoldable pub check_endpoints : (Text → Option ℕ) → List Text → SmartProxy → SmartProxy
check_endpoints probe [] sp = sp
check_endpoints probe (e ∷ es) sp = check_endpoints probe es (check_endpoint e (probe e) sp)

unfoldable pub check_broker_health : (Text → Option ℕ) → SmartProxy → SmartProxy
check_broker_health probe sp =
    let s = sp.stats in
    check_endpoints probe sp.broker_endpoints
      (record sp { stats = record s { health_check_count = add_int64 s.health_check_count 1 } })
