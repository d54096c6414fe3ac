-- ===== src/Tests/Proxy.antt =====
-- SmartProxy, services/msg_queue_proxy/main.go, at concrete inputs.
use telemetry_punitha.Prelude.{
  ℕ, ◌<◌, ◌≡◌, refl, ◌⊎◌, true, false, [], ◌∷◌, Option, none, some, Text, codes, text_eq, text_eqb,
  ◌==◌, arith, if◌then◌else◌, length,
}
use telemetry_punitha.Prelude.Int.{pos, int_eq, pos_part}
use telemetry_punitha.Prelude.Map.{lookup}
use telemetry_punitha.ConsistentHash.{contains, new_consistent_hash, get_broker_by_topic_partition}
use telemetry_punitha.Proxy.{
  ProxyConfig, SmartProxy, no_stats, new_smart_proxy, is_healthy, get_broker_for_topic_partition,
  check_broker_health,
}
use telemetry_punitha.Proxy.Routing.{IsStarted, init_IsStarted, route_healthy}
use telemetry_punitha.Proxy.Health.{route-check_broker_health}
use telemetry_punitha.Tests.Samples.{sample_sha}

abbrev pub config : ProxyConfig
config = record {
  port = codes "8080";
  broker_service = codes "mq";
  broker_count = pos 2;
  virtual_nodes = pos 1;
  max_partitions = pos 2;
  health_interval = pos 30;
  request_timeout = pos 60;
  connection_timeout = pos 10;
}

abbrev found : SmartProxy
found = record {
  config = config;
  consistent_hash = (new_smart_proxy config).consistent_hash;
  broker_endpoints = codes "a" ∷ codes "bb" ∷ [];
  healthy_brokers = (codes "a", true) ∷ (codes "bb", false) ∷ [];
  stats = no_stats;
}

two : 0 < length found.broker_endpoints
two = omega arith

one_node : 0 < pos_part found.config.virtual_nodes
one_node = omega arith

abbrev started : SmartProxy
started = record found {
  consistent_hash = new_consistent_hash sample_sha (codes "a" ∷ codes "bb" ∷ []) (pos 1);
}

started-IsStarted : IsStarted sample_sha started
started-IsStarted = (init_IsStarted sample_sha found two one_node).1

a_member : contains (codes "a") started.broker_endpoints ≡ true
unfolding contains text_eqb
a_member = refl

a_up : is_healthy (codes "a") started ≡ true
unfolding is_healthy lookup text_eqb
a_up = refl

route_healthy_example :
    (owner : Text) × (broker : Text) × (get_broker_by_topic_partition sample_sha
        (codes "t")
        (pos 1)
        started.consistent_hash
      ≡ some owner)
    × (get_broker_for_topic_partition sample_sha (codes "t") (pos 1) started ≡ some broker)
    × (contains broker started.broker_endpoints ≡ true)
    × (is_healthy broker started ≡ true)
    × ((broker ≡ owner) ⊎ (is_healthy owner started ≡ false))
route_healthy_example =
    route_healthy sample_sha started started-IsStarted (codes "t") (pos 1) (codes "a") a_member a_up

abbrev down : SmartProxy
down = record started { healthy_brokers = [] }

down-IsStarted : IsStarted sample_sha down
down-IsStarted = record {
  built = started-IsStarted.built;
  same_brokers = started-IsStarted.same_brokers;
  some_broker = started-IsStarted.some_broker;
  some_node = started-IsStarted.some_node;
}

all_down : (e : Text) → contains e down.broker_endpoints ≡ true → is_healthy e down ≡ false
unfolding is_healthy lookup
all_down e m = refl

abbrev only_bb : Text → Option ℕ
only_bb e = if e == codes "bb" then some 200 else none

bb_member : contains (codes "bb") started.broker_endpoints ≡ true
unfolding contains text_eqb
bb_member = refl

bb_up : only_bb (codes "bb") ≡ some 200
unfolding text_eqb
bb_up = refl

route-check_broker_health_example :
    (broker : Text) × (get_broker_for_topic_partition sample_sha
        (codes "t")
        (pos 1)
        (check_broker_health only_bb started)
      ≡ some broker)
    × (contains broker started.broker_endpoints ≡ true)
    × (only_bb broker ≡ some 200)
route-check_broker_health_example =
    route-check_broker_health sample_sha started only_bb (codes "t") (pos 1) (codes "bb")
      started-IsStarted bb_member bb_up
