-- ===== src/Tests/Startup.antt =====
-- The settings of the services and the start of the proxy at concrete inputs.
use telemetry_punitha.Prelude.{
  Option, ℕ, ◌≡◌, refl, inl, inr, true, false, List, [], ◌∷◌, none, some, Text, codes, text_eq,
  text_eqb, ◌==◌, length, if◌then◌else◌, arith, mentions,
}
use telemetry_punitha.Prelude.Int.{ℤ, pos, ltb_ℤ}
use telemetry_punitha.Prelude.Map.{Map, lookup}
use telemetry_punitha.Config.{Environment}
use telemetry_punitha.Strconv.{itoa, itoa_ℕ}
use telemetry_punitha.ConsistentHash.{contains, get_broker_by_topic_partition}
use telemetry_punitha.Proxy.{
  SmartProxy, ProxyConfig, check_broker_health, new_smart_proxy, is_healthy,
  get_broker_for_topic_partition, is_healthy, produce, ack, health,
}
use telemetry_punitha.Proxy.Routing.{IsStarted}
use telemetry_punitha.Proxy.Startup.{start}
use telemetry_punitha.Proxy.Startup.Serving.{start_serves, start_panics}
use telemetry_punitha.Proxy.Routed.{IsSameProxy}
use telemetry_punitha.Proxy.Running.{IsTidy, stays, and_then, checks, runs_on}
use telemetry_punitha.Proxy.Stats.{Float64, stats_handler}
use telemetry_punitha.Proxy.Stats.Log.{Call, Tallies, record_all, stats_handler-record_all}
use telemetry_punitha.MsgQueue.Broker.{get_partition}
use telemetry_punitha.MsgQueue.Settings.{broker_of}
use telemetry_punitha.MsgQueue.Settings.Topics.{
  AreTopics, none_left, one_more, print_topics, print_topic, assign, is_ok, produce_admitted,
}
use telemetry_punitha.MsgQueue.Ids.{are_bytes, decode, gen_id, gen_id_lem}
use telemetry_punitha.HttpQueue.Lines.{IsLine}
use telemetry_punitha.Tests.Samples.{sample_sha, sample_env}
use telemetry_punitha.ConsistentHash.{contains}
use telemetry_punitha.Tests.Proxy.{config}

abbrev nothing_set : Environment
nothing_set key = []

start_serves_example :
    (sp : SmartProxy) × (start sample_sha nothing_set (new_smart_proxy config) ≡ some sp)
    × IsStarted sample_sha sp
    × (length sp.broker_endpoints ≡ 2)
    × ((e : Text) → is_healthy e sp ≡ contains e sp.broker_endpoints)
    × ((topic : Text) (partition : ℤ)
        → get_broker_for_topic_partition sample_sha topic partition sp
          ≡ get_broker_by_topic_partition sample_sha topic partition sp.consistent_hash)
start_serves_example = start_serves sample_sha nothing_set config 1 0 refl refl refl

abbrev no_interval : ProxyConfig
no_interval = record config { health_interval = pos 0 }

start_panics_example : start sample_sha nothing_set (new_smart_proxy no_interval) ≡ none
start_panics_example = start_panics sample_sha nothing_set no_interval (inr (inl refl))

abbrev pub naturals : Float64
naturals = record {
  Float = ℤ;
  of_int = λ z. z;
  divide = λ a b. a;
  multiply = λ a b. a;
  is_positive = λ a. true;
}

abbrev pub calls : List Call
calls =
    record { kind = produce; broker = codes "a"; latency = 3; success = true }
    ∷ record { kind = ack; broker = codes "a"; latency = 4; success = false }
    ∷ record { kind = health; broker = codes "b"; latency = 1; success = true }
    ∷ []

stats_handler-record_all_example :
    Tallies ℤ calls (stats_handler naturals (pos 5) (record_all calls (new_smart_proxy config)))
stats_handler-record_all_example = stats_handler-record_all naturals (pos 5) config calls

abbrev pairs : Map Text ℤ
pairs = (codes "events", pos 8) ∷ (codes "orders", pos 4) ∷ []

abbrev topics_set : Environment
topics_set key = if key == codes "TOPICS" then codes "events:8,orders:4" else []

topics_text : topics_set (codes "TOPICS") ≡ print_topics pairs
unfolding text_eqb print_topics print_topic itoa itoa_ℕ
topics_text = refl

pairs-AreTopics : AreTopics pairs
unfolding mentions
pairs-AreTopics = one_more (refl, refl, omega arith) (one_more (refl, refl, omega arith) none_left)

produce_admitted_example :
    is_ok (get_partition sample_env (codes "orders") (pos 4) true (broker_of topics_set)).0
    ≡ elim (lookup (codes "orders") (assign pairs [])) [ none ↦ false | some n ↦ ltb_ℤ (pos 4) n ]
produce_admitted_example =
    produce_admitted topics_set sample_env [] (codes "events", pos 8) ((codes "orders", pos 4) ∷ [])
      (codes "orders") (pos 4) topics_text pairs-AreTopics refl

abbrev random : Text
random = 0 ∷ 255 ∷ 17 ∷ 4 ∷ 200 ∷ 9 ∷ 1 ∷ 77 ∷ 128 ∷ 3 ∷ 90 ∷ 61 ∷ 250 ∷ 33 ∷ 8 ∷ 5 ∷ []

random_bytes : are_bytes random ≡ true
unfolding are_bytes
random_bytes = refl

gen_id_lem_example :
    (decode (gen_id random) ≡ random) × (length (gen_id random) ≡ 22) × IsLine (gen_id random)
gen_id_lem_example = gen_id_lem random random_bytes refl

-- The proxy after its start.
begun : (sp : SmartProxy) × (start sample_sha nothing_set (new_smart_proxy config) ≡ some sp)
begun =
    let (sp, at, _, _, _, _) = start_serves sample_sha nothing_set config 1 0 refl refl refl in
    (sp, at)

abbrev all_down : Text → Option ℕ
all_down e = some 503

runs_on_example :
    IsSameProxy begun.0 (check_broker_health all_down begun.0)
    × IsTidy (check_broker_health all_down begun.0)
    × IsStarted sample_sha (check_broker_health all_down begun.0)
    × ((topic : Text) (partition : ℤ)
        → (broker : Text) × (get_broker_for_topic_partition sample_sha topic partition
              (check_broker_health all_down begun.0)
            ≡ some broker)
          × (contains broker (check_broker_health all_down begun.0).broker_endpoints ≡ true)
          × (((e : Text) × (is_healthy e (check_broker_health all_down begun.0) ≡ true))
              → is_healthy broker (check_broker_health all_down begun.0) ≡ true))
runs_on_example =
    runs_on sample_sha nothing_set config 1 0 begun.0 (check_broker_health all_down begun.0) refl
      refl refl begun.1 (and_then stays (checks all_down))
