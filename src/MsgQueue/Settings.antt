-- ===== src/MsgQueue/Settings.antt =====
-- The settings of services/msg_queue/main.go: getQueueSize, and the broker that main makes.
pub mod Topics
pub mod QueueSize
use telemetry_punitha.Prelude.{
  ℕ, List, [], ◌∷◌, none, some, Text, codes, text_eq, ◌==◌, split, if◌then◌else◌,
}
use telemetry_punitha.Prelude.Int.{ℤ, pos, ltb_ℤ}
use telemetry_punitha.Prelude.Map.{Map, insert}
use telemetry_punitha.Strconv.{atoi, atoi_value}
use telemetry_punitha.Config.{Environment}
use telemetry_punitha.MsgQueue.Broker.{Broker, new_broker}

abbrev pub default_queue_size : ℤ
default_queue_size = pos 1000

-- In nanoseconds.
abbrev pub default_visibility_timeout : ℕ
default_visibility_timeout = 30000000000

unfoldable pub get_queue_size : Environment → ℤ
get_queue_size env =
    let size_str = env (codes "QUEUE_SIZE") in
    if size_str == [] then default_queue_size else elim (atoi size_str) [
      | none ↦ default_queue_size
      | some size ↦ if ltb_ℤ default_queue_size size then size else default_queue_size
    ]

-- The body of the loop, on one part.
unfoldable pub set_topic : List Text → Map Text ℤ → Map Text ℤ
set_topic (topic ∷ n ∷ []) topics = insert topic (atoi_value n) topics
set_topic kv topics = topics

set_topics : List Text → Map Text ℤ → Map Text ℤ
set_topics [] topics = topics
set_topics (part ∷ parts) topics =
    set_topics parts (if part == [] then topics else set_topic (split b':' part) topics)

-- events:8,orders:4
unfoldable pub parse_topics : Text → Map Text ℤ
unfolding set_topics
parse_topics tcfg = set_topics (split b',' tcfg) []

abbrev pub standard_topics : Map Text ℤ
standard_topics = (codes "events", pos 8) ∷ (codes "orders", pos 4) ∷ (codes "default", pos 8) ∷ []

unfoldable pub topics_conf : Environment → Map Text ℤ
topics_conf env =
    let tcfg = env (codes "TOPICS") in if tcfg == [] then standard_topics else parse_topics tcfg

unfoldable pub broker_index_of : Environment → ℤ
broker_index_of env =
    let v = env (codes "BROKER_INDEX") in
    if v == [] then pos 0 else elim (atoi v) [ none ↦ pos 0 | some n ↦ n ]

unfoldable pub broker_count_of : Environment → ℤ
broker_count_of env =
    let v = env (codes "BROKER_COUNT") in
    if v == []
    then pos 1
    else elim (atoi v) [ none ↦ pos 1 | some n ↦ if ltb_ℤ (pos 0) n then n else pos 1 ]

-- The broker with which main serves.
unfoldable pub broker_of : Environment → Broker
broker_of env =
    new_broker (topics_conf env) default_visibility_timeout (broker_index_of env)
      (broker_count_of env)
