-- ===== src/Services.antt =====
-- Which queue the collector and the streamer use, services/collector/main.go and
-- services/streamer/main.go.
pub mod Agreement
use telemetry_punitha.Prelude.{
  ℕ, ◌*◌, ◌%◌, ◌^◌, Option, List, [], Text, codes, text_eq, ◌==◌, if◌then◌else◌, Bool, true, false,
  Result, none, some, ok, err,
}
use telemetry_punitha.Prelude.Int.{ℤ, pos, to_int, to_uint64}
use telemetry_punitha.Strconv.{atoi}
use telemetry_punitha.Config.{Environment, Config, load}
use telemetry_punitha.HttpQueue.{HttpMessageQueue, new_http_message_queue}
use telemetry_punitha.RedisQueue.{RedisStreamQueue}
use telemetry_punitha.Influx.Client.{InfluxWriter, new_influx_writer}

-- The implementations of the interface MessageQueue of internal/shared/message_queue.go. The
-- consumer group that NewRedisStreamQueue creates is left out here.
pub data MessageQueue : Type 0 where
  http : HttpMessageQueue → MessageQueue
  redis : RedisStreamQueue → MessageQueue

abbrev second : ℕ
second = 1000000000

-- os.Getenv with a default.
abbrev pub given_or : Text → Text → Text
given_or default_value value = if value == [] then default_value else value

unfoldable pub redis_queue : Environment → Text → RedisStreamQueue
redis_queue env name = record {
  addr = given_or (codes "redis:6379") (env (codes "REDIS_ADDR"));
  stream = given_or (codes "telemetry") (env (codes "REDIS_STREAM"));
  group = given_or (codes "telemetry_group") (env (codes "REDIS_GROUP"));
  name = name;
}

unfoldable pub http_queue : Environment → Text → HttpMessageQueue
http_queue env name =
    let cfg = load env in
    new_http_message_queue (env (codes "MAX_PARTITIONS")) cfg.msg_queue_addr cfg.msg_queue_topic
      cfg.msg_queue_group name

-- NewCollectorService's queue.
unfoldable pub collector_queue : Environment → MessageQueue
collector_queue env =
    if (load env).use_http_queue
    then http (http_queue env (load env).msg_queue_consumer_name)
    else redis (redis_queue env (given_or (codes "Collector") (env (codes "REDIS_CONSUMER_NAME"))))

-- NewCollectorService's client of the database.
unfoldable pub collector_influx : Environment → InfluxWriter
collector_influx env =
    let cfg = load env in
    new_influx_writer cfg.influxdb_url cfg.influxdb_token cfg.influxdb_org cfg.influxdb_bucket

-- NewStreamerService's queue.
unfoldable pub streamer_queue : Environment → MessageQueue
streamer_queue env =
    if (load env).use_http_queue
    then http (http_queue env (load env).msg_queue_producer_name)
    else redis (redis_queue env (given_or (codes "streamer") (env (codes "REDIS_PRODUCER_NAME"))))

-- What the streamer's Start streams: the file and the delay in nanoseconds, or nothing if CSV_PATH
-- is not set.
unfoldable pub csv_job : Environment → Option (Text × ℤ)
csv_job env =
    let csv_path = env (codes "CSV_PATH") in
    let d = env (codes "CSV_DELAY_MS") in
    let delay = if d == [] then pos second else elim (atoi d) [
      | none ↦ pos second
      | some ms ↦ to_int (to_uint64 ms * 1000000 % 2 ^ 64)
    ] in
    if csv_path == [] then none else some (csv_path, delay)
