-- ===== src/Config.antt =====
-- config/config.go: the configuration that the streamer and the collector load. An environment
-- gives each variable's value, empty if it is not set (os.Getenv).
use telemetry_punitha.Prelude.{Bool, [], none, some, Text, codes, text_eq, ◌==◌, if◌then◌else◌}
use telemetry_punitha.Prelude.Int.{ℤ, pos}
use telemetry_punitha.Strconv.{atoi}

abbrev pub Environment : Type 0
Environment = Text → Text

unfoldable pub get_env : Environment → Text → Text → Text
get_env env key default_value = if env key == [] then default_value else env key

unfoldable pub get_env_int : Environment → Text → ℤ → ℤ
get_env_int env key default_value =
    if env key == []
    then default_value
    else elim (atoi (env key)) [ none ↦ default_value | some n ↦ n ]

pub record Config : Type 0 where
  pub influxdb_url : Text
  pub influxdb_token : Text
  pub influxdb_org : Text
  pub influxdb_bucket : Text
  pub use_http_queue : Bool
  pub msg_queue_addr : Text
  pub msg_queue_topic : Text
  pub msg_queue_group : Text
  pub msg_queue_consumer_name : Text
  pub msg_queue_producer_name : Text
  pub csv_path : Text
  pub csv_delay_ms : ℤ
  pub port : Text

unfoldable pub load : Environment → Config
load env = record {
  influxdb_url = get_env env (codes "INFLUXDB_URL") (codes "http://influxdb:8086");
  influxdb_token = get_env env (codes "INFLUXDB_TOKEN") (codes "supersecrettoken");
  influxdb_org = get_env env (codes "INFLUXDB_ORG") (codes "telemetryorg");
  influxdb_bucket = get_env env (codes "INFLUXDB_BUCKET") (codes "telem_bucket");
  use_http_queue = get_env env (codes "USE_HTTP_QUEUE") (codes "true") == codes "true";
  msg_queue_addr =
      get_env env (codes "MSG_QUEUE_ADDR") (codes "http://msg-queue-proxy-service:8080");
  msg_queue_topic = get_env env (codes "MSG_QUEUE_TOPIC") (codes "telemetry");
  msg_queue_group = get_env env (codes "MSG_QUEUE_GROUP") (codes "telemetry_group");
  msg_queue_consumer_name = get_env env (codes "MSG_QUEUE_CONSUMER_NAME") (codes "collector");
  msg_queue_producer_name = get_env env (codes "MSG_QUEUE_PRODUCER_NAME") (codes "streamer");
  csv_path = get_env env (codes "CSV_PATH") (codes "/data/dcgm_metrics_20250718_134233.csv");
  csv_delay_ms = get_env_int env (codes "CSV_DELAY_MS") (pos 1000);
  port = get_env env (codes "PORT") (codes "8080");
}
