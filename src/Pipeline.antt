-- ===== src/Pipeline.antt =====
-- How the parts meet: a publish of internal/shared/http_message_queue.go goes to the proxy of
-- services/msg_queue_proxy/main.go, and from there to a broker of services/msg_queue/main.go.
pub mod Answers
pub mod Publishing
pub mod Arrival
pub mod Reading
pub mod Broken
pub mod Routes
pub mod Dispatch
use telemetry_punitha.Prelude.{Text, codes, Option, none, some, Result, ok, err, ℕ}
use telemetry_punitha.Url.{query_get, server_of}
use telemetry_punitha.ConsistentHash.{Sha512}
use telemetry_punitha.MsgQueue.Message.{Codec}
use telemetry_punitha.MsgQueue.Http.{Response}
use telemetry_punitha.MsgQueue.Broker.{Broker}
use telemetry_punitha.MsgQueue.Handlers.{Bodies, ProduceCall}
use telemetry_punitha.MsgQueue.Http
use telemetry_punitha.MsgQueue.Handlers
use telemetry_punitha.Proxy.{SmartProxy}
use telemetry_punitha.Proxy.Requests.{Forwarded, unreachable, answered, Network, post}
use telemetry_punitha.Proxy.Requests
use telemetry_punitha.HttpQueue.{Post}

-- What a server makes of a POST: the query's values and the body.
unfoldable pub broker_request : Text → Text → Http.Request
broker_request url body = record {
  topic = query_get url (codes "topic");
  partition = query_get url (codes "partition");
  group = query_get url (codes "group");
  body = some body;
}

unfoldable pub proxy_request : Text → Requests.Request
proxy_request url = record {
  method = post;
  topic = query_get url (codes "topic");
  partition = query_get url (codes "partition");
  group = query_get url (codes "group");
}

-- The brokers by their endpoints, and what a call of produceHandler gets from outside.
module _ (codec : Codec) (bodies : Bodies) (call : ProduceCall) (brokers : Text → Broker) where
  -- A handler that panics closes the connection.
  unfoldable pub send_produce : Text → Text → Forwarded
  send_produce body url =
      elim (Handlers.produce_handler codec bodies call (broker_request url body)
        (brokers (server_of url))).0 [ none ↦ unreachable | some resp ↦ answered resp ]

  -- The client's POST to the proxy's path /produce, which the proxy passes on with the same body.
  unfoldable pub post_produce : Sha512 → ℕ → SmartProxy → Post
  post_produce sha latency sp url body =
      elim (Requests.produce_handler sha (record { send = send_produce body; latency = latency })
        (proxy_request url) sp) [ none ↦ err (codes "EOF") | some (resp, after) ↦ ok resp ]
