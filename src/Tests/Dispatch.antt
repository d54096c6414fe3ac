-- ===== src/Tests/Dispatch.antt =====
-- The paths of the requests at concrete endpoints.
use telemetry_punitha.Url.{is_wire}
use telemetry_punitha.Prelude.{true, ◌≡◌, refl, [], ◌++◌, Option, some, Text, codes, mentions}
use telemetry_punitha.Prelude.Int.{ℤ, pos}
use telemetry_punitha.HttpQueue.{publish_url, ack_url, consume_url}
use telemetry_punitha.Proxy.{SmartProxy}
use telemetry_punitha.Proxy.Requests.{Network, unreachable, target_url, group_url}
use telemetry_punitha.Proxy.Requests
use telemetry_punitha.Proxy.Service as ProxyService
use telemetry_punitha.MsgQueue.Http
use telemetry_punitha.MsgQueue.Broker.{Broker}
use telemetry_punitha.MsgQueue.Broker
use telemetry_punitha.MsgQueue.Handlers
use telemetry_punitha.MsgQueue.Service as BrokerService
use telemetry_punitha.Pipeline.Publishing.{IsEndpoint}
use telemetry_punitha.Pipeline.Dispatch.{client_requests_dispatched, proxy_requests_dispatched}
use telemetry_punitha.Tests.HttpQueue.{client}
use telemetry_punitha.Tests.Samples.{
  sample_sha, sample_json, sample_bodies, sample_call, sample_broker,
}
use telemetry_punitha.Tests.Queues.{started}
use telemetry_punitha.Tests.Startup.{naturals}

abbrev broker : Text
broker = codes "http://msg-queue-0:8080"

broker-IsEndpoint : IsEndpoint broker
unfolding mentions
broker-IsEndpoint = record {
  host = codes "msg-queue-0:8080";
  same = refl;
  no_path = refl;
  base = record { no_query = refl; no_fragment = refl };
}

client-IsEndpoint : IsEndpoint client.base_url
unfolding mentions
client-IsEndpoint = record {
  host = codes "p";
  same = refl;
  no_path = refl;
  base = record { no_query = refl; no_fragment = refl };
}

proxy_wire : is_wire client.base_url ≡ true
unfolding is_wire
proxy_wire = refl

broker_wire : is_wire broker ≡ true
unfolding is_wire
broker_wire = refl

topic_wire : is_wire (codes "events#1") ≡ true
unfolding is_wire
topic_wire = refl

events_wire : is_wire (codes "events") ≡ true
unfolding is_wire
events_wire = refl

group_wire : is_wire (codes "g") ≡ true
unfolding is_wire
group_wire = refl

abbrev net : Network
net = record { send = λ url. unreachable; latency = 12 }

abbrev answers : Text → Text → Option (ProxyService.Reply ℤ × SmartProxy)
answers method url = ProxyService.serve_http sample_sha naturals net [] (pos 7) method url started

client_requests_dispatched_example :
    (answers (codes "POST") (publish_url client (codes "events#1") (pos 1))
      ≡ ProxyService.answered_by (
          Requests.produce_handler sample_sha net
            (ProxyService.read_request
              (codes "POST")
              (publish_url client (codes "events#1") (pos 1)))
            started))
    × (answers (codes "GET") (consume_url client (pos 1))
        ≡ ProxyService.answered_by (
            Requests.consume_handler sample_sha net
              (ProxyService.read_request (codes "GET") (consume_url client (pos 1)))
              started))
    × (answers (codes "POST") (ack_url client (codes "events#1") (pos 1))
        ≡ ProxyService.answered_by (
            Requests.ack_handler sample_sha net
              (ProxyService.read_request (codes "POST") (ack_url client (codes "events#1") (pos 1)))
              started))
    × (answers (codes "GET") (client.base_url ++ codes "/topics")
        ≡ ProxyService.answered_by (
            some (
              Requests.topics_handler net []
                (ProxyService.read_request (codes "GET") (client.base_url ++ codes "/topics"))
                started)))
client_requests_dispatched_example =
    client_requests_dispatched sample_sha naturals net [] (pos 7) client client-IsEndpoint
      (codes "events#1") (pos 1) started proxy_wire topic_wire events_wire group_wire

abbrev replies : Text → Text → Option BrokerService.Reply × Broker
replies method url =
    BrokerService.serve_http sample_json sample_bodies sample_call [] method url
      (some (codes "{\"payload\":\"r\"}")) sample_broker

abbrev targets : Text → Http.Request
targets url = BrokerService.read_request url (some (codes "{\"payload\":\"r\"}"))

abbrev produce_at : Text
produce_at = target_url broker (codes "/produce") (codes "events") (pos 1)

abbrev consume_at : Text
consume_at = group_url broker (codes "/consume") (codes "events") (pos 1) (codes "g")

abbrev ack_at : Text
ack_at = group_url broker (codes "/ack") (codes "events") (pos 1) (codes "g")

proxy_requests_dispatched_example :
    (replies (codes "POST") produce_at
      ≡ BrokerService.produced (
          Handlers.produce_handler sample_json sample_bodies sample_call
            (targets produce_at)
            sample_broker))
    × (replies (codes "GET") consume_at
        ≡ BrokerService.consumed (
            Handlers.consume_handler sample_json sample_call.env []
              (targets consume_at)
              sample_broker))
    × (replies (codes "POST") ack_at
        ≡ BrokerService.acked
            (Handlers.ack_handler sample_bodies sample_call.env (targets ack_at) sample_broker))
    × (replies (codes "GET") (broker ++ codes "/topics")
        ≡ (some (BrokerService.topics_page (Broker.topics_handler sample_broker)), sample_broker))
    × (replies (codes "GET") (broker ++ codes "/health")
        ≡ (some (BrokerService.health_page (Broker.health_handler sample_broker)), sample_broker))
proxy_requests_dispatched_example =
    proxy_requests_dispatched sample_json sample_bodies sample_call [] broker (codes "events")
      (codes "g") (pos 1) (some (codes "{\"payload\":\"r\"}")) sample_broker broker-IsEndpoint
      broker_wire events_wire group_wire
