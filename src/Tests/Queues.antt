-- ===== src/Tests/Queues.antt =====
-- The queue clients against each other and against the proxy and the broker, at concrete inputs.
use telemetry_punitha.Prelude.{
  ℕ, ◌+◌, ◌<◌, ◌≡◌, refl, ◌↔◌, ◌⊎◌, Bool, true, false, List, [], ◌∷◌, ◌++◌, map, Option, none, some,
  Text, codes, text_eq, text_eqb, ◌==◌, get_elem?, subst, ◌∙◌, text_eqb_iff, arith, All, eqb,
  length, mentions, ok, if◌then◌else◌,
}
use telemetry_punitha.Prelude.Int.{ℤ, pos, int_eq}
use telemetry_punitha.Prelude.Map.{lookup, insert}
use telemetry_punitha.Config.{Environment, load, get_env}
use telemetry_punitha.MsgQueue.Message.{Message}
use telemetry_punitha.MsgQueue.Http.{Response}
use telemetry_punitha.MsgQueue.Broker.{Broker}
use telemetry_punitha.MsgQueue.Handlers.{message_of}
use telemetry_punitha.MsgQueue.Handlers
use telemetry_punitha.MsgQueue.Handlers.Delivery.{IsStored}
use telemetry_punitha.MsgQueue.Partition.{message, sweep}
use telemetry_punitha.MsgQueue.Partition.Fifo.{fetch_all}
use telemetry_punitha.MsgQueue.Partition.Timeouts.{visits}
use telemetry_punitha.MsgQueue.Partition.Redelivery.{redelivery}
use telemetry_punitha.MsgQueue.Partition
use telemetry_punitha.HttpQueue.{HttpMessageQueue, calculate_publish_partition, publish}
use telemetry_punitha.HttpQueue.Stream.{stream}
use telemetry_punitha.HttpQueue.Delivery.{handle_all}
use telemetry_punitha.HttpQueue.Subscribing.{
  Attempt, no_response, responded, Session, ends, lost, streams, consumers, consume_from_partition,
  consume_from_partition_lem,
}
use telemetry_punitha.RedisQueue.{Reply, nothing, subscribe, returns}
use telemetry_punitha.RedisQueue
use telemetry_punitha.RedisQueue.Delivery.{
  Batches, no_reply, idle, batch, entry_of, ack_of, taken, subscribe-consume_from_partition,
}
use telemetry_punitha.Services.{http, streamer_queue, collector_queue}
use telemetry_punitha.Services.Agreement.{published_consumed}
use telemetry_punitha.ConsistentHash.{new_consistent_hash, contains}
use telemetry_punitha.Url.Queries.{IsQueryText, IsBase}
use telemetry_punitha.Proxy.{
  SmartProxy, no_stats, new_smart_proxy, is_healthy, get_broker_for_topic_partition,
}
use telemetry_punitha.Proxy.Routing.{IsStarted, init_IsStarted, route_healthy}
use telemetry_punitha.Proxy.Requests.{target_url}
use telemetry_punitha.Pipeline.{broker_request, post_produce}
use telemetry_punitha.Pipeline.Publishing.{IsEndpoint, publish-IsStored}
use telemetry_punitha.Tests.Proxy.{config}
use telemetry_punitha.Tests.Samples.{
  first, second, sample_json, sample_bodies, sample_call, sample_broker, sample_sha, busy_partition,
}
use telemetry_punitha.Tests.HttpQueue.{
  client, object, only_a, first-IsStreamable, second-IsStreamable,
}

redelivery_example :
    (r : Partition.Partition) × (i : ℕ) × (sweep 41 (codes "a" ∷ []) busy_partition ≡ some ([], r))
    × (i < 1)
    × (get_elem? (fetch_all ((codes "g", 42) ∷ []) r) i ≡ some (message first))
unfolding text_eqb lookup visits
redelivery_example =
    redelivery 41 (codes "a") (record { msg = first; deadline = 40; group = codes "g" })
      (codes "a" ∷ []) ((codes "g", 42) ∷ []) busy_partition refl refl refl refl (omega arith)
      (omega arith)

abbrev attempts : List Attempt
attempts =
    no_response (codes "refused")
    ∷ responded (record { status = 200; body = stream sample_json (first ∷ []) })
    ∷ responded (record { status = 200; body = stream sample_json (second ∷ []) })
    ∷ []

session : Session sample_json 65536 attempts (first ∷ second ∷ [])
session = lost (codes "refused") (
    streams _ (first ∷ []) refl refl (first-IsStreamable, tt)
      (streams _ (second ∷ []) refl refl (second-IsStreamable, tt) ends))

consume_from_partition_lem_example :
    consume_from_partition sample_json object client only_a 65536 attempts 0
    ≡ (none, handle_all sample_json object client only_a (first ∷ second ∷ []) 0)
consume_from_partition_lem_example =
    consume_from_partition_lem sample_json object client only_a 65536 0 session

abbrev replies : List Reply
replies = RedisQueue.streams ((entry_of first ∷ entry_of second ∷ []) ∷ []) ∷ nothing ∷ []

batches : Batches replies (first ∷ second ∷ [])
batches = batch ((first ∷ second ∷ []) ∷ []) (idle no_reply)

subscribe-consume_from_partition_example :
    (subscribe only_a replies 0 ≡ (
      returns _,
      (
        map (λ (m : Message). m.id) (taken only_a (first ∷ second ∷ []) 0).0,
        (taken only_a (first ∷ second ∷ []) 0).1,
      ),
    ))
    × (consume_from_partition sample_json object client only_a 65536 attempts 0 ≡ (
      none,
      (
        map (ack_of object client) (taken only_a (first ∷ second ∷ []) 0).0,
        (taken only_a (first ∷ second ∷ []) 0).1,
      ),
    ))
subscribe-consume_from_partition_example =
    subscribe-consume_from_partition only_a sample_json object client 65536 0 batches session

abbrev some_set : Environment
some_set key = if key == codes "MAX_PARTITIONS" then codes "5" else []

http_chosen : (load some_set).use_http_queue ≡ true
unfolding load get_env text_eqb
http_chosen = refl

published_consumed_example :
    (h : HttpMessageQueue) × (r : ℕ) × (partitions : List ℤ) × (streamer_queue some_set ≡ http h)
    × (collector_queue some_set
        ≡ http (record h { name = (load some_set).msg_queue_consumer_name }))
    × ((calculate_publish_partition (record h { publish_counter = 7 })).0 ≡ some (pos r))
    × (consumers (record h { name = (load some_set).msg_queue_consumer_name }) ≡ some partitions)
    × (get_elem? partitions r ≡ some (pos r))
    × ((h.topic ≡ codes "telemetry") ↔ (
        (some_set (codes "MSG_QUEUE_TOPIC") ≡ [])
        ⊎ (some_set (codes "MSG_QUEUE_TOPIC") ≡ codes "telemetry")))
published_consumed_example = published_consumed some_set 7 http_chosen

abbrev endpoint : Text
endpoint = codes "http://b"

abbrev found : SmartProxy
found = record {
  config = config;
  consistent_hash = (new_smart_proxy config).consistent_hash;
  broker_endpoints = endpoint ∷ [];
  healthy_brokers = (endpoint, true) ∷ [];
  stats = no_stats;
}

abbrev pub started : SmartProxy
started = record found { consistent_hash = new_consistent_hash sample_sha (endpoint ∷ []) (pos 1) }

started-IsStarted : IsStarted sample_sha started
started-IsStarted = (init_IsStarted sample_sha found (omega arith) (omega arith)).1

endpoint_member : contains endpoint started.broker_endpoints ≡ true
unfolding contains text_eqb
endpoint_member = refl

endpoint_up : is_healthy endpoint started ≡ true
unfolding is_healthy lookup text_eqb
endpoint_up = refl

endpoint-IsEndpoint : IsEndpoint endpoint
unfolding mentions
endpoint-IsEndpoint = record {
  host = codes "b";
  same = refl;
  no_path = refl;
  base = record { no_query = refl; no_fragment = refl };
}

broker-IsEndpoint :
    (part : ℤ) (e : Text)
    → get_broker_for_topic_partition sample_sha (codes "events") part started ≡ some e
    → IsEndpoint e
broker-IsEndpoint part e at =
    let (owner, broker, _, at', member, _, _) =
      route_healthy sample_sha started started-IsStarted (codes "events") part endpoint
        endpoint_member endpoint_up in
    let only : endpoint ≡ broker =
      unfold contains in ground (arith, text_eqb_iff endpoint broker) in
    let same : broker ≡ e = ground arith in subst IsEndpoint (only ∙ same) endpoint-IsEndpoint

abbrev brokers : Text → Broker
brokers e = sample_broker

events-IsQueryText : IsQueryText (codes "events")
unfolding mentions
events-IsQueryText = record {
  no_percent = refl;
  no_plus = refl;
  no_ampersand = refl;
  no_semicolon = refl;
  no_fragment = refl;
}

client-IsBase : IsBase client.base_url
unfolding mentions
client-IsBase = record { no_query = refl; no_fragment = refl }

published_nil :
    (publish object
      (post_produce sample_json sample_bodies sample_call brokers sample_sha 3 started)
      (codes "events")
      (codes "[]")
      client).0
    ≡ some none
unfolding publish calculate_publish_partition telemetry_punitha.Prelude.Int.to_uint64
    telemetry_punitha.HttpQueue.outcome post_produce
    telemetry_punitha.Proxy.Requests.produce_handler telemetry_punitha.Pipeline.proxy_request
    text_eqb telemetry_punitha.Url.query_get telemetry_punitha.Prelude.split
    telemetry_punitha.Url.after telemetry_punitha.Url.before telemetry_punitha.HttpQueue.publish_url
    mentions telemetry_punitha.Url.unescape telemetry_punitha.Strconv.itoa
    telemetry_punitha.Prelude.Int.to_int telemetry_punitha.Proxy.Requests.route
    telemetry_punitha.ConsistentHash.at_least
    telemetry_punitha.ConsistentHash.get_broker_by_topic_partition
    telemetry_punitha.ConsistentHash.hash telemetry_punitha.ConsistentHash.look_up
    telemetry_punitha.ConsistentHash.owner_of telemetry_punitha.ConsistentHash.search_first
    telemetry_punitha.MsgQueue.Broker.get_partition telemetry_punitha.MsgQueue.Broker.set_partition
    Handlers.enqueue_response message_of Handlers.payload_of Handlers.produce_handler
    Handlers.produce_to telemetry_punitha.MsgQueue.Http.trim_space Partition.enqueue
    Partition.try_send broker_request telemetry_punitha.Pipeline.send_produce insert lookup
    telemetry_punitha.Prelude.has_prefix telemetry_punitha.Prelude.trim_prefix
    telemetry_punitha.Proxy.Requests.forward_request target_url get_broker_for_topic_partition
    is_healthy telemetry_punitha.Proxy.record_request telemetry_punitha.Strconv.atoi
    telemetry_punitha.Strconv.itoa_ℕ telemetry_punitha.Strconv.positive
    telemetry_punitha.Strconv.print telemetry_punitha.Strconv.unsigned
    telemetry_punitha.Url.server_of new_consistent_hash telemetry_punitha.ConsistentHash.build_ring
    telemetry_punitha.ConsistentHash.add_brokers telemetry_punitha.ConsistentHash.add_nodes
    telemetry_punitha.ConsistentHash.sort telemetry_punitha.ConsistentHash.virtual_node
published_nil = refl

publish-IsStored_example :
    (part : ℤ) × (e : Text) × ((calculate_publish_partition client).0 ≡ some part)
    × (get_broker_for_topic_partition sample_sha (codes "events") part started ≡ some e)
    × IsStored sample_call.env
        (codes "events")
        part
        (message_of sample_json sample_bodies sample_call (codes "events") part (codes "{[]"))
        (brokers e)
        (Handlers.produce_handler sample_json sample_bodies sample_call
          (broker_request (target_url e (codes "/produce") (codes "events") part) (codes "{[]"))
          (brokers e)).1
publish-IsStored_example =
    publish-IsStored sample_json sample_bodies sample_call brokers object sample_sha 3 started
      client (codes "events") (codes "[]") events-IsQueryText client-IsBase broker-IsEndpoint
      published_nil
