-- ===== src/Pipeline/Publishing.antt =====
-- A publish from the client of internal/shared/http_message_queue.go to the broker's queue.
use telemetry_punitha.Prelude.{
  ℕ, ◌≡◌, refl, sym, ap, ◌∙◌, inl, inr, false, ◌++◌, none, some, Text, codes, text_eq, mentions,
  Option-cases, ok, arith,
}
use telemetry_punitha.Prelude.Int.{ℤ}
use telemetry_punitha.Strconv.{itoa}
use telemetry_punitha.Strconv.RoundTrip.{IsInt64}
use telemetry_punitha.Url.{server_of}
use telemetry_punitha.Url.Queries.{
  IsQueryText, IsBase, query_get-topic, query_get-partition, server_of-append,
}
use telemetry_punitha.ConsistentHash.{Sha512}
use telemetry_punitha.MsgQueue.Message.{Codec}
use telemetry_punitha.MsgQueue.Http.{Response}
use telemetry_punitha.MsgQueue.Broker.{Broker}
use telemetry_punitha.MsgQueue.Handlers.{Bodies, ProduceCall, message_of}
use telemetry_punitha.MsgQueue.Handlers
use telemetry_punitha.MsgQueue.Handlers.Delivery.{IsStored}
use telemetry_punitha.Proxy.{SmartProxy, get_broker_for_topic_partition}
use telemetry_punitha.Proxy.Requests.{
  Forwarded, unreadable, bad_url, unreachable, answered, Network, post, target_url, forward_request,
  route,
}
use telemetry_punitha.Proxy.Requests
use telemetry_punitha.HttpQueue.{
  HttpMessageQueue, JsonMap, publish, publish_url, outcome, calculate_publish_partition,
}
use telemetry_punitha.HttpQueue.RoundRobin.{calculate_publish_partition-IsInt64}
use telemetry_punitha.Pipeline.{broker_request, proxy_request, send_produce, post_produce}
use telemetry_punitha.Pipeline.Answers.{outcome_nil, produce_answered, broker-IsStored}

-- The text of an endpoint: http:// and a host.
pub record IsEndpoint (e : Text) : Type 0 where
  pub host : Text
  pub same : e ≡ codes "http://" ++ host
  pub no_path : mentions b'/' host ≡ false
  pub base : IsBase e

server_of-target_url :
    (e topic : Text) (part : ℤ)
    → IsEndpoint e
    → server_of (target_url e (codes "/produce") topic part) ≡ e
unfolding target_url
server_of-target_url e topic part end =
    ap
      (λ s.
        server_of (s ++ (codes "/produce?topic=" ++ (topic ++ (codes "&partition=" ++ itoa part)))))
      end.same
    ∙ server_of-append end.host _ end.no_path
    ∙ sym end.same

-- The two servers read the topic and the partition that the clients wrote.
module _ (topic : Text) (plain : IsQueryText topic) (part : ℤ) where
  proxy_request_lem :
      (h : HttpMessageQueue)
      → IsBase h.base_url
      → ((proxy_request (publish_url h topic part)).topic ≡ topic)
        × ((proxy_request (publish_url h topic part)).partition ≡ itoa part)
  unfolding proxy_request publish_url
  proxy_request_lem h base = (
    query_get-topic topic plain part h.base_url base,
    query_get-partition topic plain part h.base_url base,
  )

  broker_request_lem :
      (e body : Text)
      → IsBase e
      → ((broker_request (target_url e (codes "/produce") topic part) body).topic ≡ topic)
        × ((broker_request (target_url e (codes "/produce") topic part) body).partition ≡ itoa part)
        × ((broker_request (target_url e (codes "/produce") topic part) body).body ≡ some body)
  unfolding broker_request target_url
  broker_request_lem e body base =
      (query_get-topic topic plain part e base, query_get-partition topic plain part e base, refl)

module _ (codec : Codec) (bodies : Bodies) (call : ProduceCall) (brokers : Text → Broker)
    (json : JsonMap) (sha : Sha512) (latency : ℕ) (sp : SmartProxy) (h : HttpMessageQueue) where
  proxy_answer :
      (url body : Text) (resp : Response)
      → post_produce codec bodies call brokers sha latency sp url body ≡ ok resp
      → (after : SmartProxy) × (Requests.produce_handler sha
            (record { send = send_produce codec bodies call brokers body; latency = latency })
            (proxy_request url)
            sp
          ≡ some (resp, after))
  unfolding post_produce
  proxy_answer url body resp e =
      let net : Network = record {
        send = send_produce codec bodies call brokers body;
        latency = latency;
      } in
      elim (Option-cases (Requests.produce_handler sha net (proxy_request url) sp)) [
        | inl panics ↦ absurd (ground arith)
        | inr ((resp', after), answer) ↦ (after, ground arith)
      ]

  broker_answer :
      (url body : Text) (resp : Response)
      → send_produce codec bodies call brokers body url ≡ answered resp
      → (Handlers.produce_handler codec bodies call
          (broker_request url body)
          (brokers (server_of url))).0
        ≡ some resp
  unfolding send_produce
  broker_answer url body resp e = ground arith

  -- What the broker answers with 200 to the proxy is stored.
  sent-IsStored :
      (topic : Text) (part : ℤ) (e body : Text) (resp : Response)
      → IsQueryText topic
      → IsInt64 part
      → IsEndpoint e
      → send_produce codec bodies call brokers body (target_url e (codes "/produce") topic part)
        ≡ answered resp
      → resp.status ≡ 200
      → IsStored call.env topic part
          (message_of codec bodies call topic part body)
          (brokers e)
          (Handlers.produce_handler codec bodies call
            (broker_request (target_url e (codes "/produce") topic part) body)
            (brokers e)).1
  sent-IsStored topic part e body resp plain small end sent good =
      let target = target_url e (codes "/produce") topic part in
      let (same_topic, same_part, same_body) =
        broker_request_lem topic plain part e body end.base in
      let here : brokers (server_of target) ≡ brokers e =
        ap brokers (server_of-target_url e topic part end) in
      let accepted : (Handlers.produce_handler codec bodies call (broker_request target body)
            (brokers e)).0
          ≡ some resp =
        ap (λ b. (Handlers.produce_handler codec bodies call (broker_request target body) b).0)
          (sym here)
        ∙ broker_answer target body resp sent in
      broker-IsStored codec bodies call (broker_request target body) topic part body (brokers e)
        resp same_topic same_part small same_body accepted good

  -- A publish through the proxy that returns nil has its message, with the payload that the
  -- broker finds in the client's body, as the last in the queue of the partition that the client
  -- chose, at the broker that the proxy picks for the topic and this partition. The topic is a
  -- text that a query holds as it is, and the URL of the proxy and the endpoints of its brokers
  -- are http:// and a host.
  pub publish-IsStored :
      (topic payload : Text)
      → IsQueryText topic
      → IsBase h.base_url
      → ((part : ℤ) (e : Text)
          → get_broker_for_topic_partition sha topic part sp ≡ some e
          → IsEndpoint e)
      → (publish json (post_produce codec bodies call brokers sha latency sp) topic payload h).0
        ≡ some none
      → let body = json.entry (codes "payload") payload in
        (part : ℤ) × (e : Text) × ((calculate_publish_partition h).0 ≡ some part)
        × (get_broker_for_topic_partition sha topic part sp ≡ some e)
        × IsStored call.env topic part
            (message_of codec bodies call topic part body)
            (brokers e)
            (Handlers.produce_handler codec bodies call
              (broker_request (target_url e (codes "/produce") topic part) body)
              (brokers e)).1
  publish-IsStored topic payload plain base endpoints done =
      let body = json.entry (codes "payload") payload in
      let post' = post_produce codec bodies call brokers sha latency sp in
      elim (Option-cases (calculate_publish_partition h).0) [
        | inl panics ↦ absurd (unfold publish in ground arith)
        | inr (part, chosen) ↦
            let small = calculate_publish_partition-IsInt64 h part chosen in
            let url = publish_url h topic part in
            let nil : outcome (post' url body) ≡ none = unfold publish in ground arith in
            let (resp, answer, good) = outcome_nil (post' url body) nil in
            let net : Network = record {
              send = send_produce codec bodies call brokers body;
              latency = latency;
            } in
            let (after, proxied) = proxy_answer url body resp answer in
            let (same_topic, same_part) = proxy_request_lem topic plain part h base in
            let (e, at, sent) =
              produce_answered sha net (proxy_request url) topic part sp after resp same_topic
                same_part small proxied good in
            (
              part,
              e,
              chosen,
              at,
              sent-IsStored topic part e body resp plain small (endpoints part e at) sent good,
            )
      ]
