-- ===== src/Proxy/Requests.antt =====
-- The handlers of services/msg_queue_proxy/main.go. `none` is a panic, which ends the request.
use telemetry_punitha.Prelude.{
  ℕ, ◌+◌, Bool, true, false, ◌&&◌, ◌||◌, not, List, [], ◌∷◌, ◌++◌, Option, none, some, Text, codes,
  text_eq, ◌==◌, leb, length, if◌then◌else◌,
}
use telemetry_punitha.Prelude.Int.{ℤ}
use telemetry_punitha.Prelude.Map.{Map}
use telemetry_punitha.Strconv.{atoi, itoa}
use telemetry_punitha.ConsistentHash.{Sha512}
use telemetry_punitha.MsgQueue.Http.{Response, http_error}
use telemetry_punitha.Proxy.{
  SmartProxy, RequestType, produce, consume, ack, topics, record_request,
  get_broker_for_topic_partition, is_healthy,
}

pub data Method : Type 0 where
  get post other : Method

unfoldable pub is_get : Method → Bool
is_get get = true
is_get post = false
is_get other = false

unfoldable pub is_post : Method → Bool
is_post get = false
is_post post = true
is_post other = false

-- The values of the query parameters, empty if they are absent.
pub record Request : Type 0 where
  pub method : Method
  pub topic : Text
  pub partition : Text
  pub group : Text

-- What the network answers to a forwarded request: the client's body cannot be read, the URL is
-- refused by http.NewRequest, the broker is not reached, or its response.
pub data Forwarded : Type 0 where
  unreadable bad_url unreachable : Forwarded
  answered : Response → Forwarded

-- forwardRequest: `latency` is the time until the outcome is recorded, in milliseconds.
unfoldable pub forward_request :
    Forwarded → ℕ → Text → RequestType → SmartProxy → Response × SmartProxy
forward_request unreadable latency url kind sp =
    (http_error 400 (codes "failed to read request body"), record_request kind url latency false sp)
forward_request bad_url latency url kind sp =
    (http_error 500 (codes "failed to create request"), record_request kind url latency false sp)
forward_request unreachable latency url kind sp =
    (http_error 502 (codes "broker unavailable"), record_request kind url latency false sp)
forward_request (answered resp) latency url kind sp =
    let success = leb 200 resp.status && not (leb 400 resp.status) in
    (resp, record_request kind url latency success sp)

-- The outside of one request: what the network answers at a URL, and the time that it takes.
pub record Network : Type 0 where
  pub send : Text → Forwarded
  pub latency : ℕ

abbrev method_not_allowed : Response
method_not_allowed = http_error 405 (codes "Method not allowed")

abbrev no_brokers : Response
no_brokers = http_error 503 (codes "no healthy brokers available")

-- <broker>/<path>?topic=<topic>&partition=<partition>
unfoldable pub target_url : Text → Text → Text → ℤ → Text
target_url broker path topic partition =
    broker ++ (path ++ (codes "?topic=" ++ (topic ++ (codes "&partition=" ++ itoa partition))))

unfoldable pub group_url : Text → Text → Text → ℤ → Text → Text
unfolding target_url
group_url broker path topic partition group =
    target_url broker path topic partition ++ (codes "&group=" ++ group)

module _ (sha : Sha512) where
  -- The lines that the three handlers share behind their checks; `url` makes the target URL.
  unfoldable pub route :
      Network
      → RequestType
      → (Text → ℤ → Text)
      → Text
      → Text
      → SmartProxy
      → Option (Response × SmartProxy)
  route net kind url topic part_str sp = elim (atoi part_str) [
    | none ↦ some (http_error 400 (codes "invalid partition"), sp)
    | some partition ↦ elim (get_broker_for_topic_partition sha topic partition sp) [
      | none ↦ none
      | some broker ↦
          if broker == []
          then some (no_brokers, sp)
          else some (
              forward_request (net.send (url broker partition)) net.latency (url broker partition)
                kind sp)
    ]
  ]

  unfoldable pub produce_handler : Network → Request → SmartProxy → Option (Response × SmartProxy)
  unfolding is_post
  produce_handler net r sp =
      if not (is_post r.method)
      then some (method_not_allowed, sp)
      else if r.topic == [] || r.partition == []
      then some (http_error 400 (codes "topic and partition required"), sp)
      else route net produce
          (λ broker partition. target_url broker (codes "/produce") r.topic partition) r.topic
          r.partition sp

  unfoldable pub consume_handler : Network → Request → SmartProxy → Option (Response × SmartProxy)
  unfolding is_get
  consume_handler net r sp =
      if not (is_get r.method)
      then some (method_not_allowed, sp)
      else if r.topic == [] || r.partition == [] || r.group == []
      then some (http_error 400 (codes "topic, partition and group required"), sp)
      else route net consume
          (λ broker partition. group_url broker (codes "/consume") r.topic partition r.group)
          r.topic r.partition sp

  unfoldable pub ack_handler : Network → Request → SmartProxy → Option (Response × SmartProxy)
  unfolding is_post
  ack_handler net r sp =
      if not (is_post r.method)
      then some (method_not_allowed, sp)
      else if r.topic == [] || r.partition == [] || r.group == []
      then some (http_error 400 (codes "topic, partition and group required"), sp)
      else route net ack
          (λ broker partition. group_url broker (codes "/ack") r.topic partition r.group) r.topic
          r.partition sp

-- The loop of topicsHandler; `order` is the order in which `range` visits the keys.
unfoldable pub topics_from : Network → List Text → SmartProxy → Response × SmartProxy
topics_from net [] sp = (no_brokers, sp)
topics_from net (endpoint ∷ order) sp =
    if is_healthy endpoint sp
    then forward_request (net.send (endpoint ++ codes "/topics")) net.latency
        (endpoint ++ codes "/topics") topics sp
    else topics_from net order sp

unfoldable pub topics_handler : Network → List Text → Request → SmartProxy → Response × SmartProxy
unfolding is_get topics_from
topics_handler net order r sp =
    if not (is_get r.method) then (method_not_allowed, sp) else topics_from net order sp

unfoldable pub count_healthy : Map Text Bool → ℕ
count_healthy [] = 0
count_healthy ((e, h) ∷ m) = (if h then 1 else 0) + count_healthy m

-- The numbers in the answer of healthHandler: all brokers, and the healthy ones.
unfoldable pub health_handler : SmartProxy → ℕ × ℕ
unfolding count_healthy
health_handler sp = (length sp.broker_endpoints, count_healthy sp.healthy_brokers)
