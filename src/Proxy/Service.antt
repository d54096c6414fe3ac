-- ===== src/Proxy/Service.antt =====
-- The server that Start of services/msg_queue_proxy/main.go sets up: the mux with its handlers.
use telemetry_punitha.Prelude.{
  ℕ, not, List, Option, none, some, Text, codes, text_eq, ◌==◌, if◌then◌else◌,
}
use telemetry_punitha.ConsistentHash.{Sha512}
use telemetry_punitha.ServeMux.{no_handler, moved, handled, route_request}
use telemetry_punitha.Url.{is_target, path_of, query_get}
use telemetry_punitha.MsgQueue.Http.{Response}
use telemetry_punitha.Proxy.{SmartProxy}
use telemetry_punitha.Proxy.Requests.{
  get, post, other, Request, Network, produce_handler, consume_handler, ack_handler, topics_handler,
  health_handler,
}
use telemetry_punitha.Proxy.Stats.{Float64, Status, Stats, status_handler, stats_handler}
use telemetry_punitha.Proxy.Routes.{
  Endpoint, produce, consume, ack, topics, health, status, stats, metrics, routes,
}

-- What the handlers read of a request.
unfoldable pub read_request : Text → Text → Request
read_request method url = record {
  method = if method == codes "GET" then get else if method == codes "POST" then post else other;
  topic = query_get url (codes "topic");
  partition = query_get url (codes "partition");
  group = query_get url (codes "group");
}

-- `bad_request` is the 400 of net/http itself. The page of the metrics comes from the library that renders it.
pub data Reply (F : Type 0) : Type 0 where
  redirected : Text → Reply F
  bad_request : Reply F
  not_found : Reply F
  answer : Response → Reply F
  healthy : ℕ → ℕ → Reply F
  status_page : Status → Reply F
  stats_page : Stats F → Reply F
  metrics_page : Reply F

-- An answer of one of the handlers that forward; `none` is a panic.
unfoldable pub answered_by :
    {F : Type 0} → Option (Response × SmartProxy) → Option (Reply F × SmartProxy)
answered_by none = none
answered_by (some (resp, after)) = some (answer resp, after)

-- `order` is the order in which topicsHandler visits the brokers, `uptime` the time since the start.
module _ (sha : Sha512) (float : Float64) (net : Network) (order : List Text)
    (uptime : float.Float) where
  unfoldable pub handle_endpoint :
      Endpoint → Request → SmartProxy → Option (Reply float.Float × SmartProxy)
  unfolding answered_by
  handle_endpoint produce r sp = answered_by (produce_handler sha net r sp)
  handle_endpoint consume r sp = answered_by (consume_handler sha net r sp)
  handle_endpoint ack r sp = answered_by (ack_handler sha net r sp)
  handle_endpoint topics r sp = answered_by (some (topics_handler net order r sp))
  handle_endpoint health r sp =
      let (total, healthy_count) = health_handler sp in some (healthy total healthy_count, sp)
  handle_endpoint status r sp = elim (status_handler sha sp) [
    | none ↦ none
    | some answered ↦ some (status_page answered, sp)
  ]
  handle_endpoint stats r sp = some (stats_page (stats_handler float uptime sp), sp)
  handle_endpoint metrics r sp = some (metrics_page, sp)

  -- A request by its method and URL.
  unfoldable pub serve_http : Text → Text → SmartProxy → Option (Reply float.Float × SmartProxy)
  unfolding handle_endpoint read_request
  serve_http method url sp =
      if not (is_target url)
      then some (bad_request, sp)
      else elim (route_request routes method (path_of url)) [
        | no_handler ↦ some (not_found, sp)
        | moved target ↦ some (redirected target, sp)
        | handled endpoint ↦ handle_endpoint endpoint (read_request method url) sp
      ]
