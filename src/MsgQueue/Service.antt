-- ===== src/MsgQueue/Service.antt =====
-- The server that main of services/msg_queue/main.go sets up: the mux with the broker's handlers.
use telemetry_punitha.Prelude.{
  not, if◌then◌else◌, List, Option, none, some, Text, codes, Result, ok, err,
}
use telemetry_punitha.Prelude.Int.{ℤ}
use telemetry_punitha.Prelude.Map.{Map}
use telemetry_punitha.ServeMux.{no_handler, moved, handled, route_request}
use telemetry_punitha.Url.{is_target, path_of, query_get}
use telemetry_punitha.MsgQueue.Message.{Codec}
use telemetry_punitha.MsgQueue.Http.{Request, Response}
use telemetry_punitha.MsgQueue.Broker.{Broker, Health, topics_handler, health_handler}
use telemetry_punitha.MsgQueue.Handlers.{
  Bodies, ProduceCall, Poll, produce_handler, consume_handler, ack_handler,
}
use telemetry_punitha.MsgQueue.Routes.{
  Endpoint, produce, consume, ack, topics, health, metrics, routes,
}

-- What the handlers read of a request; the body is `none` if it cannot be read.
unfoldable pub read_request : Text → Option Text → Request
read_request url body = record {
  topic = query_get url (codes "topic");
  partition = query_get url (codes "partition");
  group = query_get url (codes "group");
  body = body;
}

-- `bad_request` is the 400 of net/http itself. The page of the metrics comes from the library that renders it.
pub data Reply : Type 0 where
  redirected : Text → Reply
  bad_request : Reply
  not_found : Reply
  answer : Response → Reply
  stream : Text → Reply
  topics_page : Map Text (List ℤ) → Reply
  health_page : Health → Reply
  metrics_page : Reply

-- The reply to a produce; `none` is a panic.
unfoldable pub produced : Option Response × Broker → Option Reply × Broker
produced (none, b) = (none, b)
produced (some resp, b) = (some (answer resp), b)

unfoldable pub consumed : Result Response Text × Broker → Option Reply × Broker
consumed (err resp, b) = (some (answer resp), b)
consumed (ok events, b) = (some (stream events), b)

unfoldable pub acked : Response × Broker → Option Reply × Broker
acked (resp, b) = (some (answer resp), b)

module _ (codec : Codec) (bodies : Bodies) (call : ProduceCall) (polls : List Poll) where
  unfoldable pub handle_endpoint : Endpoint → Request → Broker → Option Reply × Broker
  unfolding produced consumed acked
  handle_endpoint produce r b = produced (produce_handler codec bodies call r b)
  handle_endpoint consume r b = consumed (consume_handler codec call.env polls r b)
  handle_endpoint ack r b = acked (ack_handler bodies call.env r b)
  handle_endpoint topics r b = (some (topics_page (topics_handler b)), b)
  handle_endpoint health r b = (some (health_page (health_handler b)), b)
  handle_endpoint metrics r b = (some metrics_page, b)

  -- A request by its method, URL and body.
  unfoldable pub serve_http : Text → Text → Option Text → Broker → Option Reply × Broker
  unfolding handle_endpoint read_request
  serve_http method url body b =
      if not (is_target url)
      then (some bad_request, b)
      else elim (route_request routes method (path_of url)) [
        | no_handler ↦ (some not_found, b)
        | moved target ↦ (some (redirected target), b)
        | handled endpoint ↦ handle_endpoint endpoint (read_request url body) b
      ]
