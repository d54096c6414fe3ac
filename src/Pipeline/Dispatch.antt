-- ===== src/Pipeline/Dispatch.antt =====
-- The paths of the requests between the client, the proxy and the brokers, and the handlers that
-- the servers' muxes take them to.
use mathlib.Core.List.{append_assoc}
use telemetry_punitha.Prelude.{
  true, List, Option, ◌≡◌, refl, ap, ◌∙◌, ◌++◌, some, Text, codes, text_eq,
}
use telemetry_punitha.Prelude.Int.{ℤ}
use telemetry_punitha.ServeMux.{Routed, handled, route_request}
use telemetry_punitha.Url.{path_of, is_wire}
use telemetry_punitha.Url.Wire.{is_wire-append, is_wire-itoa, is_wire-is_target}
use telemetry_punitha.Strconv.{itoa}
use telemetry_punitha.HttpQueue.{HttpMessageQueue, publish_url, ack_url, consume_url}
use telemetry_punitha.Proxy.Requests.{target_url, group_url}
use telemetry_punitha.ConsistentHash.{Sha512}
use telemetry_punitha.Proxy.{SmartProxy}
use telemetry_punitha.Proxy.Requests.{Network}
use telemetry_punitha.Proxy.Requests
use telemetry_punitha.Proxy.Stats.{Float64}
use telemetry_punitha.MsgQueue.Message.{Codec}
use telemetry_punitha.MsgQueue.Broker.{Broker}
use telemetry_punitha.MsgQueue.Broker
use telemetry_punitha.MsgQueue.Handlers.{Bodies, ProduceCall, Poll}
use telemetry_punitha.MsgQueue.Handlers
use telemetry_punitha.Proxy.Service as ProxyService
use telemetry_punitha.MsgQueue.Service as BrokerService
use telemetry_punitha.Proxy.Routes as ProxyRoutes
use telemetry_punitha.MsgQueue.Routes as BrokerRoutes
use telemetry_punitha.Pipeline.Publishing.{IsEndpoint}
use telemetry_punitha.Pipeline.Routes.{
  taken, taken_plain, proxy_produce, proxy_consume, proxy_ack, proxy_topics, broker_produce,
  broker_consume, broker_ack, broker_topics, broker_health,
}

-- Where the mux of the proxy, or that of a broker, takes a request.
abbrev pub at_proxy : Text → Text → Routed ProxyRoutes.Endpoint
at_proxy method url = route_request ProxyRoutes.routes method (path_of url)

abbrev pub at_broker : Text → Text → Routed BrokerRoutes.Endpoint
at_broker method url = route_request BrokerRoutes.routes method (path_of url)

-- The URLs that the clients write can be sent.
module _ (e topic : Text) (part : ℤ) (base : is_wire e ≡ true) (plain : is_wire topic ≡ true) where
  wire_url :
      (path : Text)
      → is_wire path ≡ true
      → is_wire (e ++ (path ++ (codes "?topic=" ++ (topic ++ (codes "&partition=" ++ itoa part)))))
        ≡ true
  unfolding is_wire
  wire_url path h =
      is_wire-append e _ base
        (is_wire-append path _ h (is_wire-append topic _ plain (is_wire-itoa part)))

module _ (e topic group : Text) (part : ℤ) (base : is_wire e ≡ true) (plain : is_wire topic ≡ true)
    (grouped : is_wire group ≡ true) where
  wire_group_url :
      (path : Text)
      → is_wire path ≡ true
      → is_wire (
          e
          ++ (path
              ++ (codes "?topic="
                  ++ (topic
                      ++ (codes "&partition=" ++ (itoa part ++ (codes "&group=" ++ group)))))))
        ≡ true
  unfolding is_wire
  wire_group_url path h = is_wire-append e _ base (
      is_wire-append path _ h
        (is_wire-append topic _ plain (is_wire-append (itoa part) _ (is_wire-itoa part) grouped)))

  wire_regroup :
      (path : Text) → is_wire path ≡ true → is_wire (group_url e path topic part group) ≡ true
  unfolding is_wire group_url target_url
  wire_regroup path h =
      is_wire-append (target_url e path topic part) (codes "&group=" ++ group)
        (wire_url e topic part base plain path h) grouped

-- The proxy's server, which hands a request that is routed to its handler.
module _ (sha : Sha512) (float : Float64) (net : Network) (order : List Text)
    (uptime : float.Float) where
  proxy_handles :
      (method url : Text) (endpoint : ProxyRoutes.Endpoint) (sp : SmartProxy)
      → is_wire url ≡ true
      → at_proxy method url ≡ handled endpoint
      → ProxyService.serve_http sha float net order uptime method url sp
        ≡ ProxyService.handle_endpoint sha float net order uptime endpoint
            (ProxyService.read_request method url)
            sp
  unfolding ProxyService.serve_http
  proxy_handles method url endpoint sp w e =
      rw (ProxyService.serve_http, is_wire-is_target url w, e) refl

  -- The requests of the client to the proxy, for the topic and the partition, come to the handlers
  -- of their kinds.
  module _ (h : HttpMessageQueue) (proxy : IsEndpoint h.base_url) where
    -- The proxy's server hands each request of the client, to publish, to consume, to
    -- acknowledge and for the topics, to the handler of its kind, and answers what this handler
    -- answers. The URL of the proxy is http:// and a host, and it, the topics and the group have
    -- no blank and no control character.
    pub client_requests_dispatched :
        (topic : Text) (part : ℤ) (sp : SmartProxy)
        → is_wire h.base_url ≡ true
        → is_wire topic ≡ true
        → is_wire h.topic ≡ true
        → is_wire h.group ≡ true
        → let reply = ProxyService.serve_http sha float net order uptime in
          let request = ProxyService.read_request in
          (reply (codes "POST") (publish_url h topic part) sp
            ≡ ProxyService.answered_by (
                Requests.produce_handler sha net
                  (request (codes "POST") (publish_url h topic part))
                  sp))
          × (reply (codes "GET") (consume_url h part) sp
              ≡ ProxyService.answered_by (
                  Requests.consume_handler sha net (request (codes "GET") (consume_url h part)) sp))
          × (reply (codes "POST") (ack_url h topic part) sp
              ≡ ProxyService.answered_by
                  (Requests.ack_handler sha net (request (codes "POST") (ack_url h topic part)) sp))
          × (reply (codes "GET") (h.base_url ++ codes "/topics") sp
              ≡ ProxyService.answered_by (
                  some (
                    Requests.topics_handler net order
                      (request (codes "GET") (h.base_url ++ codes "/topics"))
                      sp)))
    unfolding publish_url consume_url ack_url ProxyService.handle_endpoint is_wire
    client_requests_dispatched topic part sp base plain own group = (
      proxy_handles _ (publish_url h topic part) _ sp
          (wire_url h.base_url topic part base plain (codes "/produce") refl)
          (taken _ _ _ _ proxy_produce h.base_url proxy _),
      proxy_handles _ (consume_url h part) _ sp
          (wire_group_url h.base_url h.topic h.group part base own group (codes "/consume") refl)
          (taken _ _ _ _ proxy_consume h.base_url proxy _),
      proxy_handles _ (ack_url h topic part) _ sp
          (wire_group_url h.base_url topic h.group part base plain group (codes "/ack") refl)
          (taken _ _ _ _ proxy_ack h.base_url proxy _),
      proxy_handles _ (h.base_url ++ codes "/topics") _ sp
          (is_wire-append h.base_url (codes "/topics") base refl)
          (taken_plain _ _ _ _ proxy_topics h.base_url proxy),
    )

-- A broker's server.
module _ (codec : Codec) (bodies : Bodies) (call : ProduceCall) (polls : List Poll) where
  broker_handles :
      (method url : Text) (body : Option Text) (endpoint : BrokerRoutes.Endpoint) (b : Broker)
      → is_wire url ≡ true
      → at_broker method url ≡ handled endpoint
      → BrokerService.serve_http codec bodies call polls method url body b
        ≡ BrokerService.handle_endpoint codec bodies call polls endpoint
            (BrokerService.read_request url body)
            b
  unfolding BrokerService.serve_http
  broker_handles method url body endpoint b w e =
      rw (BrokerService.serve_http, is_wire-is_target url w, e) refl

  -- A broker's server hands each request that the proxy sends it, the forwarded ones and the
  -- health checks, to the handler of its kind, and answers what this handler answers. The
  -- endpoint of the broker is http:// and a host, and it, the topic and the group have no blank
  -- and no control character.
  pub proxy_requests_dispatched :
      (e topic group : Text) (part : ℤ) (body : Option Text) (b : Broker)
      → IsEndpoint e
      → is_wire e ≡ true
      → is_wire topic ≡ true
      → is_wire group ≡ true
      → let reply = BrokerService.serve_http codec bodies call polls in
        let request = BrokerService.read_request in
        let produce_url = target_url e (codes "/produce") topic part in
        let consume_url' = group_url e (codes "/consume") topic part group in
        let ack_url' = group_url e (codes "/ack") topic part group in
        (reply (codes "POST") produce_url body b
          ≡ BrokerService.produced
              (Handlers.produce_handler codec bodies call (request produce_url body) b))
        × (reply (codes "GET") consume_url' body b
            ≡ BrokerService.consumed
                (Handlers.consume_handler codec call.env polls (request consume_url' body) b))
        × (reply (codes "POST") ack_url' body b
            ≡ BrokerService.acked (Handlers.ack_handler bodies call.env (request ack_url' body) b))
        × (reply (codes "GET") (e ++ codes "/topics") body b
            ≡ (some (BrokerService.topics_page (Broker.topics_handler b)), b))
        × (reply (codes "GET") (e ++ codes "/health") body b
            ≡ (some (BrokerService.health_page (Broker.health_handler b)), b))
  unfolding target_url group_url BrokerService.handle_endpoint is_wire
  proxy_requests_dispatched e topic group part body b end base plain grouped = (
    broker_handles _ (target_url e (codes "/produce") topic part) body _ b
        (wire_url e topic part base plain (codes "/produce") refl)
        (taken _ _ _ _ broker_produce e end _),
    broker_handles _ (group_url e (codes "/consume") topic part group) body _ b
        (wire_regroup e topic group part base plain grouped (codes "/consume") refl)
        (ap (at_broker (codes "GET")) (append_assoc e _ (codes "&group=" ++ group))
          ∙ taken _ _ _ _ broker_consume e end _),
    broker_handles _ (group_url e (codes "/ack") topic part group) body _ b
        (wire_regroup e topic group part base plain grouped (codes "/ack") refl)
        (ap (at_broker (codes "POST")) (append_assoc e _ (codes "&group=" ++ group))
          ∙ taken _ _ _ _ broker_ack e end _),
    broker_handles _ (e ++ codes "/topics") body _ b (is_wire-append e (codes "/topics") base refl)
        (taken_plain _ _ _ _ broker_topics e end),
    broker_handles _ (e ++ codes "/health") body _ b (is_wire-append e (codes "/health") base refl)
        (taken_plain _ _ _ _ broker_health e end),
  )
