-- ===== src/Pipeline/Routes.antt =====
-- The routes of the two servers for the requests between the client, the proxy and the brokers.
use telemetry_punitha.Prelude.{
  ◌≡◌, refl, ap, ◌∙◌, false, ◌∷◌, ◌++◌, some, Text, codes, text_eq, text_eqb, text_eqb_iff,
  mentions, split, arith,
}
use telemetry_punitha.Prelude.Map.{Map, lookup}
use telemetry_punitha.ServeMux.{
  handled, route_request, route_clean, is_registered, handler_of, clean_path, ends_in_slash,
  keep_segments, join_segments,
}
use telemetry_punitha.Url.{path_of}
use telemetry_punitha.Url.Queries.{path_of-append, path_of_plain}
use telemetry_punitha.Proxy.Routes as ProxyRoutes
use telemetry_punitha.MsgQueue.Routes as BrokerRoutes
use telemetry_punitha.Pipeline.Publishing.{IsEndpoint}

-- A path of one segment that has a route.
pub record IsRoute {H : Type 0} (patterns : Map Text H) (segment : Text) (h : H) : Type 0 where
  found : lookup (b'/' ∷ segment) patterns ≡ some h
  clean : clean_path (b'/' ∷ segment) ≡ b'/' ∷ segment
  no_query : mentions b'?' segment ≡ false
  no_fragment : mentions b'#' segment ≡ false

module _ {H : Type 0} (patterns : Map Text H) (method segment : Text) (h : H)
    (r : IsRoute patterns segment h) where
  route_request-IsRoute : route_request patterns method (b'/' ∷ segment) ≡ handled h
  unfolding route_request route_clean is_registered handler_of
  route_request-IsRoute =
      ground (arith, r.found, r.clean, text_eqb_iff (b'/' ∷ segment) (b'/' ∷ segment))

  module _ (e : Text) (end : IsEndpoint e) where
    pub taken :
        (rest : Text)
        → route_request patterns method (path_of (e ++ b'/' ∷ (segment ++ b'?' ∷ rest))) ≡ handled h
    taken rest =
        ap (λ s. route_request patterns method (path_of (s ++ b'/' ∷ (segment ++ b'?' ∷ rest))))
          end.same
        ∙ ap (route_request patterns method)
            (path_of-append end.host segment rest end.no_path r.no_query r.no_fragment)
        ∙ route_request-IsRoute

    pub taken_plain : route_request patterns method (path_of (e ++ b'/' ∷ segment)) ≡ handled h
    taken_plain =
        ap (λ s. route_request patterns method (path_of (s ++ b'/' ∷ segment))) end.same
        ∙ ap (route_request patterns method)
            (path_of_plain end.host segment end.no_path r.no_query r.no_fragment)
        ∙ route_request-IsRoute

pub proxy_produce : IsRoute ProxyRoutes.routes (codes "produce") ProxyRoutes.produce
unfolding lookup text_eqb ProxyRoutes.routes clean_path ends_in_slash keep_segments join_segments
    split mentions
proxy_produce = record { found = refl; clean = refl; no_query = refl; no_fragment = refl }

pub proxy_consume : IsRoute ProxyRoutes.routes (codes "consume") ProxyRoutes.consume
unfolding lookup text_eqb ProxyRoutes.routes clean_path ends_in_slash keep_segments join_segments
    split mentions
proxy_consume = record { found = refl; clean = refl; no_query = refl; no_fragment = refl }

pub proxy_ack : IsRoute ProxyRoutes.routes (codes "ack") ProxyRoutes.ack
unfolding lookup text_eqb ProxyRoutes.routes clean_path ends_in_slash keep_segments join_segments
    split mentions
proxy_ack = record { found = refl; clean = refl; no_query = refl; no_fragment = refl }

pub proxy_topics : IsRoute ProxyRoutes.routes (codes "topics") ProxyRoutes.topics
unfolding lookup text_eqb ProxyRoutes.routes clean_path ends_in_slash keep_segments join_segments
    split mentions
proxy_topics = record { found = refl; clean = refl; no_query = refl; no_fragment = refl }

pub broker_produce : IsRoute BrokerRoutes.routes (codes "produce") BrokerRoutes.produce
unfolding lookup text_eqb BrokerRoutes.routes clean_path ends_in_slash keep_segments join_segments
    split mentions
broker_produce = record { found = refl; clean = refl; no_query = refl; no_fragment = refl }

pub broker_consume : IsRoute BrokerRoutes.routes (codes "consume") BrokerRoutes.consume
unfolding lookup text_eqb BrokerRoutes.routes clean_path ends_in_slash keep_segments join_segments
    split mentions
broker_consume = record { found = refl; clean = refl; no_query = refl; no_fragment = refl }

pub broker_ack : IsRoute BrokerRoutes.routes (codes "ack") BrokerRoutes.ack
unfolding lookup text_eqb BrokerRoutes.routes clean_path ends_in_slash keep_segments join_segments
    split mentions
broker_ack = record { found = refl; clean = refl; no_query = refl; no_fragment = refl }

pub broker_topics : IsRoute BrokerRoutes.routes (codes "topics") BrokerRoutes.topics
unfolding lookup text_eqb BrokerRoutes.routes clean_path ends_in_slash keep_segments join_segments
    split mentions
broker_topics = record { found = refl; clean = refl; no_query = refl; no_fragment = refl }

pub broker_health : IsRoute BrokerRoutes.routes (codes "health") BrokerRoutes.health
unfolding lookup text_eqb BrokerRoutes.routes clean_path ends_in_slash keep_segments join_segments
    split mentions
broker_health = record { found = refl; clean = refl; no_query = refl; no_fragment = refl }
