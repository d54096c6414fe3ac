-- ===== src/Proxy/Running.antt =====
-- The proxy of services/msg_queue_proxy/main.go over its life: requests and health checks in any
-- order.
use telemetry_punitha.Prelude.{
  ℕ, suc, ◌≡◌, sym, ap, subst, ◌∙◌, true, false, List, [], ◌∷◌, Option, some, Text, text_eq, arith,
  Bool-cases, inl, inr,
}
use telemetry_punitha.Prelude.Int.{ℤ, pos, leb_ℤ}
use telemetry_punitha.Config.{Environment}
use telemetry_punitha.MsgQueue.Http.{Response}
use telemetry_punitha.ConsistentHash.{Sha512, contains}
use telemetry_punitha.Proxy.{
  ProxyConfig, SmartProxy, new_smart_proxy, is_healthy, get_broker_for_topic_partition,
  check_endpoint, check_endpoints, check_broker_health,
}
use telemetry_punitha.Proxy.Requests.{
  Network, Request, produce_handler, consume_handler, ack_handler, topics_from, topics_handler,
  is_get,
}
use telemetry_punitha.ConsistentHash.Nodes.{IsBuilt}
use telemetry_punitha.Proxy.Routing.{IsStarted, route_healthy, route_member}
use telemetry_punitha.Proxy.Health.{is_healthy-check_broker_health}
use telemetry_punitha.Proxy.Startup.{start}
use telemetry_punitha.Proxy.Startup.Serving.{start_serves}
use telemetry_punitha.Proxy.Routed.{
  IsSameProxy, IsSameProxy-trans, Keeps, Keeps-refl, forward_request-Keeps, IsRouted-Keeps,
  produce_handler-IsRouted, consume_handler-IsRouted, ack_handler-IsRouted,
}

-- A request that was handled, or a round of health checks. A request whose metrics panic is handled
-- up to there, and has counted itself.
pub data Step (sha : Sha512) (sp : SmartProxy) : SmartProxy → Type 0 where
  produces :
      {next : SmartProxy} (net : Network) (r : Request) (resp : Response)
      → produce_handler sha net r sp ≡ some (resp, next)
      → Step sha sp next
  consumes :
      {next : SmartProxy} (net : Network) (r : Request) (resp : Response)
      → consume_handler sha net r sp ≡ some (resp, next)
      → Step sha sp next
  acks :
      {next : SmartProxy} (net : Network) (r : Request) (resp : Response)
      → ack_handler sha net r sp ≡ some (resp, next)
      → Step sha sp next
  lists :
      {next : SmartProxy} (net : Network) (order : List Text) (r : Request) (resp : Response)
      → topics_handler net order r sp ≡ (resp, next)
      → Step sha sp next
  checks : (probe : Text → Option ℕ) → Step sha sp (check_broker_health probe sp)

pub data Steps (sha : Sha512) (sp : SmartProxy) : SmartProxy → Type 0 where
  stays : Steps sha sp sp
  and_then : {mid next : SmartProxy} → Steps sha sp mid → Step sha mid next → Steps sha sp next

-- Only endpoints are healthy.
pub record IsTidy (sp : SmartProxy) : Type 0 where
  pub only_endpoints : (e : Text) → is_healthy e sp ≡ true → contains e sp.broker_endpoints ≡ true

Keeps-IsTidy :
    {sp next : SmartProxy} → Keeps sp next → IsTidy sp → IsSameProxy sp next × IsTidy next
unfolding is_healthy
Keeps-IsTidy {sp} {next} (same, healthy) tidy = (
  same,
  record {
    only_endpoints = λ e up. rw same.same_endpoints (tidy.only_endpoints e (rw (sym healthy) up));
  },
)

topics_from-Keeps :
    (net : Network) (order : List Text) (sp : SmartProxy) → Keeps sp (topics_from net order sp).1
unfolding topics_from
topics_from-Keeps net [] sp = Keeps-refl sp
topics_from-Keeps net (e ∷ order) sp = elim (Bool-cases (is_healthy e sp)) [
  | inl up ↦ rw up (forward_request-Keeps (net.send _) net.latency _ _ sp)
  | inr down ↦ rw down (topics_from-Keeps net order sp)
]

topics_handler-Keeps :
    (net : Network) (order : List Text) (r : Request) (sp : SmartProxy)
    → Keeps sp (topics_handler net order r sp).1
unfolding topics_handler
topics_handler-Keeps net order r sp = elim (Bool-cases (is_get r.method)) [
  | inl get ↦ rw get (topics_from-Keeps net order sp)
  | inr other ↦ rw other (Keeps-refl sp)
]

check_endpoint_same :
    (e : Text) (answer : Option ℕ) (sp : SmartProxy) → IsSameProxy sp (check_endpoint e answer sp)
unfolding check_endpoint
check_endpoint_same e answer sp = record {
  same_ring = ground arith;
  same_endpoints = ground arith;
  same_config = ground arith;
}

check_endpoints_same :
    (probe : Text → Option ℕ) (es : List Text) (sp : SmartProxy)
    → IsSameProxy sp (check_endpoints probe es sp)
unfolding check_endpoints
check_endpoints_same probe [] sp = (Keeps-refl sp).0
check_endpoints_same probe (e ∷ es) sp =
    IsSameProxy-trans (check_endpoint_same e (probe e) sp)
      (check_endpoints_same probe es (check_endpoint e (probe e) sp))

check_broker_health_same :
    (probe : Text → Option ℕ) (sp : SmartProxy) → IsSameProxy sp (check_broker_health probe sp)
unfolding check_broker_health
check_broker_health_same probe sp =
    let same = check_endpoints_same probe sp.broker_endpoints _ in
    record {
      same_ring = same.same_ring;
      same_endpoints = same.same_endpoints;
      same_config = same.same_config;
    }

-- Every step keeps the ring, the endpoints and the configuration, and only endpoints are healthy.
Step-IsTidy :
    (sha : Sha512) (sp next : SmartProxy)
    → Step sha sp next
    → IsTidy sp
    → IsSameProxy sp next × IsTidy next
Step-IsTidy sha sp next (produces net r resp e) tidy =
    Keeps-IsTidy (IsRouted-Keeps sha net r sp _ next resp (produce_handler-IsRouted sha net r sp) e)
      tidy
Step-IsTidy sha sp next (consumes net r resp e) tidy =
    Keeps-IsTidy (IsRouted-Keeps sha net r sp _ next resp (consume_handler-IsRouted sha net r sp) e)
      tidy
Step-IsTidy sha sp next (acks net r resp e) tidy =
    Keeps-IsTidy (IsRouted-Keeps sha net r sp _ next resp (ack_handler-IsRouted sha net r sp) e)
      tidy
Step-IsTidy sha sp next (lists net order r resp e) tidy =
    Keeps-IsTidy (subst (Keeps sp) (ap (λ p. p.1) e) (topics_handler-Keeps net order r sp)) tidy
Step-IsTidy sha sp next (checks probe) tidy = (
  check_broker_health_same probe sp,
  record {
    only_endpoints = λ e up.
        let h = is_healthy-check_broker_health probe e sp in
        let same = (check_broker_health_same probe sp).same_endpoints in
        rw same (ground (arith, tidy.only_endpoints e, h));
  },
)

Steps-IsTidy :
    (sha : Sha512) (sp next : SmartProxy)
    → Steps sha sp next
    → IsTidy sp
    → IsSameProxy sp next × IsTidy next
Steps-IsTidy sha sp next stays tidy = ((Keeps-refl sp).0, tidy)
Steps-IsTidy sha sp next (and_then {mid} before s) tidy =
    let (same, here) = Steps-IsTidy sha sp mid before tidy in
    let (more, there) = Step-IsTidy sha mid next s here in (IsSameProxy-trans same more, there)

IsSameProxy-IsStarted :
    (sha : Sha512) {sp next : SmartProxy}
    → IsSameProxy sp next
    → IsStarted sha sp
    → IsStarted sha next
IsSameProxy-IsStarted sha {sp} {next} same started = record {
  built = subst (IsBuilt sha) (sym same.same_ring) started.built;
  same_brokers =
      ap (λ c. c.brokers) same.same_ring ∙ started.same_brokers ∙ sym same.same_endpoints;
  some_broker = rw same.same_endpoints started.some_broker;
  some_node = rw same.same_ring started.some_node;
}

routed :
    (sha : Sha512) (sp : SmartProxy)
    → IsStarted sha sp
    → IsTidy sp
    → (topic : Text) (partition : ℤ)
    → (broker : Text) × (get_broker_for_topic_partition sha topic partition sp ≡ some broker)
      × (contains broker sp.broker_endpoints ≡ true)
      × (((e : Text) × (is_healthy e sp ≡ true)) → is_healthy broker sp ≡ true)
routed sha sp now tidy topic partition =
    let (broker, at, member) = route_member sha sp now topic partition in
    (
      broker,
      at,
      member,
      λ some_up.
          let (_, broker', _, at', _, up, _) =
            route_healthy sha sp now topic partition some_up.0
              (tidy.only_endpoints some_up.0 some_up.1) some_up.1 in
          ground (arith, at, at', up),
    )

-- However many requests are handled and health checks made after a start, in any order, the
-- proxy keeps its ring, its endpoints and its configuration, only endpoints are healthy, and for
-- every topic and partition the choice of a broker does not panic and gives an endpoint, a
-- healthy one if there is any. The number of brokers, the number of virtual nodes and the health
-- interval are positive.
pub runs_on :
    (sha : Sha512) (env : Environment) (config : ProxyConfig) (n k : ℕ) (first sp : SmartProxy)
    → config.broker_count ≡ pos (suc n)
    → config.virtual_nodes ≡ pos (suc k)
    → leb_ℤ config.health_interval (pos 0) ≡ false
    → start sha env (new_smart_proxy config) ≡ some first
    → Steps sha first sp
    → IsSameProxy first sp
      × IsTidy sp
      × IsStarted sha sp
      × ((topic : Text) (partition : ℤ)
          → (broker : Text) × (get_broker_for_topic_partition sha topic partition sp ≡ some broker)
            × (contains broker sp.broker_endpoints ≡ true)
            × (((e : Text) × (is_healthy e sp ≡ true)) → is_healthy broker sp ≡ true))
runs_on sha env config n k first sp count nodes ticks begun steps =
    let (first', begun', started', _, healthy', _) =
      start_serves sha env config n k count nodes ticks in
    let is_first : first' ≡ first = ground (arith, begun, begun') in
    let started : IsStarted sha first = subst (IsStarted sha) is_first started' in
    let healthy =
      subst (λ p. (e : Text) → is_healthy e p ≡ contains e p.broker_endpoints) is_first healthy' in
    let tidy : IsTidy first = record { only_endpoints = λ e up. sym (healthy e) ∙ up } in
    let (same, tidy_now) = Steps-IsTidy sha first sp steps tidy in
    let now = IsSameProxy-IsStarted sha same started in
    (same, tidy_now, now, routed sha sp now tidy_now)
