-- ===== src/Proxy/Health.antt =====
-- SmartProxy's health checks, services/msg_queue_proxy/main.go.
use telemetry_punitha.Prelude.{
  ℕ, ◌≡◌, refl, ◌∙◌, sym, ap, Bool, true, false, List, [], ◌∷◌, Option, none, some, Text, text_eq,
  ◌==◌, arith, eqb, if◌then◌else◌, text_eqb_iff,
}
use telemetry_punitha.Prelude.Int.{ℤ}
use telemetry_punitha.Prelude.Map.{lookup-insert}
use telemetry_punitha.ConsistentHash.{Sha512, contains}
use telemetry_punitha.Proxy.{
  SmartProxy, add_int64, is_healthy, check_endpoint, check_endpoints, check_broker_health,
  get_broker_for_topic_partition,
}
use telemetry_punitha.Proxy.Routing.{IsStarted, route_healthy}

-- The answer that counts as healthy.
abbrev pub is_up : Option ℕ → Bool
is_up none = false
is_up (some status) = eqb status 200

eq_of_is_up : (o : Option ℕ) → is_up o ≡ true → o ≡ some 200
eq_of_is_up none h = absurd (ground arith)
eq_of_is_up (some status) h = ground arith

is_healthy-check_endpoint :
    (endpoint e : Text) (probe : Option ℕ) (sp : SmartProxy)
    → is_healthy e (check_endpoint endpoint probe sp)
      ≡ (if endpoint == e then is_up probe else is_healthy e sp)
unfolding is_healthy check_endpoint
is_healthy-check_endpoint endpoint e probe sp = ground (
  arith,
  lookup-insert endpoint e true sp.healthy_brokers,
  lookup-insert endpoint e false sp.healthy_brokers,
)

is_healthy-check_endpoints :
    (probe : Text → Option ℕ) (es : List Text) (e : Text) (sp : SmartProxy)
    → is_healthy e (check_endpoints probe es sp)
      ≡ (if contains e es then is_up (probe e) else is_healthy e sp)
unfolding check_endpoints contains
is_healthy-check_endpoints probe [] e sp = refl
is_healthy-check_endpoints probe (x ∷ xs) e sp = ground (
  arith,
  is_healthy-check_endpoints probe xs e (check_endpoint x (probe x) sp),
  is_healthy-check_endpoint x e (probe x) sp,
  text_eqb_iff x e,
)

-- After a round of checks an endpoint is healthy exactly if it answered with status 200,
-- whatever it was before; what is no endpoint keeps its state.
pub is_healthy-check_broker_health :
    (probe : Text → Option ℕ) (e : Text) (sp : SmartProxy)
    → is_healthy e (check_broker_health probe sp)
      ≡ (if contains e sp.broker_endpoints then is_up (probe e) else is_healthy e sp)
unfolding check_broker_health
is_healthy-check_broker_health probe e sp =
    let s = sp.stats in
    let counted : SmartProxy = record sp {
      stats = record s { health_check_count = add_int64 s.health_check_count 1 };
    } in
    let kept : is_healthy e counted ≡ is_healthy e sp = unfold is_healthy in refl in
    ground (arith, is_healthy-check_endpoints probe sp.broker_endpoints e counted)

-- The checks leave the endpoints and the ring alone.
check_endpoint_same :
    (endpoint : Text) (probe : Option ℕ) (sp : SmartProxy)
    → ((check_endpoint endpoint probe sp).broker_endpoints ≡ sp.broker_endpoints)
      × ((check_endpoint endpoint probe sp).consistent_hash ≡ sp.consistent_hash)
unfolding check_endpoint
check_endpoint_same endpoint probe sp = ground arith

check_endpoints_same :
    (probe : Text → Option ℕ) (es : List Text) (sp : SmartProxy)
    → ((check_endpoints probe es sp).broker_endpoints ≡ sp.broker_endpoints)
      × ((check_endpoints probe es sp).consistent_hash ≡ sp.consistent_hash)
unfolding check_endpoints
check_endpoints_same probe [] sp = (refl, refl)
check_endpoints_same probe (e ∷ es) sp = ground (
  arith,
  check_endpoints_same probe es (check_endpoint e (probe e) sp),
  check_endpoint_same e (probe e) sp,
)

check_broker_health_same :
    (probe : Text → Option ℕ) (sp : SmartProxy)
    → ((check_broker_health probe sp).broker_endpoints ≡ sp.broker_endpoints)
      × ((check_broker_health probe sp).consistent_hash ≡ sp.consistent_hash)
unfolding check_broker_health
check_broker_health_same probe sp = check_endpoints_same probe sp.broker_endpoints _

-- Right after a round of health checks in which some endpoint of a started proxy answered with
-- 200, every topic and partition goes to an endpoint that answered with 200.
pub route-check_broker_health :
    (sha : Sha512) (sp : SmartProxy) (probe : Text → Option ℕ) (topic : Text) (partition : ℤ)
    (e : Text)
    → IsStarted sha sp
    → contains e sp.broker_endpoints ≡ true
    → probe e ≡ some 200
    → (broker : Text) × (get_broker_for_topic_partition sha topic partition
          (check_broker_health probe sp)
        ≡ some broker)
      × (contains broker sp.broker_endpoints ≡ true)
      × (probe broker ≡ some 200)
route-check_broker_health sha sp probe topic partition e started member up =
    let checked = check_broker_health probe sp in
    let (same_endpoints, same_ring) = check_broker_health_same probe sp in
    let started' : IsStarted sha checked = record {
      built = rw same_ring started.built;
      same_brokers = rw (same_ring, same_endpoints) started.same_brokers;
      some_broker = rw same_endpoints started.some_broker;
      some_node = rw same_ring started.some_node;
    } in
    let healthy = is_healthy-check_broker_health probe e sp in
    let (owner, broker, _, found, among, alive, _) =
      route_healthy sha checked started' topic partition e (rw same_endpoints member)
        (ground arith) in
    let member' = ap (contains broker) (sym same_endpoints) ∙ among in
    (
      broker,
      found,
      member',
      eq_of_is_up (probe broker) (ground (arith, is_healthy-check_broker_health probe broker sp)),
    )
