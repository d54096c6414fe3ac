-- ===== src/Proxy/Metered/Views.antt =====
-- The proxy's two views of its requests: the answer of /stats and the Prometheus counters.
use telemetry_punitha.Prelude.{
  ℕ, ◌+◌, ◌%◌, ◌^◌, ◌≡◌, refl, ap, ◌∙◌, fun_ext, Bool, true, false, not, ◌&&◌, List, [], ◌∷◌,
  Option, none, some, leb, if◌then◌else◌, Text, codes, text_eq, text_eqb, ◌==◌, arith,
}
use telemetry_punitha.Prelude.Int.{to_int}
use telemetry_punitha.Metrics.Utf8.{is_utf8, all_utf8}
use telemetry_punitha.Prelude.{All}
use telemetry_punitha.Metrics.{
  proxy_broker_health, Prometheus, proxy_requests_total, proxy_broker_requests,
}
use telemetry_punitha.Proxy.{
  ProxyConfig, SmartProxy, RequestType, produce, consume, ack, health, topics, new_smart_proxy,
  check_broker_health, check_endpoint, check_endpoints,
}
use telemetry_punitha.Proxy.Stats.{Float64, Stats, stats_handler}
use telemetry_punitha.Proxy.Stats.Log.{
  Call, record_all, count, count_of, is_produce, is_consume, is_ack, is_health,
  stats_handler-record_all,
}
use telemetry_punitha.Proxy.Metered.{
  proxy_service, type_name, status_name, metered_check_endpoint, metered_check_endpoints,
  metered_check_broker_health,
}
use telemetry_punitha.Proxy.Metered.Totals.{
  request_labels, calls_of, of_request, of_broker, counted_all, metered_all, metered_all_lem,
  counted_all-count, one_request, one_of_broker,
}

succeeded : (b : Bool) → (status_name b == status_name true) ≡ b
unfolding text_eqb
succeeded true = refl
succeeded false = refl

failed : (b : Bool) → (status_name b == status_name false) ≡ not b
unfolding text_eqb
failed true = refl
failed false = refl

kind_produce :
    (kind : RequestType)
    → (elim kind [ produce ↦ true | _ ↦ false ]) ≡ (type_name kind == codes "produce")
unfolding text_eqb
kind_produce produce = refl
kind_produce consume = refl
kind_produce ack = refl
kind_produce health = refl
kind_produce topics = refl

kind_consume :
    (kind : RequestType)
    → (elim kind [ consume ↦ true | _ ↦ false ]) ≡ (type_name kind == codes "consume")
unfolding text_eqb
kind_consume produce = refl
kind_consume consume = refl
kind_consume ack = refl
kind_consume health = refl
kind_consume topics = refl

kind_ack :
    (kind : RequestType) → (elim kind [ ack ↦ true | _ ↦ false ]) ≡ (type_name kind == codes "ack")
unfolding text_eqb
kind_ack produce = refl
kind_ack consume = refl
kind_ack ack = refl
kind_ack health = refl
kind_ack topics = refl

kind_health :
    (kind : RequestType)
    → (elim kind [ health ↦ true | _ ↦ false ]) ≡ (type_name kind == codes "health")
unfolding text_eqb
kind_health produce = refl
kind_health consume = refl
kind_health ack = refl
kind_health health = refl
kind_health topics = refl

produces : (c : Call) → is_produce c ≡ (type_name c.kind == codes "produce")
produces c = kind_produce c.kind

consumes : (c : Call) → is_consume c ≡ (type_name c.kind == codes "consume")
consumes c = kind_consume c.kind

acks : (c : Call) → is_ack c ≡ (type_name c.kind == codes "ack")
acks c = kind_ack c.kind

healths : (c : Call) → is_health c ≡ (type_name c.kind == codes "health")
healths c = kind_health c.kind

-- The tests on calls that give the same answers count the same calls.
count_same :
    (test other : Call → Bool) (cs : List Call)
    → ((c : Call) → test c ≡ other c)
    → count test cs ≡ count other cs
count_same test other cs same = ap (λ t. count t cs) (fun_ext same)

module _ {F : Type 0} (client : Prometheus F) where
  open client use {Registry, total}

  -- The answer of statsHandler says what the counters say, modulo 2^64: for the requests to
  -- produce, consume and ack, with both outcomes, and for the successes and failures of a broker.
  pub record Agrees {G : Type 0} (r : Registry) (answer : Stats G) : Type 0 where
    pub produced :
        answer.produce
        ≡ to_int (
            (total proxy_requests_total.name (request_labels (codes "produce") true) r
              + total proxy_requests_total.name (request_labels (codes "produce") false) r)
            % 2 ^ 64)
    pub consumed :
        answer.consume
        ≡ to_int (
            (total proxy_requests_total.name (request_labels (codes "consume") true) r
              + total proxy_requests_total.name (request_labels (codes "consume") false) r)
            % 2 ^ 64)
    pub acked :
        answer.ack
        ≡ to_int (
            (total proxy_requests_total.name (request_labels (codes "ack") true) r
              + total proxy_requests_total.name (request_labels (codes "ack") false) r)
            % 2 ^ 64)
    pub health_asked :
        answer.health
        ≡ to_int (
            (total proxy_requests_total.name (request_labels (codes "health") true) r
              + total proxy_requests_total.name (request_labels (codes "health") false) r)
            % 2 ^ 64)
    pub requests_of :
        (e : Text)
        → count_of e answer.request_counts
          ≡ total proxy_broker_requests.name (request_labels e true) r % 2 ^ 64
    pub errors_of :
        (e : Text)
        → count_of e answer.error_counts
          ≡ total proxy_broker_requests.name (request_labels e false) r % 2 ^ 64

  count_split :
      (kind : Text) (test : Call → Bool) (cs : List Call)
      → ((c : Call) → test c ≡ (type_name c.kind == kind))
      → count test cs ≡ count (of_request kind true) cs + count (of_request kind false) cs
  unfolding count
  count_split kind test [] same = refl
  count_split kind test (c ∷ cs) same =
      ground (arith, same c, count_split kind test cs same, succeeded c.success, failed c.success)

  -- The proxy's two views of its requests agree: a sequence of calls of recordRequest with
  -- brokers that are valid UTF-8, on a new proxy with counters at 0, does not panic, and
  -- afterwards statsHandler answers modulo 2^64 what the Prometheus counters say of the requests
  -- to produce, consume, ack and health, with both outcomes, and of the successes and failures
  -- of each broker.
  pub metered_all-Agrees :
      (float : Float64) (uptime : float.Float) (config : ProxyConfig) (cs : List (Call × F))
      (r : Registry)
      → ((n : Text) (ls : List Text) → total n ls r ≡ 0)
      → All (λ (c : Call × F). is_utf8 c.0.broker ≡ true) cs
      → let answer = λ (sp : SmartProxy). stats_handler float uptime sp in
        (sp : SmartProxy) × (after : Registry) × (metered_all client cs (new_smart_proxy config) r
          ≡ some (sp, after))
        × (sp ≡ record_all (calls_of cs) (new_smart_proxy config))
        × Agrees after (answer sp)
  metered_all-Agrees float uptime config cs r fresh valid =
      let calls = calls_of cs in
      let after = counted_all client cs r in
      let tallies = stats_handler-record_all float uptime config calls in
      let requests = λ (kind : Text) (success : Bool).
        counted_all-count client proxy_requests_total.name (request_labels kind success)
          (of_request kind success) (one_request client kind success) cs r in
      let both : (kind : Text) (test : Call → Bool)
          → ((c : Call) → test c ≡ (type_name c.kind == kind))
          → count test calls
            ≡ total proxy_requests_total.name (request_labels kind true) after
              + total proxy_requests_total.name (request_labels kind false) after =
        λ kind test same. omega (
          arith,
          count_split kind test calls same,
          requests kind true,
          requests kind false,
          fresh proxy_requests_total.name (request_labels kind true),
          fresh proxy_requests_total.name (request_labels kind false),
        ) in
      let brokers = λ (e : Text) (success : Bool).
        counted_all-count client proxy_broker_requests.name (request_labels e success)
          (of_broker e success) (one_of_broker client e success) cs r in
      (
        record_all calls (new_smart_proxy config),
        after,
        metered_all_lem client cs (new_smart_proxy config) r valid,
        refl,
        record {
          produced =
              tallies.produced
              ∙ ap (λ n. to_int (n % 2 ^ 64)) (both (codes "produce") is_produce produces);
          consumed =
              tallies.consumed
              ∙ ap (λ n. to_int (n % 2 ^ 64)) (both (codes "consume") is_consume consumes);
          acked = tallies.acked ∙ ap (λ n. to_int (n % 2 ^ 64)) (both (codes "ack") is_ack acks);
          health_asked =
              tallies.health_asked
              ∙ ap (λ n. to_int (n % 2 ^ 64)) (both (codes "health") is_health healths);
          requests_of = λ e.
              tallies.requests_of e
              ∙ ap (λ n. n % 2 ^ 64)
                  (count_same (λ c. c.success && c.broker == e) (of_broker e true) calls
                      (λ c. ground (arith, succeeded c.success))
                    ∙ omega (
                      arith,
                      brokers e true,
                      fresh proxy_broker_requests.name (request_labels e true),
                    ));
          errors_of = λ e.
              tallies.errors_of e
              ∙ ap (λ n. n % 2 ^ 64)
                  (count_same (λ c. not c.success && c.broker == e) (of_broker e false) calls
                      (λ c. ground (arith, failed c.success))
                    ∙ omega (
                      arith,
                      brokers e false,
                      fresh proxy_broker_requests.name (request_labels e false),
                    ));
        },
      )

  module _ (one zero_value : F) where
    check_endpoints_metered :
        (probe : Text → Option ℕ) (es : List Text) (sp : SmartProxy) (r : Registry)
        → All (λ (e : Text). is_utf8 e ≡ true) es
        → (after : Registry) × (metered_check_endpoints client one zero_value probe es sp r
            ≡ some (check_endpoints probe es sp, after))
    unfolding metered_check_endpoints metered_check_endpoint check_endpoints all_utf8 is_utf8
    check_endpoints_metered probe [] sp r valid = (r, refl)
    check_endpoints_metered probe (e ∷ es) sp r (valid, more) =
        let good : Bool = elim (probe e) [
          | none ↦ false
          | some status ↦ leb status 200 && leb 200 status
        ] in
        let r1 =
          client.set proxy_broker_health (proxy_service ∷ e ∷ []) (if good then one else zero_value)
            r in
        let (after, same) =
          check_endpoints_metered probe es (check_endpoint e (probe e) sp) r1 more in
        (after, rw (metered_check_endpoints, metered_check_endpoint, valid) same)

    -- The metrics change nothing of a round of health checks, and none of them panics, if the
    -- endpoints are valid UTF-8.
    pub metered_check_broker_health_lem :
        (probe : Text → Option ℕ) (sp : SmartProxy) (r : Registry)
        → All (λ (e : Text). is_utf8 e ≡ true) sp.broker_endpoints
        → (after : Registry) × (metered_check_broker_health client one zero_value probe sp r
            ≡ some (check_broker_health probe sp, after))
    unfolding metered_check_broker_health check_broker_health all_utf8 is_utf8
    metered_check_broker_health_lem probe sp r valid =
        check_endpoints_metered probe sp.broker_endpoints _ _ valid
