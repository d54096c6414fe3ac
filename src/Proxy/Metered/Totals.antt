-- ===== src/Proxy/Metered/Totals.antt =====
-- The Prometheus counters of recordRequest, services/msg_queue_proxy/main.go, over some calls.
use telemetry_punitha.Prelude.{
  ◌+◌, ◌≡◌, ◌≢◌, refl, ap, ◌∙◌, Bool, true, false, ◌&&◌, List, [], ◌∷◌, Option, none, some, Text,
  text_eq, text_eqb, text_eqb_iff, ◌==◌, if◌then◌else◌, arith,
}
use telemetry_punitha.Metrics.Utf8.{is_utf8, all_utf8}
use telemetry_punitha.Prelude.{All}
use telemetry_punitha.Metrics.{
  Vector, Prometheus, proxy_requests_total, proxy_request_duration, proxy_broker_requests,
}
use telemetry_punitha.Proxy.{SmartProxy, RequestType, produce, consume, ack, health, topics}
use telemetry_punitha.Proxy.Stats.Log.{Call, record_call, record_all, count}
use telemetry_punitha.Proxy.Metered.{proxy_service, type_name, status_name, metered_record_request}

abbrev pub request_labels : Text → Bool → List Text
request_labels kind success = proxy_service ∷ kind ∷ status_name success ∷ []

unfoldable pub calls_of : {F : Type 0} → List (Call × F) → List Call
calls_of [] = []
calls_of ((c, seconds) ∷ cs) = c ∷ calls_of cs

abbrev pub of_request : Text → Bool → Call → Bool
of_request kind success c = type_name c.kind == kind && status_name c.success == status_name success

abbrev pub of_broker : Text → Bool → Call → Bool
of_broker broker success c = c.broker == broker && status_name c.success == status_name success

kind_word : (kind : RequestType) → is_utf8 (type_name kind) ≡ true
unfolding is_utf8
kind_word produce = refl
kind_word consume = refl
kind_word ack = refl
kind_word health = refl
kind_word topics = refl

status_word : (b : Bool) → is_utf8 (status_name b) ≡ true
unfolding is_utf8
status_word true = refl
status_word false = refl

module _ {F : Type 0} (client : Prometheus F) where
  open client use {Registry, inc, observe, total}

  -- The counters after one call.
  abbrev pub counted : Call → F → Registry → Registry
  counted c seconds r = inc proxy_broker_requests (request_labels c.broker c.success) (
      observe proxy_request_duration (proxy_service ∷ type_name c.kind ∷ []) seconds
        (inc proxy_requests_total (request_labels (type_name c.kind) c.success) r))

  -- The calls of recordRequest, each with its latency in seconds.
  unfoldable pub metered_all :
      List (Call × F) → SmartProxy → Registry → Option (SmartProxy × Registry)
  metered_all [] sp r = some (sp, r)
  metered_all ((c, seconds) ∷ cs) sp r =
      elim (metered_record_request client c.kind c.broker c.latency seconds c.success sp r) [
        | none ↦ none
        | some (after, counted') ↦ metered_all cs after counted'
      ]

  unfoldable pub counted_all : List (Call × F) → Registry → Registry
  counted_all [] r = r
  counted_all ((c, seconds) ∷ cs) r = counted_all cs (counted c seconds r)

  words :
      (c : Call)
      → (is_utf8 proxy_service ≡ true)
        × (is_utf8 (type_name c.kind) ≡ true)
        × (is_utf8 (status_name c.success) ≡ true)
  unfolding is_utf8
  words c = (refl, kind_word c.kind, status_word c.success)

  metered_call :
      (c : Call) (seconds : F) (sp : SmartProxy) (r : Registry)
      → is_utf8 c.broker ≡ true
      → metered_record_request client c.kind c.broker c.latency seconds c.success sp r
        ≡ some (record_call c sp, counted c seconds r)
  unfolding metered_record_request all_utf8
  metered_call c seconds sp r valid =
      let (s, k, w) = words c in rw (metered_record_request, s, k, w, s, k, s, valid, w) refl

  pub metered_all_lem :
      (cs : List (Call × F)) (sp : SmartProxy) (r : Registry)
      → All (λ (c : Call × F). is_utf8 c.0.broker ≡ true) cs
      → metered_all cs sp r ≡ some (record_all (calls_of cs) sp, counted_all cs r)
  unfolding metered_all counted_all calls_of record_all
  metered_all_lem [] sp r valid = refl
  metered_all_lem ((c, seconds) ∷ cs) sp r (valid, more) = ground (
    arith,
    metered_call c seconds sp r valid,
    metered_all_lem cs (record_call c sp) (counted c seconds r) more,
  )

  differ : (a b : Text) → text_eqb a b ≡ false → a ≢ b
  differ a b h e = ground (arith, text_eqb_iff a b)

  -- A counter that goes up by one at every call with the test has counted these calls.
  pub counted_all-count :
      (n : Text) (ls : List Text) (test : Call → Bool)
      → ((c : Call) (seconds : F) (r : Registry)
          → total n ls (counted c seconds r) ≡ total n ls r + (if test c then 1 else 0))
      → (cs : List (Call × F)) (r : Registry)
      → total n ls (counted_all cs r) ≡ total n ls r + count test (calls_of cs)
  unfolding counted_all count calls_of
  counted_all-count n ls test one [] r = omega arith
  counted_all-count n ls test one ((c, seconds) ∷ cs) r =
      omega (arith, one c seconds r, counted_all-count n ls test one cs (counted c seconds r))

  inc-total :
      (v : Vector) (kind kind' : Text) (success success' : Bool) (r : Registry)
      → total v.name (request_labels kind' success') (inc v (request_labels kind success) r)
        ≡ total v.name (request_labels kind' success') r
          + (if kind == kind' && status_name success == status_name success' then 1 else 0)
  inc-total v kind kind' success success' r = ground (
    arith,
    text_eqb_iff kind kind',
    text_eqb_iff (status_name success) (status_name success'),
    client.total-inc v (request_labels kind success) r,
    client.total-inc_labels v (request_labels kind success) (request_labels kind' success') r,
  )

  pub one_request :
      (kind : Text) (success : Bool) (c : Call) (seconds : F) (r : Registry)
      → total proxy_requests_total.name (request_labels kind success) (counted c seconds r)
        ≡ total proxy_requests_total.name (request_labels kind success) r
          + (if of_request kind success c then 1 else 0)
  unfolding text_eqb
  one_request kind success c seconds r =
      client.total-inc_other proxy_broker_requests (request_labels c.broker c.success)
        (request_labels kind success) proxy_requests_total.name _
        (differ proxy_broker_requests.name proxy_requests_total.name refl)
      ∙ client.total-observe_other proxy_request_duration (proxy_service ∷ type_name c.kind ∷ [])
          (request_labels kind success) proxy_requests_total.name seconds _
          (differ proxy_request_duration.name proxy_requests_total.name refl)
      ∙ inc-total proxy_requests_total (type_name c.kind) kind c.success success r

  pub one_of_broker :
      (broker : Text) (success : Bool) (c : Call) (seconds : F) (r : Registry)
      → total proxy_broker_requests.name (request_labels broker success) (counted c seconds r)
        ≡ total proxy_broker_requests.name (request_labels broker success) r
          + (if of_broker broker success c then 1 else 0)
  unfolding text_eqb
  one_of_broker broker success c seconds r =
      inc-total proxy_broker_requests c.broker broker c.success success _
      ∙ ap (λ n. n + (if of_broker broker success c then 1 else 0))
          (client.total-observe_other proxy_request_duration (proxy_service ∷ type_name c.kind ∷ [])
              (request_labels broker success) proxy_broker_requests.name seconds _
              (differ proxy_request_duration.name proxy_broker_requests.name refl)
            ∙ client.total-inc_other proxy_requests_total
                (request_labels (type_name c.kind) c.success) (request_labels broker success)
                proxy_broker_requests.name r
                (differ proxy_requests_total.name proxy_broker_requests.name refl))
