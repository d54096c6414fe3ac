-- ===== src/Proxy/Counters.antt =====
-- The counters of SmartProxy, services/msg_queue_proxy/main.go.
use telemetry_punitha.Prelude.{
  ℕ, ◌+◌, ◌%◌, ◌^◌, ◌≡◌, ◌≢◌, refl, Bool, true, false, [], ◌++◌, none, some, Text, ◌⊎◌, codes,
  text_eq, ◌==◌, arith, mentions, mentions-append, ◌-◌, ◌&&◌, leb, ltb, if◌then◌else◌, text_eqb_iff,
  Bool-cases, inl, inr, Option-cases,
}
use telemetry_punitha.Prelude.Int.{ℤ}
use telemetry_punitha.Prelude.Map.{Map, lookup, lookup-insert}
use telemetry_punitha.MsgQueue.Http.{Response}
use telemetry_punitha.Strconv.{atoi, itoa}
use telemetry_punitha.ConsistentHash.{Sha512}
use telemetry_punitha.Proxy.{
  SmartProxy, ProxyStats, RequestType, produce, add_int64, increment, record_request,
  get_broker_for_topic_partition,
}
use telemetry_punitha.Proxy.Requests.{
  Forwarded, unreadable, bad_url, unreachable, answered, forward_request, Network, Request,
  target_url, route, produce_handler,
}

-- Every recorded request is counted as a success or as a failure, and at most under one type; all
-- sums are those of int64, modulo 2^64.
pub record IsCounted (s : ProxyStats) : Type 0 where
  pub outcomes : s.total_requests ≡ (s.successful_requests + s.failed_requests) % 2 ^ 64
  pub latencies : s.request_count ≡ s.total_requests

-- recordRequest keeps the total equal to the successes plus the failures modulo 2^64, and to the
-- number of recorded latencies.
pub record_request-IsCounted :
    (kind : RequestType) (broker : Text) (latency : ℕ) (success : Bool) (sp : SmartProxy)
    → IsCounted sp.stats
    → IsCounted (record_request kind broker latency success sp).stats
unfolding record_request
record_request-IsCounted kind broker latency success sp c = ground (arith, c.outcomes, c.latencies)

mentions-target_url :
    (broker path topic : Text) (partition : ℤ)
    → mentions b'?' (target_url broker path topic partition) ≡ true
unfolding target_url
mentions-target_url broker path topic partition =
    let query = topic ++ (codes "&partition=" ++ itoa partition) in
    let known : mentions b'?' (codes "?topic=" ++ query) ≡ true = unfold mentions in refl in
    ground (
      arith,
      mentions-append b'?' broker (path ++ (codes "?topic=" ++ query)),
      mentions-append b'?' path (codes "?topic=" ++ query),
      known,
    )

lookup-increment_other :
    (k j : Text) (m : Map Text ℕ) → k ≢ j → lookup j (increment k m) ≡ lookup j m
unfolding increment
lookup-increment_other k j m h = ground (
  arith,
  lookup-insert k j (add_int64 (elim (lookup k m) [ none ↦ 0 | some n ↦ n ]) 1) m,
  text_eqb_iff k j,
)

-- The two counters of a broker.
abbrev pub SameCounts : Text → SmartProxy → SmartProxy → Type 0
SameCounts e sp sp' =
    (lookup e sp'.stats.broker_request_counts ≡ lookup e sp.stats.broker_request_counts)
    × (lookup e sp'.stats.broker_errors ≡ lookup e sp.stats.broker_errors)

record_request-SameCounts :
    (kind : RequestType) (url e : Text) (latency : ℕ) (success : Bool) (sp : SmartProxy)
    → url ≢ e
    → SameCounts e sp (record_request kind url latency success sp)
unfolding record_request
record_request-SameCounts kind url e latency success sp h = ground (
  arith,
  lookup-increment_other url e sp.stats.broker_request_counts h,
  lookup-increment_other url e sp.stats.broker_errors h,
)

forward_request-SameCounts :
    (f : Forwarded) (latency : ℕ) (url e : Text) (kind : RequestType) (sp : SmartProxy)
    → url ≢ e
    → SameCounts e sp (forward_request f latency url kind sp).1
unfolding forward_request
forward_request-SameCounts unreadable latency url e kind sp h =
    record_request-SameCounts kind url e latency false sp h
forward_request-SameCounts bad_url latency url e kind sp h =
    record_request-SameCounts kind url e latency false sp h
forward_request-SameCounts unreachable latency url e kind sp h =
    record_request-SameCounts kind url e latency false sp h
forward_request-SameCounts (answered resp) latency url e kind sp h =
    record_request-SameCounts kind url e latency _ sp h

-- A forwarded request counts as one request and as one success or failure: a success exactly if
-- the broker answered with a status from 200 to 399.
pub forward_request_counts :
    (f : Forwarded) (latency : ℕ) (url : Text) (kind : RequestType) (sp : SmartProxy)
    → let s = sp.stats in
      let s' = (forward_request f latency url kind sp).1.stats in
      let good : ℕ = elim f [
        | answered resp ↦ if leb 200 resp.status && ltb resp.status 400 then 1 else 0
        | _ ↦ 0
      ] in
      (s'.total_requests ≡ add_int64 s.total_requests 1)
      × (s'.successful_requests % 2 ^ 64 ≡ (s.successful_requests + good) % 2 ^ 64)
      × (s'.failed_requests % 2 ^ 64 ≡ (s.failed_requests + (1 - good)) % 2 ^ 64)
unfolding forward_request record_request
forward_request_counts unreadable latency url kind sp = ground arith
forward_request_counts bad_url latency url kind sp = ground arith
forward_request_counts unreachable latency url kind sp = ground arith
forward_request_counts (answered resp) latency url kind sp = ground arith

module _ (sha : Sha512) (net : Network) where
  -- A routed request is answered by the proxy itself, or forwarded once.
  route_cases :
      (kind : RequestType) (url : Text → ℤ → Text) (topic part : Text) (sp sp' : SmartProxy)
      (resp : Response)
      → route sha net kind url topic part sp ≡ some (resp, sp')
      → (sp' ≡ sp)
        ⊎ ((broker : Text) × (partition : ℤ) × (sp'
              ≡ (forward_request
                  (net.send (url broker partition))
                  net.latency
                  (url broker partition)
                  kind
                  sp).1))
  route_cases kind url topic part sp sp' resp done = elim (Option-cases (atoi part)) [
    | inl bad ↦ inl (unfold route in ground arith)
    | inr (partition, parsed) ↦
        elim (Option-cases (get_broker_for_topic_partition sha topic partition sp)) [
          | inl panics ↦ absurd (unfold route in ground arith)
          | inr (broker, found) ↦ elim (Bool-cases (broker == [])) [
            | inl none_left ↦ inl (unfold route in ground arith)
            | inr known ↦ inr (broker, partition, unfold route in ground arith)
          ]
        ]
  ]

  -- The counters by broker go by the target URL. So a produce that is handled never changes the
  -- counters of an endpoint (a URL with no question mark), whatever comes of it.
  pub produce_handler-SameCounts :
      (r : Request) (e : Text) (sp sp' : SmartProxy) (resp : Response)
      → mentions b'?' e ≡ false
      → produce_handler sha net r sp ≡ some (resp, sp')
      → SameCounts e sp sp'
  produce_handler-SameCounts r e sp sp' resp plain done =
      let url =
        λ (broker : Text) (partition : ℤ). target_url broker (codes "/produce") r.topic partition in
      elim (Option-cases (route sha net produce url r.topic r.partition sp)) [
        | inl panics ↦ unfold produce_handler in ground arith
        | inr ((resp', sp''), routed) ↦
            let same : SameCounts e sp sp'' =
              elim (route_cases produce url r.topic r.partition sp sp'' resp' routed) [
                | inl kept ↦ rw kept (refl, refl)
                | inr (broker, partition, forwarded) ↦ rw forwarded (
                    forward_request-SameCounts (net.send (url broker partition)) net.latency
                      (url broker partition) e produce sp
                      (λ p. cc (
                        p,
                        plain,
                        mentions-target_url broker (codes "/produce") r.topic partition,
                      )))
              ] in
            unfold produce_handler in ground arith
      ]
