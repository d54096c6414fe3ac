-- ===== src/Proxy/Stats/Log.antt =====
-- The statistics of services/msg_queue_proxy/main.go against a log of the recorded requests.
use telemetry_punitha.Prelude.{
  ℕ, ◌+◌, ◌%◌, ◌^◌, ◌<◌, ◌≡◌, refl, ap, ◌∙◌, Bool, true, false, not, ◌&&◌, List, [], ◌∷◌, none,
  some, Text, text_eq, text_eqb_iff, ◌==◌, length, if◌then◌else◌, arith,
}
use telemetry_punitha.Prelude.Int.{to_int}
use telemetry_punitha.Prelude.Map.{Map, lookup, lookup-insert}
use telemetry_punitha.Proxy.{
  ProxyConfig, SmartProxy, RequestType, produce, consume, ack, health, new_smart_proxy, add_int64,
  increment, record_request,
}
use telemetry_punitha.Proxy.Stats.{Float64, Stats, stats_handler}

-- The arguments of one call of recordRequest.
pub record Call : Type 0 where
  pub kind : RequestType
  pub broker : Text
  pub latency : ℕ
  pub success : Bool

abbrev pub record_call : Call → SmartProxy → SmartProxy
record_call c sp = record_request c.kind c.broker c.latency c.success sp

unfoldable pub record_all : List Call → SmartProxy → SmartProxy
record_all [] sp = sp
record_all (c ∷ cs) sp = record_all cs (record_call c sp)

-- The number of the calls for which the test holds.
unfoldable pub count : (Call → Bool) → List Call → ℕ
count test [] = 0
count test (c ∷ cs) = (if test c then 1 else 0) + count test cs

abbrev pub is_produce : Call → Bool
is_produce c = elim c.kind [ produce ↦ true | _ ↦ false ]

abbrev pub is_consume : Call → Bool
is_consume c = elim c.kind [ consume ↦ true | _ ↦ false ]

abbrev pub is_ack : Call → Bool
is_ack c = elim c.kind [ ack ↦ true | _ ↦ false ]

abbrev pub is_health : Call → Bool
is_health c = elim c.kind [ health ↦ true | _ ↦ false ]

-- The count of a broker in one of the two maps.
unfoldable pub count_of : Text → Map Text ℕ → ℕ
count_of e m = elim (lookup e m) [ none ↦ 0 | some n ↦ n ]

count_of-increment :
    (e k : Text) (m : Map Text ℕ)
    → count_of e (increment k m) ≡ (if k == e then add_int64 (count_of e m) 1 else count_of e m)
unfolding count_of increment
count_of-increment e k m = ground (
  arith,
  lookup-insert k e (add_int64 (elim (lookup k m) [ none ↦ 0 | some n ↦ n ]) 1) m,
  text_eqb_iff k e,
)

counted_step :
    (t : Bool) (a b n : ℕ)
    → b ≡ (if t then add_int64 a 1 else a)
    → a < 2 ^ 64
    → (b < 2 ^ 64) × ((b + n) % 2 ^ 64 ≡ (a + ((if t then 1 else 0) + n)) % 2 ^ 64)
counted_step true a b n e h = (omega (arith, e), omega (arith, e))
counted_step false a b n e h = (omega (arith, e, h), omega (arith, e))

-- A counter that every call with the test increments has counted these calls.
record_all-count :
    (field : SmartProxy → ℕ) (test : Call → Bool)
    → ((c : Call) (sp : SmartProxy)
        → field (record_call c sp) ≡ (if test c then add_int64 (field sp) 1 else field sp))
    → (cs : List Call) (sp : SmartProxy) → field sp < 2 ^ 64
    → field (record_all cs sp) ≡ (field sp + count test cs) % 2 ^ 64
unfolding record_all count
record_all-count field test one [] sp h = omega arith
record_all-count field test one (c ∷ cs) sp h =
    let (b, e) =
      counted_step (test c) (field sp) (field (record_call c sp)) (count test cs) (one c sp) h in
    record_all-count field test one cs (record_call c sp) b ∙ e

-- It has counted them from 0.
from_zero :
    (field : SmartProxy → ℕ) (test : Call → Bool)
    → ((c : Call) (sp : SmartProxy)
        → field (record_call c sp) ≡ (if test c then add_int64 (field sp) 1 else field sp))
    → (cs : List Call) (sp : SmartProxy) → field sp ≡ 0
    → field (record_all cs sp) ≡ count test cs % 2 ^ 64
from_zero field test one cs sp z =
    record_all-count field test one cs sp (omega (arith, z)) ∙ omega (arith, z)

always : Call → Bool
always c = true

count_always : (cs : List Call) → count always cs ≡ length cs
unfolding count always
count_always [] = refl
count_always (c ∷ cs) = omega (arith, count_always cs)

-- What the handler answers after the calls.
pub record Tallies (F : Type 0) (cs : List Call) (answer : Stats F) : Type 0 where
  pub total : answer.total_requests ≡ to_int (length cs % 2 ^ 64)
  pub successful : answer.successful_requests ≡ to_int (count (λ c. c.success) cs % 2 ^ 64)
  pub failed : answer.failed_requests ≡ to_int (count (λ c. not c.success) cs % 2 ^ 64)
  pub produced : answer.produce ≡ to_int (count is_produce cs % 2 ^ 64)
  pub consumed : answer.consume ≡ to_int (count is_consume cs % 2 ^ 64)
  pub acked : answer.ack ≡ to_int (count is_ack cs % 2 ^ 64)
  pub health_asked : answer.health ≡ to_int (count is_health cs % 2 ^ 64)
  pub requests_of :
      (e : Text)
      → count_of e answer.request_counts ≡ count (λ c. c.success && c.broker == e) cs % 2 ^ 64
  pub errors_of :
      (e : Text)
      → count_of e answer.error_counts ≡ count (λ c. not c.success && c.broker == e) cs % 2 ^ 64

module _ (c : Call) (sp : SmartProxy) where
  one_successful : (record_call c sp).stats.successful_requests ≡ (
      if c.success then add_int64 sp.stats.successful_requests 1 else sp.stats.successful_requests)
  unfolding record_request
  one_successful = ground arith

  one_failed :
      (record_call c sp).stats.failed_requests
      ≡ (if not c.success then add_int64 sp.stats.failed_requests 1 else sp.stats.failed_requests)
  unfolding record_request
  one_failed = ground arith

  one_total : (record_call c sp).stats.total_requests ≡ add_int64 sp.stats.total_requests 1
  unfolding record_request
  one_total = ground arith

  one_produced :
      (record_call c sp).stats.produce_requests
      ≡ (if is_produce c then add_int64 sp.stats.produce_requests 1 else sp.stats.produce_requests)
  unfolding record_request
  one_produced = ground arith

  one_consumed :
      (record_call c sp).stats.consume_requests
      ≡ (if is_consume c then add_int64 sp.stats.consume_requests 1 else sp.stats.consume_requests)
  unfolding record_request
  one_consumed = ground arith

  one_acked :
      (record_call c sp).stats.ack_requests
      ≡ (if is_ack c then add_int64 sp.stats.ack_requests 1 else sp.stats.ack_requests)
  unfolding record_request
  one_acked = ground arith

  one_health :
      (record_call c sp).stats.health_requests
      ≡ (if is_health c then add_int64 sp.stats.health_requests 1 else sp.stats.health_requests)
  unfolding record_request
  one_health = ground arith

  one_request_of :
      (e : Text)
      → count_of e (record_call c sp).stats.broker_request_counts ≡ (
          if c.success && c.broker == e
          then add_int64 (count_of e sp.stats.broker_request_counts) 1
          else count_of e sp.stats.broker_request_counts)
  unfolding record_request
  one_request_of e = ground (arith, count_of-increment e c.broker sp.stats.broker_request_counts)

  one_error_of :
      (e : Text)
      → count_of e (record_call c sp).stats.broker_errors ≡ (
          if not c.success && c.broker == e
          then add_int64 (count_of e sp.stats.broker_errors) 1
          else count_of e sp.stats.broker_errors)
  unfolding record_request
  one_error_of e = ground (arith, count_of-increment e c.broker sp.stats.broker_errors)

-- After any sequence of calls of recordRequest on a new proxy, statsHandler answers the tallies
-- of the sequence modulo 2^64, as int64: the calls, the successes and failures, the calls of
-- each kind that has a counter, and for each broker its successes and its failures.
pub stats_handler-record_all :
    (float : Float64) (uptime : float.Float) (config : ProxyConfig) (cs : List Call)
    → Tallies float.Float cs (stats_handler float uptime (record_all cs (new_smart_proxy config)))
unfolding stats_handler new_smart_proxy count_of always to_int lookup
stats_handler-record_all float uptime config cs =
    let sp = new_smart_proxy config in
    record {
      total = ap to_int (
          from_zero (λ s. s.stats.total_requests) always one_total cs sp refl
          ∙ ap (λ n. n % 2 ^ 64) (count_always cs));
      successful =
          ap to_int (
            from_zero (λ s. s.stats.successful_requests) (λ c. c.success) one_successful cs sp
              refl);
      failed =
          ap to_int
            (from_zero (λ s. s.stats.failed_requests) (λ c. not c.success) one_failed cs sp refl);
      produced =
          ap to_int (from_zero (λ s. s.stats.produce_requests) is_produce one_produced cs sp refl);
      consumed =
          ap to_int (from_zero (λ s. s.stats.consume_requests) is_consume one_consumed cs sp refl);
      acked = ap to_int (from_zero (λ s. s.stats.ack_requests) is_ack one_acked cs sp refl);
      health_asked =
          ap to_int (from_zero (λ s. s.stats.health_requests) is_health one_health cs sp refl);
      requests_of = λ e.
          from_zero (λ s. count_of e s.stats.broker_request_counts)
            (λ c. c.success && c.broker == e) (λ c s. one_request_of c s e) cs sp refl;
      errors_of = λ e.
          from_zero (λ s. count_of e s.stats.broker_errors) (λ c. not c.success && c.broker == e)
            (λ c s. one_error_of c s e) cs sp refl;
    }
