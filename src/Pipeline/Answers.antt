-- ===== src/Pipeline/Answers.antt =====
-- What a 200 means for the client, for the proxy and for the broker.
use telemetry_punitha.Prelude.{
  ℕ, ◌≡◌, ◌≢◌, refl, sym, ap, subst, ◌∙◌, ◌⊎◌, inl, inr, [], none, some, Text, codes, text_eq, ◌==◌,
  Option-cases, Result, ok, err, arith, Bool-cases,
}
use telemetry_punitha.Prelude.Int.{ℤ}
use telemetry_punitha.Strconv.{itoa}
use telemetry_punitha.Strconv.RoundTrip.{IsInt64, atoi-itoa}
use telemetry_punitha.ConsistentHash.{Sha512}
use telemetry_punitha.MsgQueue.Message.{Codec}
use telemetry_punitha.MsgQueue.Http.{Response}
use telemetry_punitha.MsgQueue.Http
use telemetry_punitha.MsgQueue.Broker.{Broker}
use telemetry_punitha.MsgQueue.Handlers.{Bodies, ProduceCall, message_of}
use telemetry_punitha.MsgQueue.Handlers
use telemetry_punitha.MsgQueue.Handlers.Delivery.{IsStored, produce_handler_cases}
use telemetry_punitha.Proxy.{SmartProxy, produce, get_broker_for_topic_partition}
use telemetry_punitha.Proxy.Requests.{
  Forwarded, unreadable, bad_url, unreachable, answered, Network, post, target_url, forward_request,
  route,
}
use telemetry_punitha.Proxy.Requests
use telemetry_punitha.HttpQueue.{outcome}

pub outcome_nil :
    (r : Result Text Response)
    → outcome r ≡ none
    → (resp : Response) × (r ≡ ok resp) × (resp.status ≡ 200)
unfolding outcome
outcome_nil (err e) h = absurd (ground arith)
outcome_nil (ok resp) h = (resp, refl, ground arith)

Forwarded-cases :
    (f : Forwarded)
    → ((resp : Response) × (f ≡ answered resp))
      ⊎ ((latency : ℕ) (url : Text) (sp : SmartProxy)
          → (forward_request f latency url produce sp).0.status ≢ 200)
unfolding forward_request
Forwarded-cases unreadable = inr (λ latency url sp h. ground arith)
Forwarded-cases bad_url = inr (λ latency url sp h. ground arith)
Forwarded-cases unreachable = inr (λ latency url sp h. ground arith)
Forwarded-cases (answered resp) = inl (resp, refl)

-- The proxy's handler answers with 200 only what a broker answered.
module _ (sha : Sha512) (net : Network) where
  route-answered :
      (topic : Text) (part : ℤ) (url : Text → ℤ → Text) (sp after : SmartProxy) (resp : Response)
      → IsInt64 part
      → route sha net produce url topic (itoa part) sp ≡ some (resp, after)
      → resp.status ≡ 200
      → (broker : Text) × (get_broker_for_topic_partition sha topic part sp ≡ some broker)
        × (net.send (url broker part) ≡ answered resp)
  unfolding route
  route-answered topic part url sp after resp small e good =
      let parsed = atoi-itoa part small in
      elim (Option-cases (get_broker_for_topic_partition sha topic part sp)) [
        | inl panics ↦ absurd (ground arith)
        | inr (broker, at) ↦ elim (Bool-cases (broker == [])) [
          | inl nowhere ↦ absurd (ground arith)
          | inr somewhere ↦
              let target = url broker part in
              let same : forward_request (net.send target) net.latency target produce sp
                  ≡ (resp, after) =
                ground arith in
              elim (Forwarded-cases (net.send target)) [
                | inl (resp', sent) ↦ (broker, at, sent ∙ (unfold forward_request in ground arith))
                | inr bad ↦ absurd (bad net.latency target sp (ap (λ p. p.0.status) same ∙ good))
              ]
        ]
      ]

  pub produce_answered :
      (r : Requests.Request) (topic : Text) (part : ℤ) (sp after : SmartProxy) (resp : Response)
      → r.topic ≡ topic
      → r.partition ≡ itoa part
      → IsInt64 part
      → Requests.produce_handler sha net r sp ≡ some (resp, after)
      → resp.status ≡ 200
      → (broker : Text) × (get_broker_for_topic_partition sha topic part sp ≡ some broker)
        × (net.send (target_url broker (codes "/produce") topic part) ≡ answered resp)
  produce_answered r topic part sp after resp same_topic same_part small e good =
      let routed : route sha net produce
            (λ broker partition. target_url broker (codes "/produce") r.topic partition) r.topic
            r.partition sp
          ≡ some (resp, after) =
        unfold Requests.produce_handler in ground arith in
      let read =
        ap
          (λ s.
            route sha net produce
              (λ broker partition. target_url broker (codes "/produce") r.topic partition) r.topic s
              sp)
          same_part in
      let (broker, at, sent) =
        route-answered r.topic part _ sp after resp small (sym read ∙ routed) good in
      (
        broker,
        ap (λ t. get_broker_for_topic_partition sha t part sp) (sym same_topic) ∙ at,
        ap (λ t. net.send (target_url broker (codes "/produce") t part)) (sym same_topic) ∙ sent,
      )

module _ (codec : Codec) (bodies : Bodies) (call : ProduceCall) where
  pub broker-IsStored :
      (r : Http.Request) (topic : Text) (part : ℤ) (body : Text) (b : Broker) (resp : Response)
      → r.topic ≡ topic
      → r.partition ≡ itoa part
      → IsInt64 part
      → r.body ≡ some body
      → (Handlers.produce_handler codec bodies call r b).0 ≡ some resp
      → resp.status ≡ 200
      → IsStored call.env topic part
          (message_of codec bodies call topic part body)
          b
          (Handlers.produce_handler codec bodies call r b).1
  broker-IsStored r topic part body b resp same_topic same_part small same_body e good =
      elim (produce_handler_cases codec bodies call r b resp e) [
        | inl (bad, kept) ↦ absurd (omega (arith, bad, good))
        | inr (inl failed) ↦ absurd (omega (arith, failed, good))
        | inr (inr (part', body', accepted, parsed, read, stored)) ↦
            let p : part' ≡ part = ground (arith, atoi-itoa part small) in
            let q : body' ≡ body = ground arith in
            let at = λ (t : Text) (i : ℤ) (s : Text).
              IsStored call.env t i (message_of codec bodies call t i s) b
                (Handlers.produce_handler codec bodies call r b).1 in
            subst (λ t. at t part body) same_topic
              (subst (λ i. at r.topic i body) p (subst (λ s. at r.topic part' s) q stored))
      ]
