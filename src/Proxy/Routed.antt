-- ===== src/Proxy/Routed.antt =====
-- What the requests of services/msg_queue_proxy/main.go leave as it is, and when they are answered.
use telemetry_punitha.Prelude.{
  ℕ, ◌≡◌, refl, sym, subst, ◌∙◌, Bool, true, false, not, ◌||◌, [], Option, some, Text, codes,
  text_eq, ◌==◌, arith, if◌then◌else◌, Option-cases, Bool-cases, inl, inr, ◌⊎◌,
}
use telemetry_punitha.Prelude.Int.{ℤ}
use telemetry_punitha.Strconv.{atoi}
use telemetry_punitha.MsgQueue.Http.{Response, http_error}
use telemetry_punitha.ConsistentHash.{Sha512}
use telemetry_punitha.Proxy.{
  SmartProxy, RequestType, produce, consume, ack, record_request, get_broker_for_topic_partition,
}
use telemetry_punitha.Proxy.Requests.{
  Forwarded, unreadable, bad_url, unreachable, answered, Network, Request, forward_request, route,
  produce_handler, consume_handler, ack_handler, is_get, is_post, target_url, group_url,
}

-- What no step changes.
pub record IsSameProxy (sp next : SmartProxy) : Type 0 where
  pub same_ring : next.consistent_hash ≡ sp.consistent_hash
  pub same_endpoints : next.broker_endpoints ≡ sp.broker_endpoints
  pub same_config : next.config ≡ sp.config

pub IsSameProxy-trans : {a b c : SmartProxy} → IsSameProxy a b → IsSameProxy b c → IsSameProxy a c
IsSameProxy-trans p q = record {
  same_ring = q.same_ring ∙ p.same_ring;
  same_endpoints = q.same_endpoints ∙ p.same_endpoints;
  same_config = q.same_config ∙ p.same_config;
}

abbrev pub Keeps : SmartProxy → SmartProxy → Type 0
Keeps sp next = IsSameProxy sp next × (next.healthy_brokers ≡ sp.healthy_brokers)

record_request-Keeps :
    (kind : RequestType) (url : Text) (latency : ℕ) (success : Bool) (sp : SmartProxy)
    → Keeps sp (record_request kind url latency success sp)
unfolding record_request
record_request-Keeps kind url latency success sp =
    (record { same_ring = refl; same_endpoints = refl; same_config = refl }, refl)

pub forward_request-Keeps :
    (f : Forwarded) (latency : ℕ) (url : Text) (kind : RequestType) (sp : SmartProxy)
    → Keeps sp (forward_request f latency url kind sp).1
unfolding forward_request
forward_request-Keeps unreadable latency url kind sp =
    record_request-Keeps kind url latency false sp
forward_request-Keeps bad_url latency url kind sp = record_request-Keeps kind url latency false sp
forward_request-Keeps unreachable latency url kind sp =
    record_request-Keeps kind url latency false sp
forward_request-Keeps (answered resp) latency url kind sp =
    record_request-Keeps kind url latency _ sp

-- A refused request changes nothing.
pub Keeps-refl : (sp : SmartProxy) → Keeps sp sp
Keeps-refl sp = (record { same_ring = refl; same_endpoints = refl; same_config = refl }, refl)

module _ (sha : Sha512) (net : Network) (kind : RequestType) (url : Text → ℤ → Text) where
  -- A routed request that does not panic.
  route-Keeps :
      (topic part : Text) (sp next : SmartProxy) (resp : Response)
      → route sha net kind url topic part sp ≡ some (resp, next)
      → Keeps sp next
  unfolding route
  route-Keeps topic part sp next resp e = elim (Option-cases (atoi part)) [
    | inl bad ↦ subst (Keeps sp) (ground arith) (Keeps-refl sp)
    | inr (i, parsed) ↦ elim (Option-cases (get_broker_for_topic_partition sha topic i sp)) [
      | inl panics ↦ absurd (ground arith)
      | inr (broker, at) ↦ elim (Bool-cases (broker == [])) [
        | inl nowhere ↦ subst (Keeps sp) (ground arith) (Keeps-refl sp)
        | inr somewhere ↦
            subst (Keeps sp) (ground arith)
              (forward_request-Keeps (net.send (url broker i)) net.latency (url broker i) kind sp)
      ]
    ]
  ]

-- A handler refuses with an answer that changes nothing, or it routes.
pub IsRouted : Sha512 → Network → Request → SmartProxy → Option (Response × SmartProxy) → Type 0
IsRouted sha net r sp handled =
    ((x : Response) × (handled ≡ some (x, sp)))
    ⊎ ((kind : RequestType) × (url : Text → ℤ → Text) × (handled
          ≡ route sha net kind url r.topic r.partition sp))

guarded :
    (b c : Bool) (x y : Response) (o : Option (Response × SmartProxy)) (sp : SmartProxy)
    → ((z : Response) × ((if not b then some (x, sp) else if c then some (y, sp) else o)
          ≡ some (z, sp)))
      ⊎ ((if not b then some (x, sp) else if c then some (y, sp) else o) ≡ o)
guarded false c x y o sp = inl (x, refl)
guarded true true x y o sp = inl (y, refl)
guarded true false x y o sp = inr refl

abbrev no_method : Response
no_method = http_error 405 (codes "Method not allowed")

abbrev no_group : Response
no_group = http_error 400 (codes "topic, partition and group required")

module _ (sha : Sha512) (net : Network) (r : Request) (sp : SmartProxy) where
  pub produce_handler-IsRouted : IsRouted sha net r sp (produce_handler sha net r sp)
  unfolding produce_handler IsRouted
  produce_handler-IsRouted =
      let url = λ (broker : Text) (i : ℤ). target_url broker (codes "/produce") r.topic i in
      elim (guarded (is_post r.method) (r.topic == [] || r.partition == []) no_method
        (http_error 400 (codes "topic and partition required"))
        (route sha net produce url r.topic r.partition sp) sp) [
          | inl refused ↦ inl refused
          | inr routed ↦ inr (produce, url, routed)
        ]

  pub consume_handler-IsRouted : IsRouted sha net r sp (consume_handler sha net r sp)
  unfolding consume_handler IsRouted
  consume_handler-IsRouted =
      let url = λ (broker : Text) (i : ℤ). group_url broker (codes "/consume") r.topic i r.group in
      elim (guarded (is_get r.method) (r.topic == [] || r.partition == [] || r.group == [])
        no_method no_group (route sha net consume url r.topic r.partition sp) sp) [
          | inl refused ↦ inl refused
          | inr routed ↦ inr (consume, url, routed)
        ]

  pub ack_handler-IsRouted : IsRouted sha net r sp (ack_handler sha net r sp)
  unfolding ack_handler IsRouted
  ack_handler-IsRouted =
      let url = λ (broker : Text) (i : ℤ). group_url broker (codes "/ack") r.topic i r.group in
      elim (guarded (is_post r.method) (r.topic == [] || r.partition == [] || r.group == [])
        no_method no_group (route sha net ack url r.topic r.partition sp) sp) [
          | inl refused ↦ inl refused
          | inr routed ↦ inr (ack, url, routed)
        ]

  pub IsRouted-Keeps :
      (handled : Option (Response × SmartProxy)) (next : SmartProxy) (resp : Response)
      → IsRouted sha net r sp handled
      → handled ≡ some (resp, next)
      → Keeps sp next
  unfolding IsRouted
  IsRouted-Keeps handled next resp (inl (x, refused)) e =
      subst (Keeps sp) (ground (arith, e, refused)) (Keeps-refl sp)
  IsRouted-Keeps handled next resp (inr (kind, url, routed)) e =
      route-Keeps sha net kind url r.topic r.partition sp next resp (sym routed ∙ e)
