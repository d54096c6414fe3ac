-- ===== src/Services/Agreement.antt =====
-- How the streamer's queue and the collector's fit together.
use telemetry_punitha.Prelude.{
  ℕ, zero, suc, ◌+◌, ◌<◌, ◌≡◌, refl, ap, ◌∙◌, ◌↔◌, ◌⊎◌, inl, inr, true, List, [], some, Text, codes,
  text_eq, text_eqb_iff, ◌==◌, get_elem?, if◌then◌else◌, arith, Bool-cases,
}
use telemetry_punitha.Prelude.Int.{ℤ, pos}
use telemetry_punitha.Config.{Environment, get_env, load}
use telemetry_punitha.HttpQueue.{
  HttpMessageQueue, new_http_message_queue, calculate_publish_partition,
}
use telemetry_punitha.HttpQueue.RoundRobin.{calculate_publish_partition_range}
use telemetry_punitha.HttpQueue.Subscribing.{consumers, consumers_from}
use telemetry_punitha.Services.{http, http_queue, collector_queue, streamer_queue}

consumers_from_lem : (n i r : ℕ) → r < n → get_elem? (consumers_from n i) r ≡ some (pos (i + r))
unfolding consumers_from
consumers_from_lem zero i r h = absurd (omega arith)
consumers_from_lem (suc n) i zero h = ground arith
consumers_from_lem (suc n) i (suc r) h =
    consumers_from_lem n (i + 1) r (omega arith) ∙ ap (λ k. some (pos k)) (omega arith)

-- A setting gives its default exactly if it is not set or set to the default.
default_iff : (x d : Text) → ((if x == [] then d else x) ≡ d) ↔ ((x ≡ []) ⊎ (x ≡ d))
default_iff x d = elim (Bool-cases (x == [])) [
  | inl unset ↦
      let e : x ≡ [] = (text_eqb_iff x []).0 unset in (λ same. inl e, λ either. rw unset refl)
  | inr given ↦ (
    λ same. inr (ground (arith, same, given)),
    λ either. elim either [
      | inl e ↦ ground (arith, text_eqb_iff x [])
      | inr e ↦ ground (arith, given)
    ],
  )
]

topic_iff :
    (env : Environment) (name : Text)
    → ((http_queue env name).topic ≡ codes "telemetry")
      ↔ ((env (codes "MSG_QUEUE_TOPIC") ≡ []) ⊎ (env (codes "MSG_QUEUE_TOPIC") ≡ codes "telemetry"))
unfolding http_queue load get_env new_http_message_queue
topic_iff env name = default_iff (env (codes "MSG_QUEUE_TOPIC")) (codes "telemetry")

-- If the HTTP queue is chosen, the streamer and the collector of one environment have clients
-- that differ in their name only, whatever the environment says: every partition that a publish
-- of the streamer chooses is one from which the collector consumes. The client's topic is the
-- one that StreamCSV publishes to exactly if MSG_QUEUE_TOPIC is empty or "telemetry".
pub published_consumed :
    (env : Environment) (counter : ℕ)
    → (load env).use_http_queue ≡ true
    → (h : HttpMessageQueue) × (r : ℕ) × (partitions : List ℤ) × (streamer_queue env ≡ http h)
      × (collector_queue env ≡ http (record h { name = (load env).msg_queue_consumer_name }))
      × ((calculate_publish_partition (record h { publish_counter = counter })).0 ≡ some (pos r))
      × (consumers (record h { name = (load env).msg_queue_consumer_name }) ≡ some partitions)
      × (get_elem? partitions r ≡ some (pos r))
      × ((h.topic ≡ codes "telemetry") ↔ (
          (env (codes "MSG_QUEUE_TOPIC") ≡ [])
          ⊎ (env (codes "MSG_QUEUE_TOPIC") ≡ codes "telemetry")))
unfolding streamer_queue collector_queue
published_consumed env counter chosen =
    let cfg = load env in
    let (k, r, max, below, at) =
      calculate_publish_partition_range (env (codes "MAX_PARTITIONS")) cfg.msg_queue_addr
        cfg.msg_queue_topic cfg.msg_queue_group cfg.msg_queue_producer_name counter in
    (
      http_queue env cfg.msg_queue_producer_name,
      r,
      consumers_from (suc k) 0,
      rw chosen refl,
      unfold http_queue in unfold new_http_message_queue in rw chosen refl,
      unfold http_queue in at,
      unfold consumers in unfold http_queue in unfold new_http_message_queue in rw max refl,
      consumers_from_lem (suc k) 0 r below ∙ ap (λ k. some (pos k)) (omega arith),
      topic_iff env cfg.msg_queue_producer_name,
    )
