-- ===== src/Proxy/Routing.antt =====
-- Where SmartProxy sends a topic and partition, services/msg_queue_proxy/main.go.
use telemetry_punitha.Prelude.{
  ◌<◌, ◌≡◌, refl, sym, ◌∙◌, ap, true, false, List, [], ◌∷◌, ◌++◌, some, Text, codes, text_eq, arith,
  length, Bool-cases, inl, inr, ◌⊎◌, text_eqb_iff,
}
use telemetry_punitha.Prelude.Int.{ℤ, pos_part}
use telemetry_punitha.Strconv.{itoa}
use telemetry_punitha.ConsistentHash.{
  Sha512, ConsistentHash, contains, get_broker_by_topic_partition, new_consistent_hash, build_ring,
}
use telemetry_punitha.ConsistentHash.Nodes.{IsBuilt, build_ring-IsBuilt}
use telemetry_punitha.ConsistentHash.Owner.{look_up_total}
use telemetry_punitha.ConsistentHash.Rebalance.{same_brokers, same_virtual_nodes}
use telemetry_punitha.ConsistentHash.Distribution.{get_partition_distribution_total}
use telemetry_punitha.Proxy.{
  SmartProxy, is_healthy, first_healthy, get_broker_for_topic_partition, init_consistent_hash,
}

-- After Start: the ring is built for the endpoints, of which there is one at least, each with a
-- virtual node.
pub record IsStarted (sha : Sha512) (sp : SmartProxy) : Type 0 where
  pub built : IsBuilt sha sp.consistent_hash
  pub same_brokers : sp.consistent_hash.brokers ≡ sp.broker_endpoints
  pub some_broker : 0 < length sp.broker_endpoints
  pub some_node : 0 < pos_part sp.consistent_hash.virtual_nodes

first_healthy-is_healthy :
    (es : List Text) (broker e : Text) (sp : SmartProxy)
    → contains e es ≡ true
    → is_healthy e sp ≡ true
    → is_healthy (first_healthy es broker sp) sp ≡ true
unfolding contains first_healthy
first_healthy-is_healthy [] broker e sp m h = absurd (ground arith)
first_healthy-is_healthy (x ∷ xs) broker e sp m h =
    ground (arith, first_healthy-is_healthy xs broker e sp, text_eqb_iff x e)

first_healthy_member :
    (es : List Text) (broker : Text) (sp : SmartProxy)
    → (first_healthy es broker sp ≡ broker) ⊎ (contains (first_healthy es broker sp) es ≡ true)
unfolding contains first_healthy
first_healthy_member [] broker sp = inl refl
first_healthy_member (x ∷ xs) broker sp =
    ground (arith, first_healthy_member xs broker sp, text_eqb_iff x x)

first_healthy_none :
    (es : List Text) (broker : Text) (sp : SmartProxy)
    → ((e : Text) → contains e es ≡ true → is_healthy e sp ≡ false)
    → first_healthy es broker sp ≡ broker
unfolding contains first_healthy
first_healthy_none [] broker sp h = refl
first_healthy_none (x ∷ xs) broker sp h =
    let here : is_healthy x sp ≡ false = h x (ground (arith, text_eqb_iff x x)) in
    ground (arith, first_healthy_none xs broker sp (λ e m. h e (ground arith)))

module _ (sha : Sha512) (sp : SmartProxy) where
  -- If there is an endpoint and a virtual node for each, initConsistentHash ends without a
  -- panic, and the proxy is then started.
  pub init_IsStarted :
      0 < length sp.broker_endpoints
      → 0 < pos_part sp.config.virtual_nodes
      → (init_consistent_hash sha sp
          ≡ some (record sp {
            consistent_hash = new_consistent_hash sha sp.broker_endpoints sp.config.virtual_nodes;
          }))
        × IsStarted sha (record sp {
          consistent_hash = new_consistent_hash sha sp.broker_endpoints sp.config.virtual_nodes;
        })
  unfolding new_consistent_hash
  init_IsStarted some_endpoint some_node =
      let ch : ConsistentHash = record {
        ring = [];
        sorted_hashes = [];
        brokers = sp.broker_endpoints;
        virtual_nodes = sp.config.virtual_nodes;
      } in
      let built = build_ring-IsBuilt sha ch in
      let (d, e) =
        get_partition_distribution_total sha (build_ring sha ch) sp.config.max_partitions built
          (rw (same_brokers sha ch) some_endpoint) (rw (same_virtual_nodes sha ch) some_node) in
      (
        unfold init_consistent_hash in ground arith,
        record {
          built = built;
          same_brokers = same_brokers sha ch;
          some_broker = some_endpoint;
          some_node = rw (same_virtual_nodes sha ch) some_node;
        },
      )

module _ (sha : Sha512) (sp : SmartProxy) (started : IsStarted sha sp) where
  pub owner_total :
      (topic : Text) (partition : ℤ)
      → (broker : Text) × (get_broker_by_topic_partition sha topic partition sp.consistent_hash
          ≡ some broker)
        × (contains broker sp.broker_endpoints ≡ true)
  unfolding get_broker_by_topic_partition
  owner_total topic partition =
      let (broker, found, member) =
        look_up_total sha sp.consistent_hash (topic ++ (codes "-partition-" ++ itoa partition))
          started.built (rw started.same_brokers started.some_broker) started.some_node in
      (broker, found, ap (contains broker) (sym started.same_brokers) ∙ member)

  -- A started proxy has an endpoint for every topic and partition: the owner on the ring if that
  -- is healthy, and otherwise a healthy endpoint, as long as there is one.
  pub route_healthy :
      (topic : Text) (partition : ℤ) (e : Text)
      → contains e sp.broker_endpoints ≡ true
      → is_healthy e sp ≡ true
      → (owner : Text) × (broker : Text) × (get_broker_by_topic_partition sha topic partition
            sp.consistent_hash
          ≡ some owner)
        × (get_broker_for_topic_partition sha topic partition sp ≡ some broker)
        × (contains broker sp.broker_endpoints ≡ true)
        × (is_healthy broker sp ≡ true)
        × ((broker ≡ owner) ⊎ (is_healthy owner sp ≡ false))
  route_healthy topic partition e m h =
      let (owner, found, member) = owner_total topic partition in
      elim (Bool-cases (is_healthy owner sp)) [
        | inl up ↦ (
          owner,
          owner,
          found,
          unfold get_broker_for_topic_partition in ground arith,
          member,
          up,
          inl refl,
        )
        | inr down ↦
            let healthy = first_healthy-is_healthy sp.broker_endpoints owner e sp m h in
            (
              owner,
              first_healthy sp.broker_endpoints owner sp,
              found,
              unfold get_broker_for_topic_partition in ground arith,
              elim (first_healthy_member sp.broker_endpoints owner sp) [
                | inl same ↦ rw same member
                | inr among ↦ among
              ],
              healthy,
              inr down,
            )
      ]

  -- Whatever is healthy, a started proxy picks an endpoint.
  pub route_member :
      (topic : Text) (partition : ℤ)
      → (broker : Text) × (get_broker_for_topic_partition sha topic partition sp ≡ some broker)
        × (contains broker sp.broker_endpoints ≡ true)
  route_member topic partition =
      let (owner, found, member) = owner_total topic partition in
      elim (Bool-cases (is_healthy owner sp)) [
        | inl up ↦ (owner, unfold get_broker_for_topic_partition in ground arith, member)
        | inr down ↦ (
          first_healthy sp.broker_endpoints owner sp,
          unfold get_broker_for_topic_partition in ground arith,
          elim (first_healthy_member sp.broker_endpoints owner sp) [
            | inl same ↦ rw same member
            | inr among ↦ among
          ],
        )
      ]

  -- If no endpoint is healthy, a started proxy does not refuse: it still picks the owner on the
  -- ring, as if that were healthy.
  pub route_all_down :
      (topic : Text) (partition : ℤ)
      → ((e : Text) → contains e sp.broker_endpoints ≡ true → is_healthy e sp ≡ false)
      → (owner : Text) × (get_broker_by_topic_partition sha topic partition sp.consistent_hash
          ≡ some owner)
        × (get_broker_for_topic_partition sha topic partition sp ≡ some owner)
        × (is_healthy owner sp ≡ false)
  route_all_down topic partition down =
      let (owner, found, member) = owner_total topic partition in
      (
        owner,
        found,
        unfold get_broker_for_topic_partition in
            ground (arith, first_healthy_none sp.broker_endpoints owner sp down),
        down owner member,
      )
