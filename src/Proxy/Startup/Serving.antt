-- ===== src/Proxy/Startup/Serving.antt =====
-- When the proxy of services/msg_queue_proxy/main.go starts, and how it routes then.
use telemetry_punitha.Prelude.{
  ◌⊎◌, ℕ, zero, suc, ◌+◌, ◌<◌, ◌≡◌, refl, ◌∙◌, Bool, true, false, ◌||◌, List, [], ◌∷◌, ◌++◌, none,
  some, Text, codes, text_eq, ◌==◌, length, length-append, if◌then◌else◌, arith, inl, inr,
  Option-cases,
}
use telemetry_punitha.Prelude.Int.{ℤ, pos, negsuc, pos_part, leb_ℤ}
use telemetry_punitha.Prelude.Map.{Map, lookup, insert, lookup-insert}
use telemetry_punitha.Config.{Environment}
use telemetry_punitha.Strconv.{itoa}
use telemetry_punitha.ConsistentHash.{
  Sha512, ConsistentHash, build_ring, contains, new_consistent_hash, get_broker,
  get_broker_by_topic_partition, distribute, get_partition_distribution,
}
use telemetry_punitha.ConsistentHash.Nodes.{build_ring-IsBuilt}
use telemetry_punitha.ConsistentHash.Owner.{look_up_panics}
use telemetry_punitha.ConsistentHash.Rebalance.{same_brokers, same_virtual_nodes}
use telemetry_punitha.Proxy.{
  ProxyConfig, SmartProxy, new_smart_proxy, endpoint_of, discover, up_to_dot, discover_brokers,
  init_consistent_hash, init_broker_metrics, is_healthy, get_broker_for_topic_partition,
}
use telemetry_punitha.Proxy.Routing.{IsStarted, init_IsStarted, owner_total}
use telemetry_punitha.Proxy.Startup.{health_check_loop, start}

contains-append :
    (e : Text) (xs : List Text) (x : Text) → contains e (xs ++ x ∷ []) ≡ (contains e xs || x == e)
unfolding contains
contains-append e [] x = ground arith
contains-append e (y ∷ ys) x = ground (arith, contains-append e ys x)

-- The map says `true` for the endpoints and has nothing else.
abbrev IsAllUp : List Text → Map Text Bool → Type 0
IsAllUp es m = (e : Text) → lookup e m ≡ (if contains e es then some true else none)

discover_lem :
    (service namespace : Text) (n i : ℕ) (es : List Text) (m : Map Text Bool)
    → IsAllUp es m
    → (length (discover service namespace n i (es, m)).0 ≡ length es + n)
      × IsAllUp
          (discover service namespace n i (es, m)).0
          (discover service namespace n i (es, m)).1
unfolding discover
discover_lem service namespace zero i es m up = (omega arith, up)
discover_lem service namespace (suc n) i es m up =
    let x = endpoint_of service namespace i in
    let (count, rest) =
      discover_lem service namespace n (i + 1) (es ++ x ∷ []) (insert x true m)
        (λ e. ground (arith, lookup-insert x e true m, up e, contains-append e es x)) in
    (omega (arith, length-append es (x ∷ [])), rest)

-- Without virtual nodes the distribution, which Start logs, panics at its first partition.
distribution_panics :
    (sha : Sha512) (es : List Text) (virtual_nodes : ℤ) (j : ℕ)
    → 0 < length es
    → pos_part virtual_nodes ≡ 0
    → get_partition_distribution sha (pos (suc j)) (new_consistent_hash sha es virtual_nodes) ≡ none
unfolding get_partition_distribution distribute get_broker new_consistent_hash
distribution_panics sha es virtual_nodes j some_broker no_node =
    let ch : ConsistentHash = record {
      ring = [];
      sorted_hashes = [];
      brokers = es;
      virtual_nodes = virtual_nodes;
    } in
    let panics =
      look_up_panics sha (build_ring sha ch) (codes "partition-" ++ itoa (pos 0))
        (build_ring-IsBuilt sha ch) (rw (same_brokers sha ch) some_broker)
        (rw (same_virtual_nodes sha ch) no_node) in
    ground arith

module _ (sha : Sha512) (env : Environment) (config : ProxyConfig) where
  discover_brokers_lem :
      (n : ℕ)
      → config.broker_count ≡ pos n
      → (es : List Text) × (m : Map Text Bool) × IsAllUp es m
        × (length es ≡ n)
        × (discover_brokers (env (codes "NAMESPACE")) (new_smart_proxy config)
            ≡ some (record (new_smart_proxy config) { broker_endpoints = es; healthy_brokers = m }))
  unfolding discover_brokers new_smart_proxy
  discover_brokers_lem n count =
      let service = up_to_dot config.broker_service in
      let namespace = env (codes "NAMESPACE") in
      let space : Text = elim namespace [ [] ↦ codes "telemetry" | c ∷ s ↦ c ∷ s ] in
      let found = discover service space n 0 ([], []) in
      let (size, up) = discover_lem service space n 0 [] [] (λ e. unfold lookup contains in refl) in
      (found.0, found.1, up, omega (arith, size), ground arith)

  -- With a positive number of brokers and of virtual nodes and a positive health interval, Start
  -- does not panic. The proxy has then as many endpoints as brokers, exactly these are healthy,
  -- and every topic and partition goes to its owner on the ring.
  pub start_serves :
      (n k : ℕ)
      → config.broker_count ≡ pos (suc n)
      → config.virtual_nodes ≡ pos (suc k)
      → leb_ℤ config.health_interval (pos 0) ≡ false
      → (sp : SmartProxy) × (start sha env (new_smart_proxy config) ≡ some sp)
        × IsStarted sha sp
        × (length sp.broker_endpoints ≡ suc n)
        × ((e : Text) → is_healthy e sp ≡ contains e sp.broker_endpoints)
        × ((topic : Text) (partition : ℤ)
            → get_broker_for_topic_partition sha topic partition sp
              ≡ get_broker_by_topic_partition sha topic partition sp.consistent_hash)
  start_serves n k count nodes ticks =
      let (es, m, up, size, found) = discover_brokers_lem (suc n) count in
      let sp : SmartProxy = record (new_smart_proxy config) {
        broker_endpoints = es;
        healthy_brokers = m;
      } in
      let same : sp.config ≡ config = unfold new_smart_proxy in refl in
      let (ready, started) =
        init_IsStarted sha sp (rw size (omega arith)) (rw (same, nodes) (omega arith)) in
      let ring = new_consistent_hash sha sp.broker_endpoints sp.config.virtual_nodes in
      let inited : SmartProxy = record sp { consistent_hash = ring } in
      let last : SmartProxy = init_broker_metrics inited in
      let loops : health_check_loop [] last ≡ some last =
        unfold health_check_loop init_broker_metrics new_smart_proxy in ground arith in
      let serving : IsStarted sha last =
        unfold init_broker_metrics in
        record {
          built = started.built;
          same_brokers = started.same_brokers;
          some_broker = started.some_broker;
          some_node = started.some_node;
        } in
      let healthy = λ (e : Text).
        let h : is_healthy e last ≡ contains e last.broker_endpoints =
          unfold init_broker_metrics is_healthy in ground (arith, up e) in
        h in
      (
        last,
        unfold start in ground (arith, found, ready, loops),
        serving,
        unfold init_broker_metrics in size,
        healthy,
        λ topic partition.
            let (owner, at, member) = owner_total sha last serving topic partition in
            unfold get_broker_for_topic_partition in ground (arith, at, member, healthy owner),
      )

  discover_same_config :
      (sp found : SmartProxy)
      → discover_brokers (env (codes "NAMESPACE")) sp ≡ some found
      → found.config ≡ sp.config
  unfolding discover_brokers
  discover_same_config sp found e = ground arith

  init_same_config :
      (sp ready : SmartProxy) → init_consistent_hash sha sp ≡ some ready → ready.config ≡ sp.config
  unfolding init_consistent_hash
  init_same_config sp ready e = ground arith

  no_ticker :
      leb_ℤ config.health_interval (pos 0) ≡ true → start sha env (new_smart_proxy config) ≡ none
  unfolding start
  no_ticker stops =
      elim (Option-cases (discover_brokers (env (codes "NAMESPACE")) (new_smart_proxy config))) [
        | inl negative ↦ ground arith
        | inr (found, e) ↦ elim (Option-cases (init_consistent_hash sha found)) [
          | inl panics ↦ ground arith
          | inr (ready, e') ↦
              let same : ready.config ≡ config =
                init_same_config found ready e'
                ∙ discover_same_config _ found e
                ∙ (unfold new_smart_proxy in refl) in
              let kept : (init_broker_metrics ready).config ≡ ready.config =
                unfold init_broker_metrics in refl in
              let loop : health_check_loop [] (init_broker_metrics ready) ≡ none =
                unfold health_check_loop in (rw (kept, same, stops) refl) in
              ground arith
        ]
      ]

  no_capacity :
      (n : ℕ) → config.broker_count ≡ negsuc n → start sha env (new_smart_proxy config) ≡ none
  unfolding start
  no_capacity n count =
      let panics : discover_brokers (env (codes "NAMESPACE")) (new_smart_proxy config) ≡ none =
        unfold discover_brokers new_smart_proxy in ground arith in
      ground arith

  no_nodes :
      (n j : ℕ)
      → config.broker_count ≡ pos (suc n)
      → pos_part config.virtual_nodes ≡ 0
      → config.max_partitions ≡ pos (suc j)
      → start sha env (new_smart_proxy config) ≡ none
  unfolding start
  no_nodes n j count nodes partitions =
      let (es, m, up, size, found) = discover_brokers_lem (suc n) count in
      let sp : SmartProxy = record (new_smart_proxy config) {
        broker_endpoints = es;
        healthy_brokers = m;
      } in
      let same : sp.config ≡ config = unfold new_smart_proxy in refl in
      let panics : init_consistent_hash sha sp ≡ none =
        unfold init_consistent_hash in
        ground (
          arith,
          distribution_panics sha es sp.config.virtual_nodes j (rw size (omega arith))
              (rw (same, nodes) refl),
        ) in
      ground (arith, found, panics)

  -- Start panics if BROKER_COUNT is negative, if the health interval is not positive, or if
  -- there are brokers and partitions and no virtual node for each broker.
  pub start_panics :
      ((n : ℕ) × (config.broker_count ≡ negsuc n))
        ⊎ (leb_ℤ config.health_interval (pos 0) ≡ true)
        ⊎ ((n : ℕ) × (j : ℕ) × (config.broker_count ≡ pos (suc n))
            × (pos_part config.virtual_nodes ≡ 0)
            × (config.max_partitions ≡ pos (suc j)))
      → start sha env (new_smart_proxy config) ≡ none
  start_panics (inl (n, count)) = no_capacity n count
  start_panics (inr (inl stops)) = no_ticker stops
  start_panics (inr (inr (n, j, count, nodes, partitions))) = no_nodes n j count nodes partitions
