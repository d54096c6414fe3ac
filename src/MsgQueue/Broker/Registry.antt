-- ===== src/MsgQueue/Broker/Registry.antt =====
-- The registry of partitions that Broker.getPartition keeps, services/msg_queue/main.go.
use telemetry_punitha.Prelude.{
  ℕ, ◌≡◌, refl, ap, Bool, true, false, ◌&&◌, List, [], ◌∷◌, Option, none, some, Text, text_eq,
  text_eqb_iff, ◌==◌, if◌then◌else◌, Result, ok, err, arith, Option-cases, Bool-cases, inl, inr,
  Result-cases,
}
use telemetry_punitha.Prelude.Int.{ℤ, int_eq, eqb_ℤ_iff, leb_ℤ, ltb_ℤ}
use telemetry_punitha.Prelude.Map.{Map, lookup, insert, lookup-insert, lookup-nil}
use telemetry_punitha.MsgQueue.Partition.{Partition, new_partition}
use telemetry_punitha.MsgQueue.Broker.{
  Broker, Env, PartitionError, unknown_topic, exceeds, create_failed, not_there, get_partition,
  create_partition_if_not_exists, create, new_broker, init_partitions,
}

-- The partition of a topic, if it is there.
abbrev pub find_in : Option (Map ℤ Partition) → ℤ → Option Partition
find_in none i = none
find_in (some pm) i = lookup i pm

unfoldable pub find : Text → ℤ → Broker → Option Partition
find topic i b = find_in (lookup topic b.partitions) i

-- Each partition belongs to a configured topic, its number is below the topic's count, and it knows
-- its own topic and number.
pub record IsFiled (b : Broker) (topic : Text) (i : ℤ) (p : Partition) : Type 0 where
  pub same_topic : p.topic ≡ topic
  pub same_index : p.index ≡ i
  pub below : elim (lookup topic b.topics) [ none ↦ false | some max ↦ ltb_ℤ i max ] ≡ true

pub record IsRegistry (b : Broker) : Type 0 where
  pub filed : (topic : Text) (i : ℤ) (p : Partition) → find topic i b ≡ some p → IsFiled b topic i p

init_partitions-find :
    (topics : Map Text ℤ) (topic : Text) (i : ℤ)
    → find_in (lookup topic (init_partitions topics)) i ≡ none
unfolding init_partitions
init_partitions-find [] topic i = ground (arith, lookup-nil {K = Text} {V = Map ℤ Partition} topic)
init_partitions-find ((t, n) ∷ topics) topic i = ground (
  arith,
  lookup-insert t topic [] (init_partitions topics),
  init_partitions-find topics topic i,
  lookup-nil {K = ℤ} {V = Partition} i,
)

-- A new broker has an empty registry.
pub new_broker-IsRegistry :
    (topics : Map Text ℤ) (vis_to : ℕ) (broker_index broker_count : ℤ)
    → IsRegistry (new_broker topics vis_to broker_index broker_count)
unfolding new_broker find
new_broker-IsRegistry topics vis_to broker_index broker_count = record {
  filed = λ topic i p e. ground (arith, init_partitions-find topics topic i);
}

-- The three ways in which getPartition can end.
pub data GetCase (env : Env) (topic : Text) (i : ℤ) (producing : Bool) (b : Broker) : Type 0 where
  fails :
      (e : PartitionError)
      → get_partition env topic i producing b ≡ (err e, b)
      → find topic i b ≡ none
      → GetCase env topic i producing b
  there :
      (p : Partition)
      → get_partition env topic i producing b ≡ (ok p, b)
      → find topic i b ≡ some p
      → GetCase env topic i producing b
  creates :
      (p : Partition) (pm : Map ℤ Partition) (max : ℤ)
      → get_partition env topic i producing b
        ≡ (ok p, record b { partitions = insert topic (insert i p pm) b.partitions })
      → lookup topic b.partitions ≡ some pm
      → lookup i pm ≡ none
      → lookup topic b.topics ≡ some max
      → ltb_ℤ i max ≡ true
      → producing ≡ true
      → new_partition env.opened topic i b.vis_to env.queue_size ≡ ok p
      → GetCase env topic i producing b

pub new_partition_fields :
    (opened : Result Text (List Text)) (topic : Text) (i : ℤ) (vis_to queue_size : ℕ)
    (p : Partition)
    → new_partition opened topic i vis_to queue_size ≡ ok p
    → (p.topic ≡ topic)
      × (p.index ≡ i)
      × (p.cap ≡ queue_size)
      × (p.queue ≡ [])
      × (p.pending ≡ [])
      × (p.closed ≡ false)
unfolding new_partition
new_partition_fields opened topic i vis_to queue_size p e = ground arith

module _ (env : Env) (topic : Text) (i : ℤ) (b : Broker) where
  -- A partition that is not there, in a topic with the partitions `pm`.
  produce_cases :
      (pm : Map ℤ Partition)
      → lookup topic b.partitions ≡ some pm
      → lookup i pm ≡ none
      → GetCase env topic i true b
  unfolding get_partition create_partition_if_not_exists create find
  produce_cases pm known absent = elim (Option-cases (lookup topic b.topics)) [
    | inl unconfigured ↦ fails unknown_topic (ground arith) (ground arith)
    | inr (max, configured) ↦ elim (Bool-cases (leb_ℤ max i)) [
      | inl above ↦ fails (exceeds i max topic) (ground arith) (ground arith)
      | inr below ↦ elim (Result-cases (new_partition env.opened topic i b.vis_to env.queue_size)) [
        | inl (e, failed) ↦ fails (create_failed topic i e) (ground arith) (ground arith)
        | inr (p, made) ↦
            creates p pm max (ground arith) known absent configured (ground arith) refl made
      ]
    ]
  ]

  pub get_cases : (producing : Bool) → GetCase env topic i producing b
  unfolding get_partition find
  get_cases true = elim (Option-cases (lookup topic b.partitions)) [
    | inl unknown ↦ fails unknown_topic (ground arith) (ground arith)
    | inr (pm, known) ↦ elim (Option-cases (lookup i pm)) [
      | inl absent ↦ produce_cases pm known absent
      | inr (p, present) ↦ there p (ground arith) (ground arith)
    ]
  ]
  get_cases false = elim (Option-cases (lookup topic b.partitions)) [
    | inl unknown ↦ fails unknown_topic (ground arith) (ground arith)
    | inr (pm, known) ↦ elim (Option-cases (lookup i pm)) [
      | inl absent ↦ fails (not_there i topic) (ground arith) (ground arith)
      | inr (p, present) ↦ there p (ground arith) (ground arith)
    ]
  ]

  -- What is found after an entry is inserted at `topic` and `i`.
  find-insert :
      (t : Text) (j : ℤ) (pm : Map ℤ Partition) (p : Partition)
      → lookup topic b.partitions ≡ some pm
      → find t j (record b { partitions = insert topic (insert i p pm) b.partitions })
        ≡ (if topic == t && i == j then some p else find t j b)
  unfolding find
  find-insert t j pm p known = ground (
    arith,
    lookup-insert topic t (insert i p pm) b.partitions,
    lookup-insert i j p pm,
    text_eqb_iff topic t,
  )

  -- A get makes an entry at most at the place that it is asked for, and what it returns is what
  -- the registry holds there afterwards.
  pub find-get_partition :
      (producing : Bool) (t : Text) (j : ℤ)
      → find t j (get_partition env topic i producing b).1 ≡ (
          if topic == t && i == j
          then elim (get_partition env topic i producing b).0 [ err e ↦ none | ok p ↦ some p ]
          else find t j b)
  find-get_partition producing t j = elim (get_cases producing) [
    | fails e same absent ↦ rw same (ground (arith, text_eqb_iff topic t, eqb_ℤ_iff i j))
    | there p same present ↦ rw same (ground (arith, text_eqb_iff topic t, eqb_ℤ_iff i j))
    | creates p pm max made known absent configured below for_produce opened ↦
        rw made (find-insert t j pm p known)
  ]

  insert-IsRegistry :
      (pm : Map ℤ Partition) (max : ℤ) (p : Partition)
      → lookup topic b.partitions ≡ some pm
      → lookup topic b.topics ≡ some max
      → ltb_ℤ i max ≡ true
      → new_partition env.opened topic i b.vis_to env.queue_size ≡ ok p
      → IsRegistry b
      → (t : Text) (j : ℤ) (q : Partition)
      → find t j (record b { partitions = insert topic (insert i p pm) b.partitions }) ≡ some q
      → IsFiled (record b { partitions = insert topic (insert i p pm) b.partitions }) t j q
  insert-IsRegistry pm max p known configured below opened r t j q e =
      let fields = new_partition_fields env.opened topic i b.vis_to env.queue_size p opened in
      let place = find-insert t j pm p known in
      elim (Bool-cases (topic == t && i == j)) [
        | inl here ↦
            let same : (topic ≡ t) × (i ≡ j) =
              ground (arith, text_eqb_iff topic t, eqb_ℤ_iff i j) in
            let it : p ≡ q = ground arith in
            record {
              same_topic = ground arith;
              same_index = ground arith;
              below = ground (arith, ap (λ k. lookup k b.topics) same.0);
            }
        | inr elsewhere ↦
            let old = r.filed t j q (ground arith) in
            record { same_topic = old.same_topic; same_index = old.same_index; below = old.below }
      ]

  -- getPartition keeps every partition filed under its own topic and number, below the topic's
  -- count.
  pub get_partition-IsRegistry :
      (producing : Bool) → IsRegistry b → IsRegistry (get_partition env topic i producing b).1
  get_partition-IsRegistry producing r = elim (get_cases producing) [
    | fails e same absent ↦ rw same r
    | there p same present ↦ rw same r
    | creates p pm max made known absent configured below for_produce opened ↦
        rw made (record { filed = insert-IsRegistry pm max p known configured below opened r })
  ]
