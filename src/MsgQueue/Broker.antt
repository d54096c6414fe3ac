-- ===== src/MsgQueue/Broker.antt =====
-- The type Broker of services/msg_queue/main.go: the partitions by topic and number. A handler that
-- holds a *Partition changes it in place, which is `set_partition` here.
pub mod Registry
use telemetry_punitha.Prelude.{
  ℕ, ◌+◌, Bool, true, false, not, List, [], ◌∷◌, ◌++◌, Option, none, some, Text, codes, text_eq,
  length, if◌then◌else◌, Result, ok, err,
}
use telemetry_punitha.Prelude.Int.{ℤ, int_eq, leb_ℤ}
use telemetry_punitha.Prelude.Map.{Map, lookup, insert}
use telemetry_punitha.Strconv.{itoa}
use telemetry_punitha.MsgQueue.Partition.{Partition, new_partition, close}

pub record Broker : Type 0 where
  pub topics : Map Text ℤ
  pub partitions : Map Text (Map ℤ Partition)
  pub vis_to : ℕ
  pub broker_index : ℤ
  pub broker_count : ℤ

-- An empty map of partitions for each topic.
unfoldable pub init_partitions : Map Text ℤ → Map Text (Map ℤ Partition)
init_partitions [] = []
init_partitions ((topic, n) ∷ topics) = insert topic [] (init_partitions topics)

unfoldable pub new_broker : Map Text ℤ → ℕ → ℤ → ℤ → Broker
new_broker topics vis_to broker_index broker_count = record {
  topics = topics;
  partitions = init_partitions topics;
  vis_to = vis_to;
  broker_index = broker_index;
  broker_count = broker_count;
}

close_all : Map ℤ Partition → Map ℤ Partition
close_all [] = []
close_all ((i, p) ∷ pm) = (i, close p) ∷ close_all pm

close_topics : Map Text (Map ℤ Partition) → Map Text (Map ℤ Partition)
close_topics [] = []
close_topics ((t, pm) ∷ ps) = (t, close_all pm) ∷ close_topics ps

unfoldable pub close_broker : Broker → Broker
unfolding close_topics close_all
close_broker b = record b { partitions = close_topics b.partitions }

pub data PartitionError : Type 0 where
  unknown_topic : PartitionError
  exceeds : ℤ → ℤ → Text → PartitionError
  create_failed : Text → ℤ → Text → PartitionError
  not_there : ℤ → Text → PartitionError

-- The texts of the errors.
unfoldable pub error_text : PartitionError → Text
error_text unknown_topic = codes "unknown topic"
error_text (exceeds partition max topic) =
    codes "partition "
    ++ (itoa partition
        ++ (codes " exceeds max partitions " ++ (itoa max ++ (codes " for topic " ++ topic))))
error_text (create_failed topic partition cause) =
    codes "create partition "
    ++ (topic ++ (codes "-" ++ (itoa partition ++ (codes " error: " ++ cause))))
error_text (not_there partition topic) =
    codes "partition " ++ (itoa partition ++ (codes " does not exist for topic " ++ topic))

-- What the operating system and the environment give to newPartition: the opened file's lines or
-- the error, and the value of getQueueSize.
pub record Env : Type 0 where
  pub opened : Result Text (List Text)
  pub queue_size : ℕ

unfoldable pub set_partition : Text → ℤ → Partition → Broker → Broker
set_partition topic partition p b = elim (lookup topic b.partitions) [
  | none ↦ b
  | some pm ↦ record b { partitions = insert topic (insert partition p pm) b.partitions }
]

-- The part of createPartitionIfNotExists behind its look-ups.
create : Env → Text → ℤ → ℤ → Map ℤ Partition → Broker → Result PartitionError Partition × Broker
create env topic partition max pm b =
    if leb_ℤ max partition
    then (err (exceeds partition max topic), b)
    else elim (new_partition env.opened topic partition b.vis_to env.queue_size) [
      | err e ↦ (err (create_failed topic partition e), b)
      | ok p ↦ (ok p, record b { partitions = insert topic (insert partition p pm) b.partitions })
    ]

unfoldable pub create_partition_if_not_exists :
    Env → Text → ℤ → Broker → Result PartitionError Partition × Broker
unfolding create
create_partition_if_not_exists env topic partition b = elim (lookup topic b.partitions) [
  | none ↦ (err unknown_topic, b)
  | some pm ↦ elim (lookup partition pm) [
    | some p ↦ (ok p, b)
    | none ↦ elim (lookup topic b.topics) [
      | none ↦ (err unknown_topic, b)
      | some max ↦ create env topic partition max pm b
    ]
  ]
]

unfoldable pub get_partition :
    Env → Text → ℤ → Bool → Broker → Result PartitionError Partition × Broker
get_partition env topic partition is_produce_handling b = elim (lookup topic b.partitions) [
  | none ↦ (err unknown_topic, b)
  | some pm ↦ elim (lookup partition pm) [
    | some p ↦ (ok p, b)
    | none ↦
        if not is_produce_handling
        then (err (not_there partition topic), b)
        else create_partition_if_not_exists env topic partition b
  ]
]

-- The answer of topicsHandler: the numbers of the partitions of each topic that has some.
indices : Map ℤ Partition → List ℤ
indices [] = []
indices ((i, p) ∷ pm) = i ∷ indices pm

topics_of : Map Text (Map ℤ Partition) → Map Text (List ℤ)
topics_of [] = []
topics_of ((t, []) ∷ ps) = topics_of ps
topics_of ((t, e ∷ pm) ∷ ps) = (t, indices (e ∷ pm)) ∷ topics_of ps

unfoldable pub topics_handler : Broker → Map Text (List ℤ)
unfolding topics_of indices
topics_handler b = topics_of b.partitions

total : Map Text (Map ℤ Partition) → ℕ
total [] = 0
total ((t, pm) ∷ ps) = length pm + total ps

-- The answer of healthHandler, less its status text and time.
pub record Health : Type 0 where
  pub index : ℤ
  pub count : ℤ
  pub owned_partitions : ℕ

unfoldable pub health_handler : Broker → Health
unfolding total
health_handler b = record {
  index = b.broker_index;
  count = b.broker_count;
  owned_partitions = total b.partitions;
}
