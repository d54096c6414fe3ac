-- ===== src/MsgQueue/Settings/Topics.antt =====
-- The setting TOPICS of services/msg_queue/main.go, and the partitions that it admits.
use telemetry_punitha.Prelude.{
  ℕ, ◌≡◌, refl, ap, ◌∙◌, Bool, true, false, List, [], ◌∷◌, ◌++◌, none, some, Text, codes, text_eq,
  text_eqb, ◌==◌, mentions, mentions-append, split, split-append, split_plain, if◌then◌else◌, arith,
  Result, ok, err,
}
use telemetry_punitha.Prelude.Int.{ℤ, ltb_ℤ, int_eq}
use telemetry_punitha.Prelude.Map.{Map, insert, lookup, lookup-insert, lookup-nil}
use telemetry_punitha.Strconv.{itoa}
use telemetry_punitha.Strconv.RoundTrip.{IsInt64, itoa_plain, atoi-itoa, atoi_value-atoi}
use telemetry_punitha.Config.{Environment}
use telemetry_punitha.MsgQueue.Partition.{Partition, new_partition}
use telemetry_punitha.MsgQueue.Broker.{
  Env, get_partition, create_partition_if_not_exists, new_broker, init_partitions,
}
use telemetry_punitha.MsgQueue.Settings.{
  set_topic, set_topics, parse_topics, topics_conf, standard_topics, default_visibility_timeout,
  broker_index_of, broker_count_of, broker_of,
}

-- A name that the setting can hold, and a count.
abbrev pub IsTopic : Text × ℤ → Type 0
IsTopic (name, n) = (mentions b':' name ≡ false) × (mentions b',' name ≡ false) × IsInt64 n

pub data AreTopics : Map Text ℤ → Type 0 where
  none_left : AreTopics []
  one_more :
      {name : Text} {n : ℤ} {more : Map Text ℤ}
      → IsTopic (name, n)
      → AreTopics more
      → AreTopics ((name, n) ∷ more)

unfoldable pub print_topic : Text × ℤ → Text
print_topic (name, n) = name ++ b':' ∷ itoa n

-- The parts with commas between them.
unfoldable pub print_topics : Map Text ℤ → Text
print_topics [] = []
print_topics (p ∷ []) = print_topic p
print_topics (p ∷ q ∷ more) = print_topic p ++ b',' ∷ print_topics (q ∷ more)

-- A later entry for the same topic replaces an earlier one.
unfoldable pub assign : Map Text ℤ → Map Text ℤ → Map Text ℤ
assign [] m = m
assign ((name, n) ∷ more) m = assign more (insert name n m)

print_topic_plain : (p : Text × ℤ) → IsTopic p → mentions b',' (print_topic p) ≡ false
unfolding print_topic mentions
print_topic_plain (name, n) (colon, comma, small) =
    mentions-append b',' name (b':' ∷ itoa n) ∙ ground (arith, comma, itoa_plain b',' n refl)

print_topic_given : (p : Text × ℤ) → text_eqb (print_topic p) [] ≡ false
unfolding print_topic text_eqb
print_topic_given ([], n) = refl
print_topic_given (c ∷ name, n) = refl

print_topics_given :
    (p : Text × ℤ) (more : Map Text ℤ) → text_eqb (print_topics (p ∷ more)) [] ≡ false
unfolding print_topics print_topic text_eqb
print_topics_given ([], n) [] = refl
print_topics_given (c ∷ name, n) [] = refl
print_topics_given ([], n) (q ∷ more) = refl
print_topics_given (c ∷ name, n) (q ∷ more) = refl

-- One part sets its topic.
set_topic-split :
    (p : Text × ℤ) (m : Map Text ℤ)
    → IsTopic p
    → set_topic (split b':' (print_topic p)) m ≡ insert p.0 p.1 m
unfolding set_topic print_topic
set_topic-split (name, n) m (colon, comma, small) =
    ap (λ kv. set_topic kv m)
      (split-append b':' name (itoa n) colon
        ∙ ap (λ l. name ∷ l) (split_plain b':' (itoa n) (itoa_plain b':' n refl)))
    ∙ ap (λ k. insert name k m) (atoi_value-atoi (itoa n) n (atoi-itoa n small))

set_topics_one :
    (p : Text × ℤ) (parts : List Text) (m : Map Text ℤ)
    → IsTopic p
    → set_topics (print_topic p ∷ parts) m ≡ set_topics parts (insert p.0 p.1 m)
unfolding set_topics
set_topics_one p parts m h =
    ap (λ t. set_topics parts (if t then m else set_topic (split b':' (print_topic p)) m))
      (print_topic_given p)
    ∙ ap (set_topics parts) (set_topic-split p m h)

set_topics-split :
    (pairs m : Map Text ℤ)
    → AreTopics pairs
    → set_topics (split b',' (print_topics pairs)) m ≡ assign pairs m
unfolding print_topics assign
set_topics-split [] m none_left = unfold split in unfold set_topics in unfold text_eqb in refl
set_topics-split (p ∷ []) m (one_more h none_left) =
    ap (λ parts. set_topics parts m) (split_plain b',' (print_topic p) (print_topic_plain p h))
    ∙ set_topics_one p [] m h
    ∙ unfold set_topics in refl
set_topics-split (p ∷ q ∷ more) m (one_more h hs) =
    ap (λ parts. set_topics parts m)
      (split-append b',' (print_topic p) (print_topics (q ∷ more)) (print_topic_plain p h))
    ∙ set_topics_one p (split b',' (print_topics (q ∷ more))) m h
    ∙ set_topics-split (q ∷ more) (insert p.0 p.1 m) hs

-- x
pub parse_topics-print_topics :
    (pairs : Map Text ℤ) → AreTopics pairs → parse_topics (print_topics pairs) ≡ assign pairs []
unfolding parse_topics
parse_topics-print_topics pairs h = set_topics-split pairs [] h

lookup-init_partitions :
    (topic : Text) (topics : Map Text ℤ)
    → lookup topic (init_partitions topics)
      ≡ elim (lookup topic topics) [ none ↦ none | some n ↦ some [] ]
unfolding init_partitions lookup
lookup-init_partitions topic [] = refl
lookup-init_partitions topic ((t, n) ∷ topics) =
    ground (
      arith,
      lookup-init_partitions topic topics,
      lookup-insert t topic [] (init_partitions topics),
    )

abbrev pub is_ok {ℓ κ} : {E : Type ℓ} {A : Type κ} → Result E A → Bool
is_ok (ok a) = true
is_ok (err e) = false

-- A new broker makes the partitions of a topic whose number is below the topic's count.
get_partition-new_broker :
    (file : Env) (lines : List Text) (topics : Map Text ℤ) (topic : Text) (i : ℤ) (vis_to : ℕ)
    (index count : ℤ)
    → file.opened ≡ ok lines
    → is_ok (get_partition file topic i true (new_broker topics vis_to index count)).0
      ≡ elim (lookup topic topics) [ none ↦ false | some n ↦ ltb_ℤ i n ]
unfolding get_partition create_partition_if_not_exists new_broker new_partition
get_partition-new_broker file lines topics topic i vis_to index count opened =
    ground (arith, lookup-init_partitions topic topics, lookup-nil {K = ℤ} {V = Partition} i)

-- If TOPICS lists some topics with their counts, with names that have no colon and no comma, and
-- the partition's file can be opened, then the broker that main makes admits a produce to a
-- topic and a number exactly if the last entry of the topic has a larger count.
pub produce_admitted :
    (env : Environment) (file : Env) (lines : List Text) (p : Text × ℤ) (more : Map Text ℤ)
    (topic : Text) (i : ℤ)
    → env (codes "TOPICS") ≡ print_topics (p ∷ more)
    → AreTopics (p ∷ more)
    → file.opened ≡ ok lines
    → is_ok (get_partition file topic i true (broker_of env)).0
      ≡ elim (lookup topic (assign (p ∷ more) [])) [ none ↦ false | some n ↦ ltb_ℤ i n ]
unfolding broker_of topics_conf
produce_admitted env file lines p more topic i set h opened =
    let conf : topics_conf env ≡ assign (p ∷ more) [] =
      ap (λ t. if t == [] then standard_topics else parse_topics t) set
      ∙ ap (λ b. if b then standard_topics else parse_topics (print_topics (p ∷ more)))
          (print_topics_given p more)
      ∙ parse_topics-print_topics (p ∷ more) h in
    get_partition-new_broker file lines (topics_conf env) topic i default_visibility_timeout
      (broker_index_of env) (broker_count_of env) opened
    ∙ ap (λ topics. elim (lookup topic topics) [ none ↦ false | some n ↦ ltb_ℤ i n ]) conf
