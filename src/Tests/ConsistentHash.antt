-- ===== src/Tests/ConsistentHash.antt =====
-- The ring, internal/consistent_hash/consistent_hash.go, at concrete inputs.
use telemetry_punitha.Prelude.{
  ℕ, ◌<◌, ◌≡◌, refl, ◌⊎◌, List, [], ◌∷◌, none, some, Text, codes, text_eq, text_eqb, arith, length,
}
use telemetry_punitha.Prelude.Int.{pos, pos_part}
use telemetry_punitha.Prelude.Map.{Map, lookup, insert}
use telemetry_punitha.Strconv.{itoa_ℕ}
use telemetry_punitha.ConsistentHash.{
  ConsistentHash, hash, virtual_node, contains, add_nodes, add_brokers, build_ring,
  new_consistent_hash, sort, search_first, at_least, owner_of, look_up, add_broker, remove_broker,
  get_partition_distribution,
}
use telemetry_punitha.ConsistentHash.Nodes.{nodes, IsBuilt, build_ring-IsBuilt}
use telemetry_punitha.ConsistentHash.Rebalance.{look_up-add_broker, look_up-remove_broker}
use telemetry_punitha.ConsistentHash.Reference.{closest, look_up-closest}
use telemetry_punitha.ConsistentHash.Distribution.{get_partition_distribution_total}
use telemetry_punitha.Tests.Samples.{sample_sha}

abbrev unbuilt : ConsistentHash
unbuilt = record {
  ring = [];
  sorted_hashes = [];
  brokers = codes "a" ∷ codes "bb" ∷ [];
  virtual_nodes = pos 1;
}

abbrev two_brokers : ConsistentHash
two_brokers = build_ring sample_sha unbuilt

two_brokers-IsBuilt : IsBuilt sample_sha two_brokers
two_brokers-IsBuilt = build_ring-IsBuilt sample_sha unbuilt

two : 0 < length two_brokers.brokers
unfolding build_ring
two = omega arith

one_node : 0 < pos_part two_brokers.virtual_nodes
unfolding build_ring
one_node = omega arith

at_a : look_up sample_sha (codes "key") two_brokers ≡ some (codes "a")
unfolding look_up owner_of build_ring add_brokers add_nodes insert lookup sort search_first at_least
    hash virtual_node itoa_ℕ
at_a = refl

added :
    look_up sample_sha (codes "key") (add_broker sample_sha (codes "ccc") two_brokers)
    ≡ some (codes "a")
unfolding look_up owner_of build_ring add_brokers add_nodes insert lookup sort search_first at_least
    hash virtual_node itoa_ℕ add_broker contains text_eqb
added = refl

look_up-remove_broker_example :
    look_up sample_sha (codes "key") (remove_broker sample_sha (codes "bb") two_brokers)
    ≡ some (codes "a")
look_up-remove_broker_example =
    look_up-remove_broker sample_sha two_brokers (codes "key") (codes "bb") (codes "a")
      two_brokers-IsBuilt two one_node at_a (λ e. ground arith)

look_up-add_broker_example : (codes "a" ≡ codes "ccc") ⊎ (codes "a" ≡ codes "a")
look_up-add_broker_example =
    look_up-add_broker sample_sha two_brokers (codes "key") (codes "ccc") (codes "a") (codes "a")
      two_brokers-IsBuilt two one_node at_a added

look_up-closest_example :
    look_up sample_sha
      (codes "key")
      (new_consistent_hash sample_sha (codes "a" ∷ codes "bb" ∷ []) (pos 1))
    ≡ (elim (closest
        (hash sample_sha (codes "key"))
        (nodes sample_sha (codes "a" ∷ codes "bb" ∷ []) 1)) [
          | none ↦ none
          | some (s, broker) ↦ some broker
        ])
look_up-closest_example =
    look_up-closest sample_sha (codes "a" ∷ codes "bb" ∷ []) (pos 1) (codes "key")

abbrev without_nodes : ConsistentHash
without_nodes = record unbuilt { virtual_nodes = pos 0 }

unbuilt_two : 0 < length (build_ring sample_sha without_nodes).brokers
unfolding build_ring
unbuilt_two = omega arith

no_node : pos_part (build_ring sample_sha without_nodes).virtual_nodes ≡ 0
unfolding build_ring
no_node = refl

get_partition_distribution_total_example :
    (d : Map Text (List ℕ)) × (get_partition_distribution sample_sha (pos 3) two_brokers ≡ some d)
get_partition_distribution_total_example =
    get_partition_distribution_total sample_sha two_brokers (pos 3) two_brokers-IsBuilt two one_node

build_ring-IsBuilt_example : IsBuilt sample_sha (build_ring sample_sha without_nodes)
build_ring-IsBuilt_example = build_ring-IsBuilt sample_sha without_nodes
