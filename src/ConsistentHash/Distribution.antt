-- ===== src/ConsistentHash/Distribution.antt =====
-- GetPartitionDistribution of internal/consistent_hash/consistent_hash.go.
use mathlib.Core.List.{append_assoc, append-nil}
use telemetry_punitha.Prelude.{
  ℕ, zero, suc, ◌+◌, ◌<◌, ◌≡◌, refl, ◌∙◌, List, [], ◌∷◌, ◌++◌, none, some, Text, codes, text_eq,
  ◌==◌, arith, length, if◌then◌else◌, Option-cases, inl, inr, text_eqb_iff,
}
use telemetry_punitha.Prelude.Int.{ℤ, pos, pos_part}
use telemetry_punitha.Prelude.Map.{Map, lookup, insert, lookup-insert, lookup-nil}
use telemetry_punitha.Strconv.{itoa}
use telemetry_punitha.ConsistentHash.{
  Sha512, ConsistentHash, get_broker, distribute, get_partition_distribution,
}
use telemetry_punitha.ConsistentHash.Nodes.{IsBuilt}
use telemetry_punitha.ConsistentHash.Owner.{look_up_total}

-- distribution[broker]
unfoldable pub owned : Text → Map Text (List ℕ) → List ℕ
owned broker d = elim (lookup broker d) [ none ↦ [] | some is ↦ is ]

owned-insert :
    (k b : Text) (is : List ℕ) (d : Map Text (List ℕ))
    → owned b (insert k is d) ≡ (if k == b then is else owned b d)
unfolding owned
owned-insert k b is d = ground (arith, lookup-insert k b is d)

module _ (sha : Sha512) (ch : ConsistentHash) where
  -- The numbers from `i` to `i + n`, exclusive, whose broker it is.
  unfoldable pub assigned : Text → ℕ → ℕ → List ℕ
  assigned b zero i = []
  assigned b (suc n) i =
      let rest = assigned b n (i + 1) in
      elim (get_broker sha (pos i) ch) [
        | none ↦ rest
        | some broker ↦ if broker == b then i ∷ rest else rest
      ]

  distribute_lem :
      (b : Text) (n i : ℕ) (acc d : Map Text (List ℕ))
      → distribute sha n i ch acc ≡ some d
      → owned b d ≡ owned b acc ++ assigned b n i
  unfolding distribute assigned
  distribute_lem b zero i acc d e = ground (arith, append-nil (owned b acc))
  distribute_lem b (suc n) i acc d e = elim (Option-cases (get_broker sha (pos i) ch)) [
    | inl panics ↦ absurd (ground arith)
    | inr (broker, found) ↦
        let is : List ℕ = owned broker acc ++ i ∷ [] in
        let rest =
          distribute_lem b n (i + 1) (insert broker is acc) d (unfold owned in ground arith) in
        ground (
          arith,
          rest,
          owned-insert broker b is acc,
          text_eqb_iff broker b,
          append_assoc (owned b acc) (i ∷ []) (assigned b n (i + 1)),
        )
  ]

  -- A distribution that does not panic lists under each broker, in rising order, exactly the
  -- partitions below the maximum that GetBroker gives to it.
  pub get_partition_distribution_lem :
      (max : ℤ) (b : Text) (d : Map Text (List ℕ))
      → get_partition_distribution sha max ch ≡ some d
      → owned b d ≡ assigned b (pos_part max) 0
  unfolding get_partition_distribution
  get_partition_distribution_lem max b d e =
      distribute_lem b (pos_part max) 0 [] d e
      ∙ (unfold owned in ground (arith, lookup-nil {K = Text} {V = List ℕ} b))

  distribute_total :
      (n i : ℕ) (acc : Map Text (List ℕ))
      → IsBuilt sha ch
      → 0 < length ch.brokers
      → 0 < pos_part ch.virtual_nodes
      → (d : Map Text (List ℕ)) × (distribute sha n i ch acc ≡ some d)
  unfolding distribute get_broker owned
  distribute_total zero i acc built p q = (acc, refl)
  distribute_total (suc n) i acc built p q =
      let (broker, found, _) =
        look_up_total sha ch (codes "partition-" ++ itoa (pos i)) built p q in
      let (d, e) =
        distribute_total n (i + 1) (insert broker (owned broker acc ++ i ∷ []) acc) built p q in
      (d, ground arith)

  -- With a broker and a virtual node for each it does not panic.
  pub get_partition_distribution_total :
      (max : ℤ)
      → IsBuilt sha ch
      → 0 < length ch.brokers
      → 0 < pos_part ch.virtual_nodes
      → (d : Map Text (List ℕ)) × (get_partition_distribution sha max ch ≡ some d)
  unfolding get_partition_distribution
  get_partition_distribution_total max built p q = distribute_total (pos_part max) 0 [] built p q
