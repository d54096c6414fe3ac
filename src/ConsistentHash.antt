-- ===== src/ConsistentHash.antt =====
-- internal/consistent_hash/consistent_hash.go: the ring of virtual nodes.
pub mod Sorted
pub mod Search
pub mod Nodes
pub mod Owner
pub mod Rebalance
pub mod Reference
pub mod Distribution
use Prim.Native.Nat.{bit_or}
use telemetry_punitha.Prelude.{
  ℕ, zero, suc, ◌+◌, ◌*◌, ◌/◌, ◌%◌, ◌^◌, ◌<◌, Bool, true, false, not, List, [], ◌∷◌, ◌++◌, Option,
  none, some, Text, codes, text_eq, nat_eq, ◌==◌, eqb, ltb, leb, length, get_elem?, if◌then◌else◌,
}
use telemetry_punitha.Prelude.Int.{ℤ, pos, negsuc, pos_part, leb_ℤ}
use telemetry_punitha.Prelude.Map.{Map, lookup, insert}
use telemetry_punitha.Strconv.{itoa, itoa_ℕ}

-- sha512.Sum512: the bytes of the digest of a text.
pub record Sha512 : Type 0 where
  pub byte : Text → ℕ → ℕ
  pub byte-lt : (key : Text) (i : ℕ) → byte key i < 256

pub record ConsistentHash : Type 0 where
  pub ring : Map ℕ Text
  pub sorted_hashes : List ℕ
  pub brokers : List Text
  pub virtual_nodes : ℤ

-- The result of sort.Slice with `<`: a sorted list of numbers is the same for every sort.
insert_sorted : ℕ → List ℕ → List ℕ
insert_sorted x [] = x ∷ []
insert_sorted x (y ∷ ys) = if leb x y then x ∷ y ∷ ys else y ∷ insert_sorted x ys

unfoldable pub sort : List ℕ → List ℕ
unfolding insert_sorted
sort [] = []
sort (x ∷ xs) = insert_sorted x (sort xs)

-- The loop of sort.Search; the fuel is at least the distance of its ends (Search.antt).
search_loop : ℕ → (ℕ → Bool) → ℕ → ℕ → ℕ
search_loop zero f i j = i
search_loop (suc fuel) f i j = elim (ltb i j) [
  | true ↦
      let h : ℕ = (i + j) / 2 in
      elim (f h) [ true ↦ search_loop fuel f i h | false ↦ search_loop fuel f (h + 1) j ]
  | false ↦ i
]

-- sort.Search(n, f)
unfoldable pub search_first : ℕ → (ℕ → Bool) → ℕ
unfolding search_loop
search_first n f = search_loop n f 0 n

-- xs[i] >= hash, for an index in range.
unfoldable pub at_least : List ℕ → ℕ → ℕ → Bool
at_least xs hash i = elim (get_elem? xs i) [ none ↦ false | some x ↦ leb hash x ]

-- The loop of AddBroker.
unfoldable pub contains : Text → List Text → Bool
contains broker [] = false
contains broker (b ∷ bs) = if b == broker then true else contains broker bs

-- The loop of RemoveBroker: the first entry goes.
remove_first : Text → List Text → List Text
remove_first broker [] = []
remove_first broker (b ∷ bs) = if b == broker then bs else b ∷ remove_first broker bs

module _ (sha : Sha512) where
  -- The first four bytes of the digest as a uint32.
  unfoldable pub hash : Text → ℕ
  hash key =
      bit_or
        (bit_or (bit_or (sha.byte key 0 * 2 ^ 24 % 2 ^ 32) (sha.byte key 1 * 2 ^ 16 % 2 ^ 32))
          (sha.byte key 2 * 2 ^ 8 % 2 ^ 32))
        (sha.byte key 3)

  -- fmt.Sprintf("%s:%d", broker, i)
  unfoldable pub virtual_node : Text → ℕ → Text
  virtual_node broker i = broker ++ (codes ":" ++ itoa_ℕ i)

  -- The inner loop of buildRing, with `n` rounds left from `i`.
  unfoldable pub add_nodes : Text → ℕ → ℕ → Map ℕ Text × List ℕ → Map ℕ Text × List ℕ
  add_nodes broker zero i (ring, hashes) = (ring, hashes)
  add_nodes broker (suc n) i (ring, hashes) = add_nodes broker n (i + 1) (
    insert (hash (virtual_node broker i)) broker ring,
    hashes ++ hash (virtual_node broker i) ∷ [],
  )

  -- The outer loop.
  unfoldable pub add_brokers : List Text → ℕ → Map ℕ Text × List ℕ → Map ℕ Text × List ℕ
  add_brokers [] n acc = acc
  add_brokers (broker ∷ brokers) n acc = add_brokers brokers n (add_nodes broker n 0 acc)

  unfoldable pub build_ring : ConsistentHash → ConsistentHash
  build_ring ch =
      let (ring, hashes) = add_brokers ch.brokers (pos_part ch.virtual_nodes) ([], []) in
      record ch { ring = ring; sorted_hashes = sort hashes }

  unfoldable pub new_consistent_hash : List Text → ℤ → ConsistentHash
  new_consistent_hash brokers virtual_nodes =
      build_ring
        (record { ring = []; sorted_hashes = []; brokers = brokers; virtual_nodes = virtual_nodes })

  -- The lines that the three look-ups share: `none` is the panic of an index out of range.
  unfoldable pub owner_of : ℕ → ConsistentHash → Option Text
  owner_of h ch =
      let n = length ch.sorted_hashes in
      let found = search_first n (at_least ch.sorted_hashes h) in
      let idx = if found == n then 0 else found in
      elim (get_elem? ch.sorted_hashes idx) [
        | none ↦ none
        | some node ↦ elim (lookup node ch.ring) [ none ↦ some [] | some broker ↦ some broker ]
      ]

  unfoldable pub look_up : Text → ConsistentHash → Option Text
  look_up key ch = if length ch.brokers == 0 then some [] else owner_of (hash key) ch

  unfoldable pub get_broker : ℤ → ConsistentHash → Option Text
  get_broker partition ch = look_up (codes "partition-" ++ itoa partition) ch

  unfoldable pub get_broker_by_key : Text → ConsistentHash → Option Text
  get_broker_by_key key ch = look_up key ch

  unfoldable pub get_broker_by_topic_partition : Text → ℤ → ConsistentHash → Option Text
  get_broker_by_topic_partition topic partition ch =
      look_up (topic ++ (codes "-partition-" ++ itoa partition)) ch

  unfoldable pub add_broker : Text → ConsistentHash → ConsistentHash
  unfolding contains
  add_broker broker ch =
      if contains broker ch.brokers
      then ch
      else build_ring (record ch { brokers = ch.brokers ++ broker ∷ [] })

  unfoldable pub remove_broker : Text → ConsistentHash → ConsistentHash
  unfolding remove_first
  remove_broker broker ch = build_ring (record ch { brokers = remove_first broker ch.brokers })

  -- The loop of GetPartitionDistribution, with `n` partitions left from `i`; a panic ends it.
  unfoldable pub distribute :
      ℕ → ℕ → ConsistentHash → Map Text (List ℕ) → Option (Map Text (List ℕ))
  distribute zero i ch acc = some acc
  distribute (suc n) i ch acc = elim (get_broker (pos i) ch) [
    | none ↦ none
    | some broker ↦
        let owned : List ℕ = elim (lookup broker acc) [ none ↦ [] | some is ↦ is ] in
        distribute n (i + 1) ch (insert broker (owned ++ i ∷ []) acc)
  ]

  unfoldable pub get_partition_distribution : ℤ → ConsistentHash → Option (Map Text (List ℕ))
  unfolding distribute
  get_partition_distribution max_partitions ch = distribute (pos_part max_partitions) 0 ch []

  unfoldable pub hash_partition : Text → ℤ → ℕ
  hash_partition key (pos zero) = 0
  hash_partition key (pos (suc n)) = hash key % suc n
  hash_partition key (negsuc n) = 0

unfoldable pub get_brokers : ConsistentHash → List Text
get_brokers ch = ch.brokers

unfoldable pub get_broker_count : ConsistentHash → ℕ
get_broker_count ch = length ch.brokers
