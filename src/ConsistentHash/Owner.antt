-- ===== src/ConsistentHash/Owner.antt =====
-- The look-ups of the ring find the next virtual node clockwise.
use telemetry_punitha.Prelude.{
  ℕ, zero, suc, ◌+◌, ◌≤◌, ◌<◌, ◌≡◌, refl, sym, ◌∙◌, ap, Bool, true, false, List, [], ◌∷◌, none,
  some, Text, nat_eq, text_eq, arith, eqb, eqb_iff, leb, ltb, length, get_elem?, if◌then◌else◌,
  Bool-cases, Option-cases, inl, inr, text_eqb_iff,
}
use telemetry_punitha.Prelude.Int.{pos_part}
use telemetry_punitha.ConsistentHash.{
  Sha512, ConsistentHash, hash, virtual_node, contains, owner_of, look_up,
}
use telemetry_punitha.ConsistentHash.Sorted.{has, IsSorted}
use telemetry_punitha.ConsistentHash.Search.{rank, rank-le, search_first-rank}
use telemetry_punitha.ConsistentHash.Nodes.{
  Nodes, nodes, nodes_from, last_of, last_of-append, is_some, IsBuilt,
}

-- From `h`, clockwise, `s` comes no later than `x`.
abbrev pub no_later : ℕ → ℕ → ℕ → Bool
no_later h s x =
    if leb h s then (if leb h x then leb s x else true) else if leb h x then false else leb s x

-- `s` is the first of the hashes clockwise from `h`.
pub record IsNext (present : ℕ → Bool) (h s : ℕ) : Type 0 where
  pub there : present s ≡ true
  pub first : (x : ℕ) → present x ≡ true → no_later h s x ≡ true

pub IsNext-unique :
    (present : ℕ → Bool) (h s t : ℕ) → IsNext present h s → IsNext present h t → s ≡ t
IsNext-unique present h s t a b = ground (arith, a.first t b.there, b.first s a.there)

get_rank :
    (h : ℕ) (xs : List ℕ)
    → IsSorted xs
    → rank h xs < length xs
    → (s : ℕ) × (get_elem? xs (rank h xs) ≡ some s)
      × (has s xs ≡ true)
      × (h ≤ s)
      × ((x : ℕ) → has x xs ≡ true → h ≤ x → s ≤ x)
unfolding rank has
get_rank h [] sorted lt = absurd (omega arith)
get_rank h (x ∷ xs) sorted lt = elim (Bool-cases (ltb x h)) [
  | inl below ↦
      let (s, e, m, le, first) = get_rank h xs sorted.1 (ground arith) in
      (s, ground arith, ground arith, le, λ y p q. ground (arith, first y))
  | inr above ↦ (x, ground arith, ground arith, ground arith, λ y p q. ground (arith, sorted.0 y))
]

all_below : (h : ℕ) (xs : List ℕ) → rank h xs ≡ length xs → (x : ℕ) → has x xs ≡ true → x < h
unfolding rank has
all_below h [] e x m = absurd (ground arith)
all_below h (y ∷ ys) e x m = ground (arith, all_below h ys (ground arith) x)

node_at :
    (h : ℕ) (xs : List ℕ)
    → IsSorted xs
    → 0 < length xs
    → (s : ℕ) × (get_elem? xs (if eqb (rank h xs) (length xs) then 0 else rank h xs) ≡ some s)
      × IsNext (λ x. has x xs) h s
node_at h [] sorted lt = absurd (omega arith)
node_at h (y ∷ ys) sorted lt = elim (Bool-cases (eqb (rank h (y ∷ ys)) (length (y ∷ ys)))) [
  | inl wraps ↦
      let below = all_below h (y ∷ ys) ((eqb_iff _ _).0 wraps) in
      let here : has y (y ∷ ys) ≡ true = unfold has in ground arith in
      (
        y,
        rw wraps,
        record {
          there = here;
          first = λ x m. unfold has in ground (arith, below x m, below y here, sorted.0 x);
        },
      )
  | inr inside ↦
      let (s, e, m, le, first) = get_rank h (y ∷ ys) sorted (ground (arith, rank-le h (y ∷ ys))) in
      (s, rw inside e, record { there = m; first = λ x p. ground (arith, first x p) })
]

has-length : (x : ℕ) (xs : List ℕ) → has x xs ≡ true → 0 < length xs
unfolding has
has-length x [] h = absurd (ground arith)
has-length x (y ∷ ys) h = omega arith

module _ (sha : Sha512) where
  -- The virtual nodes of a ring, by its brokers and their number for each.
  abbrev pub ring_nodes : ConsistentHash → Nodes
  ring_nodes ch = nodes sha ch.brokers (pos_part ch.virtual_nodes)

  -- On a ring that buildRing made and that has a node, the binary search of a look-up ends
  -- without a panic and gives the broker of the first node clockwise from the hash, the start of
  -- the ring after its end.
  pub owner_of-IsNext :
      (ch : ConsistentHash) (h : ℕ)
      → IsBuilt sha ch
      → 0 < length ch.sorted_hashes
      → (s : ℕ) × (broker : Text) × IsNext (λ x. is_some (last_of x (ring_nodes ch))) h s
        × (last_of s (ring_nodes ch) ≡ some broker)
        × (owner_of sha h ch ≡ some broker)
  owner_of-IsNext ch h built some_node =
      let (s, found, next) = node_at h ch.sorted_hashes built.sorted some_node in
      let there : is_some (last_of s (ring_nodes ch)) ≡ true = sym (built.hashes s) ∙ next.there in
      elim (Option-cases (last_of s (ring_nodes ch))) [
        | inl e ↦ absurd (ground arith)
        | inr (broker, e) ↦ (
          s,
          broker,
          record { there = there; first = λ x m. next.first x (built.hashes x ∙ m) },
          e,
          unfold owner_of in
              ground (arith, search_first-rank h ch.sorted_hashes built.sorted, built.owners s),
        )
      ]

  pub nodes_from-owner :
      (h : ℕ) (broker b : Text) (n i : ℕ)
      → last_of h (nodes_from sha broker n i) ≡ some b
      → broker ≡ b
  unfolding nodes_from last_of
  nodes_from-owner h broker b zero i e = absurd (ground arith)
  nodes_from-owner h broker b (suc n) i e = ground (arith, nodes_from-owner h broker b n (i + 1))

  -- The owner of a node is a broker of the ring.
  pub nodes-owner :
      (h : ℕ) (brokers : List Text) (b : Text) (n : ℕ)
      → last_of h (nodes sha brokers n) ≡ some b
      → contains b brokers ≡ true
  unfolding nodes contains
  nodes-owner h [] b n e = absurd (unfold last_of in ground arith)
  nodes-owner h (x ∷ xs) b n e = ground (
    arith,
    last_of-append h (nodes_from sha x n 0) (nodes sha xs n),
    nodes-owner h xs b n,
    nodes_from-owner h x b n 0,
    text_eqb_iff x b,
  )

  first_node :
      (x : Text) (xs : List Text) (k : ℕ)
      → is_some (last_of (hash sha (virtual_node sha x 0)) (nodes sha (x ∷ xs) (suc k))) ≡ true
  unfolding nodes nodes_from last_of
  first_node x xs k =
      let h = hash sha (virtual_node sha x 0) in
      ground
        (arith, last_of-append h (nodes_from sha x (suc k) 0) (nodes sha xs (suc k)), eqb_iff h h)

  has_node :
      (brokers : List Text) (n : ℕ)
      → 0 < length brokers
      → 0 < n
      → (h : ℕ) × (is_some (last_of h (nodes sha brokers n)) ≡ true)
  has_node [] n p q = absurd (omega arith)
  has_node (x ∷ xs) zero p q = absurd (omega arith)
  has_node (x ∷ xs) (suc k) p q = (hash sha (virtual_node sha x 0), first_node x xs k)

  no_nodes : (h : ℕ) (brokers : List Text) → last_of h (nodes sha brokers 0) ≡ none
  unfolding nodes nodes_from last_of
  no_nodes h [] = refl
  no_nodes h (x ∷ xs) = no_nodes h xs

  pub has_hash :
      (ch : ConsistentHash)
      → IsBuilt sha ch
      → 0 < length ch.brokers
      → 0 < pos_part ch.virtual_nodes
      → 0 < length ch.sorted_hashes
  has_hash ch built p q =
      let (h, m) = has_node ch.brokers (pos_part ch.virtual_nodes) p q in
      has-length h ch.sorted_hashes (built.hashes h ∙ m)

  pub look_up-owner_of :
      (ch : ConsistentHash) (key : Text)
      → 0 < length ch.brokers
      → look_up sha key ch ≡ owner_of sha (hash sha key) ch
  unfolding look_up
  look_up-owner_of ch key p = unfold owner_of in ground arith

  -- On a ring that buildRing made, with a broker and a virtual node for each broker, every key
  -- has one broker of the ring.
  pub look_up_total :
      (ch : ConsistentHash) (key : Text)
      → IsBuilt sha ch
      → 0 < length ch.brokers
      → 0 < pos_part ch.virtual_nodes
      → (broker : Text) × (look_up sha key ch ≡ some broker) × (contains broker ch.brokers ≡ true)
  look_up_total ch key built some_broker some_node =
      let (s, broker, next, owned, found) =
        owner_of-IsNext ch (hash sha key) built (has_hash ch built some_broker some_node) in
      (
        broker,
        look_up-owner_of ch key some_broker ∙ found,
        nodes-owner s ch.brokers broker (pos_part ch.virtual_nodes) owned,
      )

  no_hashes : (xs : List ℕ) → ((h : ℕ) → has h xs ≡ false) → xs ≡ []
  unfolding has
  no_hashes [] h = refl
  no_hashes (x ∷ xs) h = absurd (ground (arith, h x))

  -- On a ring that buildRing made, with a broker and no virtual node (VIRTUAL_NODES of 0 or
  -- less), every look-up panics.
  pub look_up_panics :
      (ch : ConsistentHash) (key : Text)
      → IsBuilt sha ch
      → 0 < length ch.brokers
      → pos_part ch.virtual_nodes ≡ 0
      → look_up sha key ch ≡ none
  look_up_panics ch key built some_broker no_node =
      let empty = no_hashes ch.sorted_hashes (λ h.
        built.hashes h
        ∙ ap (λ n. is_some (last_of h (nodes sha ch.brokers n))) no_node
        ∙ ap is_some (no_nodes h ch.brokers)) in
      look_up-owner_of ch key some_broker ∙ (unfold owner_of in rw (empty, owner_of) refl)
