-- ===== src/ConsistentHash/Nodes.antt =====
-- The ring as the list of its virtual nodes, in the order in which buildRing makes them. Where two
-- nodes have one hash, the last one made owns it.
use mathlib.Core.List.{append_assoc}
use telemetry_punitha.Prelude.{
  ℕ, zero, suc, ◌+◌, ◌≡◌, refl, ◌∙◌, Bool, true, false, ◌||◌, List, [], ◌∷◌, ◌++◌, Option, none,
  some, Text, nat_eq, arith, eqb, if◌then◌else◌,
}
use telemetry_punitha.Prelude.Int.{pos_part}
use telemetry_punitha.Prelude.Map.{Map, lookup, insert, lookup-insert, lookup-nil}
use telemetry_punitha.ConsistentHash.{
  Sha512, ConsistentHash, hash, virtual_node, add_nodes, add_brokers, build_ring,
}
use telemetry_punitha.ConsistentHash.Sorted.{has, has-append, has-sort, IsSorted, sort-IsSorted}

abbrev pub Nodes : Type 0
Nodes = List (ℕ × Text)

abbrev pub or_else : Option Text → Option Text → Option Text
or_else none o = o
or_else (some b) o = some b

-- The broker of the last node with the hash.
unfoldable pub last_of : ℕ → Nodes → Option Text
last_of h [] = none
last_of h ((k, b) ∷ nodes) = or_else (last_of h nodes) (if eqb k h then some b else none)

abbrev pub is_some : Option Text → Bool
is_some none = false
is_some (some b) = true

pub last_of-append :
    (h : ℕ) (xs ys : Nodes) → last_of h (xs ++ ys) ≡ or_else (last_of h ys) (last_of h xs)
unfolding last_of
last_of-append h [] ys = ground arith
last_of-append h ((k, b) ∷ xs) ys = ground (arith, last_of-append h xs ys)

module _ (sha : Sha512) where
  unfoldable pub nodes_from : Text → ℕ → ℕ → Nodes
  nodes_from broker zero i = []
  nodes_from broker (suc n) i =
      (hash sha (virtual_node sha broker i), broker) ∷ nodes_from broker n (i + 1)

  unfoldable pub nodes : List Text → ℕ → Nodes
  nodes [] n = []
  nodes (broker ∷ brokers) n = nodes_from broker n 0 ++ nodes brokers n

  pub nodes-append : (xs ys : List Text) (n : ℕ) → nodes (xs ++ ys) n ≡ nodes xs n ++ nodes ys n
  unfolding nodes
  nodes-append [] ys n = refl
  nodes-append (x ∷ xs) ys n = rw (nodes-append xs ys n, append_assoc) refl

  lookup-add_nodes :
      (h : ℕ) (broker : Text) (n i : ℕ) (ring : Map ℕ Text) (hashes : List ℕ)
      → lookup h (add_nodes sha broker n i (ring, hashes)).0
        ≡ or_else (last_of h (nodes_from broker n i)) (lookup h ring)
  unfolding add_nodes nodes_from last_of
  lookup-add_nodes h broker zero i ring hashes = refl
  lookup-add_nodes h broker (suc n) i ring hashes =
      let k = hash sha (virtual_node sha broker i) in
      ground (
        arith,
        lookup-add_nodes h broker n (i + 1) (insert k broker ring) (hashes ++ k ∷ []),
        lookup-insert k h broker ring,
      )

  has-add_nodes :
      (h : ℕ) (broker : Text) (n i : ℕ) (ring : Map ℕ Text) (hashes : List ℕ)
      → has h (add_nodes sha broker n i (ring, hashes)).1
        ≡ (has h hashes || is_some (last_of h (nodes_from broker n i)))
  unfolding add_nodes nodes_from last_of has
  has-add_nodes h broker zero i ring hashes = ground arith
  has-add_nodes h broker (suc n) i ring hashes =
      let k = hash sha (virtual_node sha broker i) in
      ground (
        arith,
        has-add_nodes h broker n (i + 1) (insert k broker ring) (hashes ++ k ∷ []),
        has-append h hashes (k ∷ []),
      )

  lookup-add_brokers :
      (h : ℕ) (brokers : List Text) (n : ℕ) (acc : Map ℕ Text × List ℕ)
      → lookup h (add_brokers sha brokers n acc).0
        ≡ or_else (last_of h (nodes brokers n)) (lookup h acc.0)
  unfolding add_brokers nodes
  lookup-add_brokers h [] n acc = unfold last_of in refl
  lookup-add_brokers h (broker ∷ brokers) n acc = ground (
    arith,
    lookup-add_brokers h brokers n (add_nodes sha broker n 0 acc),
    lookup-add_nodes h broker n 0 acc.0 acc.1,
    last_of-append h (nodes_from broker n 0) (nodes brokers n),
  )

  has-add_brokers :
      (h : ℕ) (brokers : List Text) (n : ℕ) (acc : Map ℕ Text × List ℕ)
      → has h (add_brokers sha brokers n acc).1
        ≡ (has h acc.1 || is_some (last_of h (nodes brokers n)))
  unfolding add_brokers nodes
  has-add_brokers h [] n acc = unfold last_of in ground arith
  has-add_brokers h (broker ∷ brokers) n acc = ground (
    arith,
    has-add_brokers h brokers n (add_nodes sha broker n 0 acc),
    has-add_nodes h broker n 0 acc.0 acc.1,
    last_of-append h (nodes_from broker n 0) (nodes brokers n),
  )

  -- A ring that buildRing has made for its brokers.
  pub record IsBuilt (ch : ConsistentHash) : Type 0 where
    pub sorted : IsSorted ch.sorted_hashes
    pub owners :
        (h : ℕ) → lookup h ch.ring ≡ last_of h (nodes ch.brokers (pos_part ch.virtual_nodes))
    pub hashes :
        (h : ℕ)
        → has h ch.sorted_hashes
          ≡ is_some (last_of h (nodes ch.brokers (pos_part ch.virtual_nodes)))

  -- buildRing's ring has exactly the virtual nodes of the brokers, whatever it held before.
  pub build_ring-IsBuilt : (ch : ConsistentHash) → IsBuilt (build_ring sha ch)
  unfolding build_ring
  build_ring-IsBuilt ch =
      let n = pos_part ch.virtual_nodes in
      let made = add_brokers sha ch.brokers n ([], []) in
      record {
        sorted = sort-IsSorted made.1;
        owners = λ h.
            ground
              (arith, lookup-add_brokers h ch.brokers n ([], []), lookup-nil {K = ℕ} {V = Text} h);
        hashes = λ h. unfold has in has-sort h made.1 ∙ has-add_brokers h ch.brokers n ([], []);
      }
