-- ===== src/ConsistentHash/Reference.antt =====
-- The look-ups of the ring against a search of all virtual nodes.
use telemetry_punitha.Prelude.{
  ℕ, zero, suc, ◌<◌, ◌≡◌, refl, subst, sym, ap, ◌∙◌, ◌⊎◌, inl, inr, true, false, List, [], ◌∷◌,
  Option, none, some, Text, arith, eqb, eqb_iff, length, if◌then◌else◌, Bool-cases, Option-cases,
}
use telemetry_punitha.Prelude.Int.{ℤ, pos_part}
use telemetry_punitha.ConsistentHash.{
  Sha512, ConsistentHash, hash, build_ring, new_consistent_hash, look_up,
}
use telemetry_punitha.ConsistentHash.Nodes.{
  Nodes, nodes, nodes_from, last_of, is_some, IsBuilt, build_ring-IsBuilt,
}
use telemetry_punitha.ConsistentHash.Owner.{
  ring_nodes, no_later, IsNext, IsNext-unique, owner_of-IsNext, has_hash, look_up-owner_of,
  look_up_panics,
}

-- Of all nodes the one whose hash comes first clockwise from `h`, with its broker; of nodes with
-- one hash the last one.
unfoldable pub closest : ℕ → Nodes → Option (ℕ × Text)
closest h [] = none
closest h ((x, b) ∷ others) = elim (closest h others) [
  | none ↦ some (x, b)
  | some (y, c) ↦ if no_later h y x then some (y, c) else some (x, b)
]

no_later_trans :
    (h x y z : ℕ) → no_later h y x ≡ false → no_later h y z ≡ true → no_later h x z ≡ true
no_later_trans h x y z p q = ground arith

zero_or_more : (n : ℕ) → (n ≡ 0) ⊎ (0 < n)
zero_or_more zero = inl refl
zero_or_more (suc n) = inr (omega arith)

found_cases : (o : Option (ℕ × Text)) → (o ≡ none) ⊎ ((s : ℕ) × (b : Text) × (o ≡ some (s, b)))
found_cases none = inl refl
found_cases (some (s, b)) = inr (s, b, refl)

abbrev IsClosest : ℕ → Nodes → Option (ℕ × Text) → Type 0
IsClosest h ns none = ns ≡ []
IsClosest h ns (some (s, b)) = IsNext (λ x. is_some (last_of x ns)) h s × (last_of s ns ≡ some b)

closest_step :
    (h x : ℕ) (b : Text) (ns : Nodes) (found : Option (ℕ × Text))
    → closest h ns ≡ found
    → IsClosest h ns found
    → IsClosest h ((x, b) ∷ ns) (closest h ((x, b) ∷ ns))
unfolding closest last_of
closest_step h x b ns none e empty =
    let gone : (z : ℕ) → last_of z ns ≡ none = λ z. ap (last_of z) empty in
    rw e (
      record { there = ground (arith, gone x); first = λ z there. ground (arith, gone z) },
      ground (arith, gone x),
    )
closest_step h x b ns (some (y, c)) e (next, owned) = elim (Bool-cases (no_later h y x)) [
  | inl keeps ↦
      rw (e, keeps)
        (
          record {
            there = ground (arith, owned);
            first = λ z there. ground (arith, next.first z, eqb_iff x z);
          },
          ground (arith, owned),
        )
  | inr moves ↦
      let free : last_of x ns ≡ none = elim (Option-cases (last_of x ns)) [
        | inl f ↦ f
        | inr (c', taken) ↦ absurd (ground (arith, taken, next.first x))
      ] in
      rw (e, moves)
        (
          record {
            there = ground (arith, free);
            first =
                λ z there. ground (arith, next.first z, eqb_iff x z, no_later_trans h x y z moves);
          },
          ground (arith, free),
        )
]

closest-IsClosest : (h : ℕ) (ns : Nodes) → IsClosest h ns (closest h ns)
closest-IsClosest h [] = unfold closest in refl
closest-IsClosest h ((x, b) ∷ ns) =
    closest_step h x b ns (closest h ns) refl (closest-IsClosest h ns)

-- The broker of the closest node; `none` without nodes.
abbrev owner_in : ℕ → Nodes → Option Text
owner_in h ns = elim (closest h ns) [ none ↦ none | some (s, broker) ↦ some broker ]

owner_in-IsNext :
    (h s : ℕ) (ns : Nodes) (broker : Text)
    → IsNext (λ x. is_some (last_of x ns)) h s
    → last_of s ns ≡ some broker
    → owner_in h ns ≡ some broker
owner_in-IsNext h s ns broker next owned = elim (found_cases (closest h ns)) [
  | inl nothing ↦
      let empty : ns ≡ [] = subst (IsClosest h ns) nothing (closest-IsClosest h ns) in
      absurd (unfold last_of in ground (arith, next.there, ap (last_of s) empty))
  | inr (t, c, e) ↦
      let (next', owned') = subst (IsClosest h ns) e (closest-IsClosest h ns) in
      let same = IsNext-unique (λ x. is_some (last_of x ns)) h s t next next' in
      rw (e, owner_in) (sym owned' ∙ ap (λ x. last_of x ns) (sym same) ∙ owned)
]

module _ (sha : Sha512) where
  no_nodes_list : (brokers : List Text) → nodes sha brokers 0 ≡ []
  unfolding nodes nodes_from
  no_nodes_list [] = refl
  no_nodes_list (broker ∷ brokers) = no_nodes_list brokers

  look_up-built :
      (ch : ConsistentHash) (key : Text)
      → IsBuilt sha ch
      → look_up sha key ch ≡ (
          if eqb (length ch.brokers) 0
          then some []
          else owner_in (hash sha key) (ring_nodes sha ch))
  look_up-built ch key built = elim (zero_or_more (length ch.brokers)) [
    | inl none' ↦ unfold look_up in ground arith
    | inr some_broker ↦ elim (zero_or_more (pos_part ch.virtual_nodes)) [
      | inl no_node ↦
          let empty : ring_nodes sha ch ≡ [] =
            ap (nodes sha ch.brokers) no_node ∙ no_nodes_list ch.brokers in
          look_up_panics sha ch key built some_broker no_node
          ∙ sym (unfold closest in ground (arith, ap (owner_in (hash sha key)) empty))
      | inr some_node ↦
          let (s, broker, next, owned, found) =
            owner_of-IsNext sha ch (hash sha key) built
              (has_hash sha ch built some_broker some_node) in
          let same = owner_in-IsNext (hash sha key) s (ring_nodes sha ch) broker next owned in
          look_up-owner_of sha ch key some_broker ∙ found ∙ sym (ground (arith, same))
    ]
  ]

  -- On a new ring, for any brokers, any number of virtual nodes and any key, the look-up by
  -- binary search gives what a search of all virtual nodes gives: the empty text without
  -- brokers, a panic without nodes, and otherwise the broker of the node that is closest
  -- clockwise, and of nodes with one hash the last one.
  pub look_up-closest :
      (brokers : List Text) (virtual_nodes : ℤ) (key : Text)
      → look_up sha key (new_consistent_hash sha brokers virtual_nodes) ≡ (
          if eqb (length brokers) 0
          then some []
          else elim (closest (hash sha key) (nodes sha brokers (pos_part virtual_nodes))) [
            | none ↦ none
            | some (s, broker) ↦ some broker
          ])
  unfolding new_consistent_hash build_ring
  look_up-closest brokers virtual_nodes key =
      let bare : ConsistentHash = record {
        ring = [];
        sorted_hashes = [];
        brokers = brokers;
        virtual_nodes = virtual_nodes;
      } in
      look_up-built (build_ring sha bare) key (build_ring-IsBuilt sha bare)
