-- ===== src/ConsistentHash/Rebalance.antt =====
-- AddBroker and RemoveBroker move no key that they need not move.
use telemetry_punitha.Prelude.{
  ℕ, ◌<◌, ◌≡◌, ◌≢◌, refl, sym, ◌∙◌, ap, Bool, true, false, List, [], ◌∷◌, ◌++◌, some, Text, text_eq,
  ◌==◌, arith, length, length-append, Bool-cases, Option-cases, inl, inr, ◌⊎◌, text_eqb_iff,
}
use telemetry_punitha.Prelude.Int.{pos_part}
use telemetry_punitha.ConsistentHash.{
  Sha512, ConsistentHash, hash, contains, look_up, add_broker, remove_broker, remove_first,
  build_ring,
}
use telemetry_punitha.ConsistentHash.Nodes.{
  Nodes, nodes, nodes_from, nodes-append, last_of, last_of-append, is_some, IsBuilt,
  build_ring-IsBuilt,
}
use telemetry_punitha.ConsistentHash.Owner.{
  IsNext, IsNext-unique, nodes_from-owner, nodes-owner, owner_of-IsNext, has_hash, look_up-owner_of,
  look_up_total,
}

-- The first node of a larger set that lies in the smaller one is the first node of the smaller one.
IsNext-subset :
    (small large : ℕ → Bool) (h s : ℕ)
    → ((x : ℕ) → small x ≡ true → large x ≡ true)
    → small s ≡ true
    → IsNext large h s
    → IsNext small h s
IsNext-subset small large h s sub there next = record {
  there = there;
  first = λ x m. next.first x (sub x m);
}

-- The owner of a hash on a list of nodes, as the look-ups find it.
pub record IsOwner (ns : Nodes) (h : ℕ) (broker : Text) : Type 0 where
  pub node : ℕ
  pub next : IsNext (λ x. is_some (last_of x ns)) h node
  pub owned : last_of node ns ≡ some broker

pub IsOwner-unique : (ns : Nodes) (h : ℕ) (a b : Text) → IsOwner ns h a → IsOwner ns h b → a ≡ b
IsOwner-unique ns h a b p q =
    let same = IsNext-unique _ h p.node q.node p.next q.next in
    let e : last_of p.node ns ≡ some b = rw same q.owned in ground (arith, p.owned)

-- A node of one of two lists is a node of both together.
some-append :
    (h : ℕ) (ns ms : Nodes)
    → (is_some (last_of h ns) ≡ true) ⊎ (is_some (last_of h ms) ≡ true)
    → is_some (last_of h (ns ++ ms)) ≡ true
some-append h ns ms p = ground (arith, last_of-append h ns ms)

-- Nodes that are put behind the others take a hash over, or they leave it its owner.
IsOwner-append :
    (ns ms : Nodes) (h : ℕ) (b : Text)
    → (q : IsOwner (ns ++ ms) h b) → (last_of q.node ms ≡ some b) ⊎ IsOwner ns h b
IsOwner-append ns ms h b q = elim (Option-cases (last_of q.node ms)) [
  | inr (c, e) ↦ inl (ground (arith, last_of-append q.node ns ms, q.owned))
  | inl e ↦
      let owned : last_of q.node ns ≡ some b =
        ground (arith, last_of-append q.node ns ms, q.owned) in
      inr (record {
        node = q.node;
        next =
            IsNext-subset _ _ h q.node (λ x m. some-append x ns ms (inl m)) (ground arith) q.next;
        owned = owned;
      })
]

-- Nodes that are taken out leave a hash its owner, unless they owned it.
IsOwner-remove :
    (xs ys zs : Nodes) (h : ℕ) (b : Text)
    → (q : IsOwner (xs ++ (ys ++ zs)) h b) → last_of q.node ys ≢ some b
    → IsOwner (xs ++ zs) h b
IsOwner-remove xs ys zs h b q other =
    let parts = last_of-append q.node xs (ys ++ zs) in
    let tail = last_of-append q.node ys zs in
    let owned : last_of q.node (xs ++ zs) ≡ some b =
      ground (arith, last_of-append q.node xs zs, parts, tail, q.owned, other) in
    record {
      node = q.node;
      next =
          IsNext-subset _ _ h q.node
            (λ x m. ground (
              arith,
              last_of-append x xs zs,
              last_of-append x xs (ys ++ zs),
              last_of-append x ys zs,
            ))
            (ground arith) q.next;
      owned = owned;
    }

remove_first-split :
    (broker : Text) (bs : List Text)
    → (contains broker bs ≡ true)
    → (xs : List Text) × (zs : List Text) × (bs ≡ xs ++ (broker ∷ zs))
      × (remove_first broker bs ≡ xs ++ zs)
unfolding contains remove_first
remove_first-split broker [] h = absurd (ground arith)
remove_first-split broker (b ∷ bs) h = elim (Bool-cases (b == broker)) [
  | inl here ↦ ([], bs, ground (arith, text_eqb_iff b broker), ground arith)
  | inr later ↦
      let (xs, zs, split, rest) = remove_first-split broker bs (ground arith) in
      (b ∷ xs, zs, ap (λ l. b ∷ l) split, ground arith)
]

remove_first-absent :
    (broker : Text) (bs : List Text) → contains broker bs ≡ false → remove_first broker bs ≡ bs
unfolding contains remove_first
remove_first-absent broker [] h = refl
remove_first-absent broker (b ∷ bs) h = ground (arith, remove_first-absent broker bs)

contains-length : (broker : Text) (bs : List Text) → contains broker bs ≡ true → 0 < length bs
unfolding contains
contains-length broker [] h = absurd (ground arith)
contains-length broker (b ∷ bs) h = omega arith

contains-single : (a b : Text) → contains a (b ∷ []) ≡ true → a ≡ b
unfolding contains
contains-single a b h = ground (arith, text_eqb_iff b a)

module _ (sha : Sha512) where
  -- On a built ring with a node, a look-up is the owner of the key's hash.
  look_up-IsOwner :
      (ch : ConsistentHash) (key broker : Text)
      → IsBuilt sha ch
      → 0 < length ch.brokers
      → 0 < pos_part ch.virtual_nodes
      → look_up sha key ch ≡ some broker
      → IsOwner (nodes sha ch.brokers (pos_part ch.virtual_nodes)) (hash sha key) broker
  look_up-IsOwner ch key broker built some_broker some_node e =
      let (s, b, next, owned, found) =
        owner_of-IsNext sha ch (hash sha key) built (has_hash sha ch built some_broker some_node) in
      let same : b ≡ broker = ground (arith, look_up-owner_of sha ch key some_broker) in
      record { node = s; next = next; owned = owned ∙ ap some same }

  pub same_brokers : (ch : ConsistentHash) → (build_ring sha ch).brokers ≡ ch.brokers
  unfolding build_ring
  same_brokers ch = refl

  pub same_virtual_nodes :
      (ch : ConsistentHash) → (build_ring sha ch).virtual_nodes ≡ ch.virtual_nodes
  unfolding build_ring
  same_virtual_nodes ch = refl

  -- The look-ups of a ring that buildRing makes for given brokers.
  rebuilt-IsOwner :
      (ch : ConsistentHash) (key broker : Text)
      → 0 < length ch.brokers
      → 0 < pos_part ch.virtual_nodes
      → look_up sha key (build_ring sha ch) ≡ some broker
      → IsOwner (nodes sha ch.brokers (pos_part ch.virtual_nodes)) (hash sha key) broker
  rebuilt-IsOwner ch key broker some_broker some_node e =
      let q =
        look_up-IsOwner (build_ring sha ch) key broker (build_ring-IsBuilt sha ch)
          (rw (same_brokers ch) some_broker) (rw (same_virtual_nodes ch) some_node) e in
      rw (same_brokers ch, same_virtual_nodes ch) at q

  rebuilt-look_up :
      (ch : ConsistentHash) (key broker : Text)
      → 0 < pos_part ch.virtual_nodes
      → IsOwner (nodes sha ch.brokers (pos_part ch.virtual_nodes)) (hash sha key) broker
      → look_up sha key (build_ring sha ch) ≡ some broker
  rebuilt-look_up ch key broker some_node q =
      let member = nodes-owner sha q.node ch.brokers broker (pos_part ch.virtual_nodes) q.owned in
      let some_broker = contains-length broker ch.brokers member in
      let (b, found, _) =
        look_up_total sha (build_ring sha ch) key (build_ring-IsBuilt sha ch)
          (rw (same_brokers ch) some_broker) (rw (same_virtual_nodes ch) some_node) in
      found
      ∙ ap some
          (IsOwner-unique _ _ b broker (rebuilt-IsOwner ch key b some_broker some_node found) q)

  -- On a ring that buildRing made, with a broker and a virtual node for each, a key is after
  -- AddBroker at the new broker, or where it was.
  pub look_up-add_broker :
      (ch : ConsistentHash) (key new before after : Text)
      → IsBuilt sha ch
      → 0 < length ch.brokers
      → 0 < pos_part ch.virtual_nodes
      → look_up sha key ch ≡ some before
      → look_up sha key (add_broker sha new ch) ≡ some after
      → (after ≡ new) ⊎ (after ≡ before)
  look_up-add_broker ch key new before after built some_broker some_node e e' =
      let n = pos_part ch.virtual_nodes in
      elim (Bool-cases (contains new ch.brokers)) [
        | inl old ↦ inr (unfold add_broker in ground arith)
        | inr fresh ↦
            let grown : ConsistentHash = record ch { brokers = ch.brokers ++ new ∷ [] } in
            let added : add_broker sha new ch ≡ build_ring sha grown =
              unfold add_broker in ground arith in
            let q =
              rebuilt-IsOwner grown key after (omega (arith, length-append ch.brokers (new ∷ [])))
                some_node (rw added at e') in
            let q' : IsOwner (nodes sha ch.brokers n ++ nodes sha (new ∷ []) n) (hash sha key)
                after =
              rw (nodes-append sha ch.brokers (new ∷ []) n) at q in
            elim (IsOwner-append (nodes sha ch.brokers n) (nodes sha (new ∷ []) n) (hash sha key)
              after q') [
                | inl taken ↦
                    inl
                      (contains-single after new (nodes-owner sha q'.node (new ∷ []) after n taken))
                | inr kept ↦ inr (
                    IsOwner-unique _ _ after before kept
                      (look_up-IsOwner ch key before built some_broker some_node e))
              ]
      ]

  remove_first-IsOwner :
      (brokers : List Text) (n h : ℕ) (gone broker : Text)
      → broker ≢ gone
      → IsOwner (nodes sha brokers n) h broker
      → IsOwner (nodes sha (remove_first gone brokers) n) h broker
  remove_first-IsOwner brokers n h gone broker other q = elim (Bool-cases (contains gone brokers)) [
    | inr absent ↦ rw (remove_first-absent gone brokers absent) q
    | inl present ↦
        let (xs, zs, split, rest) = remove_first-split gone brokers present in
        let q' : IsOwner (nodes sha xs n ++ (nodes_from sha gone n 0 ++ nodes sha zs n)) h broker =
          unfold nodes in (rw (split, nodes-append sha xs (gone ∷ zs) n) at q) in
        rw (rest, nodes-append sha xs zs n)
          (IsOwner-remove (nodes sha xs n) (nodes_from sha gone n 0) (nodes sha zs n) h broker q'
            (λ e. other (sym (nodes_from-owner sha q'.node gone broker n 0 e))))
  ]

  -- On a ring that buildRing made, with a broker and a virtual node for each, RemoveBroker
  -- leaves every key of a broker other than the removed one where it was.
  pub look_up-remove_broker :
      (ch : ConsistentHash) (key gone broker : Text)
      → IsBuilt sha ch
      → 0 < length ch.brokers
      → 0 < pos_part ch.virtual_nodes
      → look_up sha key ch ≡ some broker
      → broker ≢ gone
      → look_up sha key (remove_broker sha gone ch) ≡ some broker
  unfolding remove_broker
  look_up-remove_broker ch key gone broker built some_broker some_node e other =
      rebuilt-look_up (record ch { brokers = remove_first gone ch.brokers }) key broker some_node
        (remove_first-IsOwner ch.brokers (pos_part ch.virtual_nodes) (hash sha key) gone broker
          other (look_up-IsOwner ch key broker built some_broker some_node e))
