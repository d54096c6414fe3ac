-- ===== src/MsgQueue/Partition/Ledger.antt =====
-- Where the messages of a Partition are, by ID: in the queue or in flight.
use telemetry_punitha.Prelude.{
  ℕ, ◌+◌, ◌≤◌, ◌≡◌, refl, Bool, true, false, List, [], ◌∷◌, ◌++◌, Option, none, some, Text, arith,
  length, length-append, ltb, text_eq, text_eqb_iff, ◌==◌, if◌then◌else◌, Option-cases, Bool-cases,
  inl, inr,
}
use telemetry_punitha.Prelude.Map.{Map, lookup, lookup-insert, lookup-delete, delete}
use telemetry_punitha.MsgQueue.Message.{Message, Codec}
use telemetry_punitha.MsgQueue.Partition.{
  Partition, Pending, enqueue, expire, sweep, fetch_and_track, fetch_from, ack,
}

abbrev pub one_if : Bool → ℕ
one_if b = if b then 1 else 0

-- How often the ID occurs among the messages.
unfoldable pub count_id : Text → List Message → ℕ
count_id id [] = 0
count_id id (m ∷ ms) = one_if (m.id == id) + count_id id ms

pub count_id-append :
    (id : Text) (xs ys : List Message) → count_id id (xs ++ ys) ≡ count_id id xs + count_id id ys
unfolding count_id
count_id-append id [] ys = omega arith
count_id-append id (m ∷ xs) ys = omega (arith, count_id-append id xs ys)

-- 1 if a message with the ID is in flight.
unfoldable pub in_flight : Text → Map Text Pending → ℕ
in_flight id m = elim (lookup id m) [ none ↦ 0 | some pd ↦ 1 ]

-- How many messages with the ID the partition holds.
unfoldable pub held : Text → Partition → ℕ
unfolding in_flight count_id
held id p = count_id id p.queue + in_flight id p.pending

-- An entry of the pending map is stored under its message's ID.
pub record IsKeyed (p : Partition) : Type 0 where
  pub at : (id : Text) (pd : Pending) → lookup id p.pending ≡ some pd → pd.msg.id ≡ id

-- enqueue adds its message exactly if it reports no error.
pub held-enqueue :
    (json : Codec) (write_error : Option Text) (m : Message) (p : Partition) (id : Text)
    → held id (enqueue json write_error m p).1
      ≡ held id p
        + elim (enqueue json write_error m p).0 [ none ↦ one_if (m.id == id) | some e ↦ 0 ]
unfolding held enqueue
held-enqueue json write_error m p id = ground (arith, count_id-append id p.queue (m ∷ []))

pub held-ack :
    (p : Partition) (id group : Text) (k : Text)
    → held k (ack id group p).1 + elim (ack id group p).0 [ true ↦ one_if (id == k) | false ↦ 0 ]
      ≡ held k p
unfolding held ack
held-ack p id group k = ground (arith, lookup-delete id k p.pending, text_eqb_iff id k)

held-fetch_from :
    (q : List Message) (p : Partition) (group : Text) (now : ℕ) (k : Text)
    → p.queue ≡ q
    → p.closed ≡ false
    → ((id : Text) → held id p ≤ 1)
    → held k (fetch_from q group now p).1 ≡ held k p
unfolding held fetch_from
held-fetch_from [] p group now k e alive unique = ground arith
held-fetch_from (m ∷ rest) p group now k e alive unique = ground (
  arith,
  unique m.id,
  lookup-insert m.id k (record { msg = m; deadline = now + p.vis_to; group = group }) p.pending,
  text_eqb_iff m.id k,
  text_eqb_iff m.id m.id,
)

-- A message that is fetched goes from the queue to the pending map, if its ID is not in flight.
pub held-fetch :
    (p : Partition) (done : Bool) (group : Text) (now : ℕ) (k : Text)
    → p.closed ≡ false
    → ((id : Text) → held id p ≤ 1)
    → held k (fetch_and_track done group now p).1 ≡ held k p
unfolding held fetch_and_track
held-fetch p done group now k alive unique =
    ground (arith, held-fetch_from p.queue p group now k refl alive unique)

-- What a tick of the monitor, or a part of it, keeps: it moves messages from the pending map to the
-- queue, and the ones that it drops are those that it reports as lost.
pub record Conserves (p : Partition) (lost : List Message) (q : Partition) : Type 0 where
  pub balance : (k : Text) → held k q + count_id k lost ≡ held k p
  pub keyed : IsKeyed q
  pub alive : q.closed ≡ false
  pub same_cap : q.cap ≡ p.cap
  pub room : length p.queue ≤ p.cap → length q.queue ≤ q.cap

Conserves-refl : (p : Partition) → IsKeyed p → p.closed ≡ false → Conserves p [] p
unfolding count_id
Conserves-refl p keyed alive = record {
  balance = λ k. omega arith;
  keyed = keyed;
  alive = alive;
  same_cap = refl;
  room = λ h. h;
}

Conserves-trans :
    {p q r : Partition} (xs ys : List Message)
    → Conserves p xs q
    → Conserves q ys r
    → Conserves p (xs ++ ys) r
Conserves-trans xs ys c d = record {
  balance = λ k. omega (arith, c.balance k, d.balance k, count_id-append k xs ys);
  keyed = d.keyed;
  alive = d.alive;
  same_cap = ground arith;
  room = λ h. d.room (c.room h);
}

-- The call does not panic, and what it gives satisfies `P`.
abbrev pub Yields : (List Message → Partition → Type 0) → Option (List Message × Partition) → Type 0
Yields P none = ⊥
Yields P (some (lost, q)) = P lost q

IsKeyed-delete :
    (p : Partition) (id : Text) → IsKeyed p → IsKeyed (record p { pending = delete id p.pending })
IsKeyed-delete p id keyed = record {
  at = λ k pd h. keyed.at k pd (ground (arith, lookup-delete id k p.pending));
}

-- The message `pd` in flight under `id` has left the pending map.
module _ (p : Partition) (id : Text) (pd : Pending) (alive : p.closed ≡ false) (keyed : IsKeyed p)
    (e : lookup id p.pending ≡ some pd) where
  Conserves-drop : Conserves p (pd.msg ∷ []) (record p { pending = delete id p.pending })
  unfolding held
  Conserves-drop = record {
    balance =
        λ k. ground (arith, keyed.at id pd e, lookup-delete id k p.pending, text_eqb_iff id k);
    keyed = IsKeyed-delete p id keyed;
    alive = alive;
    same_cap = refl;
    room = λ h. h;
  }

  Conserves-requeue :
      length p.queue + 1 ≤ p.cap
      → Conserves p []
          (record p { queue = p.queue ++ pd.msg ∷ []; pending = delete id (delete id p.pending) })
  unfolding held
  Conserves-requeue fits = record {
    balance = λ k. ground (
      arith,
      keyed.at id pd e,
      count_id-append k p.queue (pd.msg ∷ []),
      lookup-delete id k p.pending,
      lookup-delete id k (delete id p.pending),
      text_eqb_iff id k,
    );
    keyed = record {
      at = λ k x h.
          keyed.at k x (
            ground (arith, lookup-delete id k p.pending, lookup-delete id k (delete id p.pending)));
    };
    alive = alive;
    same_cap = refl;
    room = λ h. omega (arith, length-append p.queue (pd.msg ∷ []));
  }

expire-Conserves :
    (p : Partition) (now : ℕ) (id : Text)
    → p.closed ≡ false
    → IsKeyed p
    → Yields (Conserves p) (expire now id p)
expire-Conserves p now id alive keyed = elim (Option-cases (lookup id p.pending)) [
  | inl e ↦
      let same : expire now id p ≡ some ([], p) = unfold expire in ground arith in
      rw same (Conserves-refl p keyed alive)
  | inr (pd, e) ↦ elim (Bool-cases (ltb pd.deadline now)) [
    | inl late ↦ elim (Bool-cases (ltb (length p.queue) p.cap)) [
      | inl fits ↦
          let requeued : expire now id p
              ≡ some (
                [],
                record p {
                  queue = p.queue ++ pd.msg ∷ [];
                  pending = delete id (delete id p.pending);
                },
              ) =
            unfold expire in ground arith in
          rw requeued (Conserves-requeue p id pd alive keyed e (ground arith))
      | inr over ↦
          let dropped : expire now id p
              ≡ some (pd.msg ∷ [], record p { pending = delete id p.pending }) =
            unfold expire in ground arith in
          rw dropped (Conserves-drop p id pd alive keyed e)
    ]
    | inr early ↦
        let same : expire now id p ≡ some ([], p) = unfold expire in ground arith in
        rw same (Conserves-refl p keyed alive)
  ]
]

pub Yields-cases :
    {P : List Message → Partition → Type 0} (r : Option (List Message × Partition))
    → Yields P r
    → (lost : List Message) × (q : Partition) × (r ≡ some (lost, q)) × P lost q
Yields-cases none h = absurd h
Yields-cases (some (lost, q)) h = (lost, q, refl, h)

-- A tick of the monitor neither duplicates a message nor drops one that it does not report.
pub sweep-Conserves :
    (p : Partition) (now : ℕ) (order : List Text)
    → p.closed ≡ false
    → IsKeyed p
    → Yields (Conserves p) (sweep now order p)
unfolding sweep
sweep-Conserves p now [] alive keyed = Conserves-refl p keyed alive
sweep-Conserves p now (id ∷ order) alive keyed =
    let (xs, q, e, c) = Yields-cases (expire now id p) (expire-Conserves p now id alive keyed) in
    let (ys, r, d, g) =
      Yields-cases (sweep now order q) (sweep-Conserves q now order c.alive c.keyed) in
    rw (e, sweep, d) (Conserves-trans xs ys c g)
