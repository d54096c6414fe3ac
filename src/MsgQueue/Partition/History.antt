-- ===== src/MsgQueue/Partition/History.antt =====
-- All the histories of one open Partition of services/msg_queue/main.go, as sequences of its calls.
use telemetry_punitha.Prelude.{
  ℕ, ◌+◌, ◌≤◌, ◌≡◌, refl, ◌∙◌, Bool, true, false, List, [], ◌∷◌, ◌++◌, Option, none, some, Text,
  arith, length, length-append, text_eq, text_eqb_iff, ◌==◌,
}
use telemetry_punitha.Prelude.Map.{lookup-insert, lookup-delete}
use telemetry_punitha.MsgQueue.Message.{Message, Codec}
use telemetry_punitha.MsgQueue.Partition.{
  Partition, EnqueueError, enqueue, sweep, fetch_and_track, fetch_from, ack,
}
use telemetry_punitha.MsgQueue.Partition.Ledger.{
  one_if, count_id, count_id-append, held, IsKeyed, held-enqueue, held-ack, held-fetch, Conserves,
  sweep-Conserves,
}

-- The partition, with what its clients and its log have seen: the messages that produce took, the
-- IDs that were acknowledged, the messages that the monitor reported as lost.
pub record World : Type 0 where
  pub part : Partition
  pub accepted : List Message
  pub acked : List Text
  pub lost : List Message

unfoldable pub count_key : Text → List Text → ℕ
count_key id [] = 0
count_key id (k ∷ ks) = one_if (k == id) + count_key id ks

unfoldable pub after_enqueue : Message → World → Option EnqueueError × Partition → World
after_enqueue m w (none, p) = record w { part = p; accepted = m ∷ w.accepted }
after_enqueue m w (some e, p) = record w { part = p }

unfoldable pub after_ack : Text → World → Bool × Partition → World
after_ack id w (true, p) = record w { part = p; acked = id ∷ w.acked }
after_ack id w (false, p) = record w { part = p }

module _ (json : Codec) where
  -- The IDs are fresh: they are 128 random bits.
  pub data Step (w : World) : World → Type 0 where
    produces :
        (write_error : Option Text) (m : Message)
        → count_id m.id w.accepted ≡ 0
        → Step w (after_enqueue m w (enqueue json write_error m w.part))
    fetches :
        (done : Bool) (group : Text) (now : ℕ)
        → Step w (record w { part = (fetch_and_track done group now w.part).1 })
    acks : (id group : Text) → Step w (after_ack id w (ack id group w.part))
    ticks :
        (now : ℕ) (order : List Text) (lost : List Message) (p : Partition)
        → sweep now order w.part ≡ some (lost, p)
        → Step w (record w { part = p; lost = w.lost ++ lost })

  pub data Reach (s : World) : World → Type 0 where
    here : Reach s s
    next : {v w : World} → Reach s v → Step v w → Reach s w

-- Every message that was accepted is in exactly one place: queued or in flight, acknowledged, or
-- reported as lost.
pub record Accounts (w : World) : Type 0 where
  pub balance :
      (k : Text) → held k w.part + count_key k w.acked + count_id k w.lost ≡ count_id k w.accepted
  pub once : (k : Text) → count_id k w.accepted ≤ 1
  pub keyed : IsKeyed w.part
  pub alive : w.part.closed ≡ false
  pub room : length w.part.queue ≤ w.part.cap

-- The fields of the partition that `enqueue` leaves alone, and its bound.
record Enqueued (p : Partition) (q : Partition) : Type 0 where
  same_pending : q.pending ≡ p.pending
  same_closed : q.closed ≡ p.closed
  fits : length p.queue ≤ p.cap → length q.queue ≤ q.cap

enqueue-Enqueued :
    (json : Codec) (write_error : Option Text) (m : Message) (p : Partition)
    → Enqueued p (enqueue json write_error m p).1
unfolding enqueue
enqueue-Enqueued json write_error m p = ground (arith, length-append p.queue (m ∷ []))

after_enqueue-Accounts :
    (m : Message) (w : World) (r : Option EnqueueError × Partition)
    → Accounts w
    → count_id m.id w.accepted ≡ 0
    → Enqueued w.part r.1
    → ((k : Text)
        → held k r.1 ≡ held k w.part + elim r.0 [ none ↦ one_if (m.id == k) | some e ↦ 0 ])
    → Accounts (after_enqueue m w r)
unfolding after_enqueue count_id
after_enqueue-Accounts m w (none, p) a fresh q h = record {
  balance = λ k. omega (arith, h k, a.balance k);
  once = λ k. ground (arith, a.once k, text_eqb_iff m.id k);
  keyed = record { at = λ k pd e. a.keyed.at k pd (ground arith) };
  alive = ground arith;
  room = q.fits a.room;
}
after_enqueue-Accounts m w (some e, p) a fresh q h = record {
  balance = λ k. omega (arith, h k, a.balance k);
  once = a.once;
  keyed = record { at = λ k pd e. a.keyed.at k pd (ground arith) };
  alive = ground arith;
  room = q.fits a.room;
}

ack-IsKeyed : (p : Partition) (id group : Text) → IsKeyed p → IsKeyed (ack id group p).1
unfolding ack
ack-IsKeyed p id group keyed = record {
  at = λ k pd e. ground (arith, keyed.at k pd, lookup-delete id k p.pending);
}

ack_same :
    (p : Partition) (id group : Text)
    → ((ack id group p).1.queue ≡ p.queue)
      × ((ack id group p).1.closed ≡ p.closed)
      × ((ack id group p).1.cap ≡ p.cap)
unfolding ack
ack_same p id group = ground arith

after_ack-Accounts :
    (id : Text) (w : World) (r : Bool × Partition)
    → Accounts w
    → IsKeyed r.1
    → (r.1.queue ≡ w.part.queue) × (r.1.closed ≡ w.part.closed) × (r.1.cap ≡ w.part.cap)
    → ((k : Text) → held k r.1 + elim r.0 [ true ↦ one_if (id == k) | false ↦ 0 ] ≡ held k w.part)
    → Accounts (after_ack id w r)
unfolding after_ack count_key
after_ack-Accounts id w (true, p) a keyed same h = record {
  balance = λ k. omega (arith, h k, a.balance k);
  once = a.once;
  keyed = keyed;
  alive = ground arith;
  room = ground (arith, a.room);
}
after_ack-Accounts id w (false, p) a keyed same h = record {
  balance = λ k. omega (arith, h k, a.balance k);
  once = a.once;
  keyed = keyed;
  alive = ground arith;
  room = ground (arith, a.room);
}

fetch_from-IsKeyed :
    (q : List Message) (group : Text) (now : ℕ) (p : Partition)
    → p.closed ≡ false
    → IsKeyed p
    → IsKeyed (fetch_from q group now p).1
unfolding fetch_from
fetch_from-IsKeyed [] group now p alive keyed = record {
  at = λ k pd e. keyed.at k pd (ground arith);
}
fetch_from-IsKeyed (m ∷ rest) group now p alive keyed = record {
  at = λ k pd e. ground (
    arith,
    keyed.at k pd,
    lookup-insert m.id k (record { msg = m; deadline = now + p.vis_to; group = group }) p.pending,
    text_eqb_iff m.id k,
  );
}

fetch_from_same :
    (q : List Message) (group : Text) (now : ℕ) (p : Partition)
    → p.queue ≡ q
    → ((fetch_from q group now p).1.closed ≡ p.closed)
      × ((fetch_from q group now p).1.cap ≡ p.cap)
      × (length (fetch_from q group now p).1.queue ≤ length p.queue)
unfolding fetch_from
fetch_from_same [] group now p e = ground arith
fetch_from_same (m ∷ rest) group now p e = ground arith

fetch_alive :
    (done : Bool) (group : Text) (now : ℕ) (p : Partition)
    → p.closed ≡ false
    → fetch_and_track done group now p ≡ fetch_from p.queue group now p
unfolding fetch_and_track
fetch_alive done group now p alive = ground arith

fetch-Accounts :
    (w : World) (done : Bool) (group : Text) (now : ℕ)
    → Accounts w
    → Accounts (record w { part = (fetch_and_track done group now w.part).1 })
fetch-Accounts w done group now a =
    let single =
      λ (k : Text). let h : held k w.part ≤ 1 = omega (arith, a.balance k, a.once k) in h in
    let (closed, cap, shorter) = fetch_from_same w.part.queue group now w.part refl in
    let fetched = fetch_alive done group now w.part a.alive in
    record {
      balance = λ k. omega (arith, a.balance k, held-fetch w.part done group now k a.alive single);
      once = a.once;
      keyed = rw fetched (fetch_from-IsKeyed w.part.queue group now w.part a.alive a.keyed);
      alive = rw fetched (closed ∙ a.alive);
      room = rw fetched (omega (arith, a.room));
    }

tick-Accounts :
    (w : World) (now : ℕ) (order : List Text) (lost : List Message) (p : Partition)
    → sweep now order w.part ≡ some (lost, p)
    → Accounts w
    → Accounts (record w { part = p; lost = w.lost ++ lost })
tick-Accounts w now order lost p e a =
    let c : Conserves w.part lost p = rw e at (sweep-Conserves w.part now order a.alive a.keyed) in
    record {
      balance = λ k. omega (arith, a.balance k, c.balance k, count_id-append k w.lost lost);
      once = a.once;
      keyed = c.keyed;
      alive = c.alive;
      room = c.room a.room;
    }

module _ (json : Codec) where
  Step-Accounts : {v w : World} → Step json v w → Accounts v → Accounts w
  Step-Accounts {v} (produces write_error m fresh) a =
      after_enqueue-Accounts m v (enqueue json write_error m v.part) a fresh
        (enqueue-Enqueued json write_error m v.part) (held-enqueue json write_error m v.part)
  Step-Accounts {v} (fetches done group now) a = fetch-Accounts v done group now a
  Step-Accounts {v} (acks id group) a =
      after_ack-Accounts id v (ack id group v.part) a (ack-IsKeyed v.part id group a.keyed)
        (ack_same v.part id group) (held-ack v.part id group)
  Step-Accounts {v} (ticks now order lost p e) a = tick-Accounts v now order lost p e a

  -- From a state in which each accepted message is in one place, whatever calls of enqueue,
  -- fetchAndTrack and ack and whatever ticks of the monitor follow, in any order: if the IDs of
  -- produced messages are fresh, then each accepted message stays in one place only, be it the
  -- queue, the pending map, the acknowledged IDs or the messages reported as lost; and the queue
  -- stays within its capacity.
  pub Reach-Accounts : {v w : World} → Accounts v → Reach json v w → Accounts w
  Reach-Accounts a here = a
  Reach-Accounts a (next r st) = Step-Accounts st (Reach-Accounts a r)
