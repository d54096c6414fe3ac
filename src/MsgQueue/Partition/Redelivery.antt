-- ===== src/MsgQueue/Partition/Redelivery.antt =====
-- What becomes of a message that no one acknowledges, services/msg_queue/main.go.
use mathlib.Core.List.{append_assoc, append-nil}
use telemetry_punitha.Prelude.{
  ℕ, zero, suc, ◌+◌, ◌≤◌, ◌<◌, ◌≡◌, refl, ap, ◌∙◌, sym, true, false, List, [], ◌∷◌, ◌++◌, some,
  Text, arith, text_eq, text_eqb_iff, ◌==◌, ltb, length, length-append, get_elem?, Option-cases,
  Bool-cases, inl, inr,
}
use telemetry_punitha.Prelude.Map.{lookup, delete}
use telemetry_punitha.MsgQueue.Message.{Message}
use telemetry_punitha.MsgQueue.Partition.{
  Partition, Pending, message, expire, sweep, fetch_and_track, track,
}
use telemetry_punitha.MsgQueue.Partition.Fifo.{fetch_all}
use telemetry_punitha.MsgQueue.Partition.Timeouts.{visits, remaining, lookup-expire}

get_elem?_left :
    {A : Type 0} (xs ys : List A) (i : ℕ) (a : A)
    → get_elem? xs i ≡ some a
    → get_elem? (xs ++ ys) i ≡ some a
get_elem?_left [] ys i a e = absurd (ground arith)
get_elem?_left (x ∷ xs) ys zero a e = e
get_elem?_left (x ∷ xs) ys (suc i) a e = get_elem?_left xs ys i a e

get_elem?_last : {A : Type 0} (xs : List A) (a : A) → get_elem? (xs ++ a ∷ []) (length xs) ≡ some a
get_elem?_last [] a = refl
get_elem?_last (x ∷ xs) a = get_elem?_last xs a

-- A tick's effect on an open partition: the queue grows by `back`, by `n` messages at most.
record Grows (p q : Partition) (n : ℕ) : Type 0 where
  open_still : q.closed ≡ false
  same_cap : q.cap ≡ p.cap
  back : List Message
  queue : q.queue ≡ p.queue ++ back
  few : length back ≤ n

Grows-trans : {p q r : Partition} {n : ℕ} → Grows p q 1 → Grows q r n → Grows p r (suc n)
Grows-trans {p} a b = record {
  open_still = b.open_still;
  same_cap = b.same_cap ∙ a.same_cap;
  back = a.back ++ b.back;
  queue = b.queue ∙ ap (λ l. l ++ b.back) a.queue ∙ append_assoc p.queue a.back b.back;
  few = omega (arith, length-append a.back b.back, a.few, b.few);
}

Grows-refl : {p : Partition} {n : ℕ} → p.closed ≡ false → Grows p p n
Grows-refl {p} alive = record {
  open_still = alive;
  same_cap = refl;
  back = [];
  queue = sym (append-nil p.queue);
  few = omega arith;
}

module _ (now : ℕ) where
  -- A due entry goes to the end of the queue.
  expire_due :
      (id : Text) (pd : Pending) (p : Partition)
      → p.closed ≡ false
      → length p.queue + 1 ≤ p.cap
      → lookup id p.pending ≡ some pd
      → ltb pd.deadline now ≡ true
      → (q : Partition) × (expire now id p ≡ some ([], q))
        × Grows p q 1
        × (q.queue ≡ p.queue ++ pd.msg ∷ [])
  unfolding expire
  expire_due id pd p alive room there due =
      let left = delete id (delete id p.pending) in
      let q : Partition = record p { queue = p.queue ++ pd.msg ∷ []; pending = left } in
      (
        q,
        ground arith,
        record {
          open_still = alive;
          same_cap = refl;
          back = pd.msg ∷ [];
          queue = refl;
          few = omega arith;
        },
        refl,
      )

  expire_ends :
      (id : Text) (p : Partition)
      → p.closed ≡ false
      → length p.queue + 1 ≤ p.cap
      → (q : Partition) × (expire now id p ≡ some ([], q)) × Grows p q 1
  expire_ends id p alive room = elim (Option-cases (lookup id p.pending)) [
    | inl absent ↦ (p, unfold expire in ground arith, Grows-refl alive)
    | inr (pd, there) ↦ elim (Bool-cases (ltb pd.deadline now)) [
      | inl due ↦ let (q, e, grows, _) = expire_due id pd p alive room there due in (q, e, grows)
      | inr early ↦ (p, unfold expire in ground arith, Grows-refl alive)
    ]
  ]

  sweep_ends :
      (order : List Text) (p : Partition)
      → p.closed ≡ false
      → length p.queue + length order ≤ p.cap
      → (r : Partition) × (sweep now order p ≡ some ([], r)) × Grows p r (length order)
  unfolding sweep
  sweep_ends [] p alive room = (p, refl, Grows-refl alive)
  sweep_ends (id ∷ order) p alive room =
      let (q, first, one) = expire_ends id p alive (omega arith) in
      let longer = length-append p.queue one.back in
      let longer' = ap length one.queue in
      let (r, rest, more) =
        sweep_ends order q one.open_still (omega (arith, longer, longer', one.few, one.same_cap)) in
      (r, ground arith, Grows-trans one more)

  -- After a tick with room that visits it, a due message is in the queue.
  sweep_requeues :
      (id : Text) (pd : Pending) (order : List Text) (p : Partition)
      → p.closed ≡ false
      → length p.queue + length order ≤ p.cap
      → lookup id p.pending ≡ some pd
      → ltb pd.deadline now ≡ true
      → visits order id ≡ true
      → (r : Partition) × (i : ℕ) × (sweep now order p ≡ some ([], r))
        × Grows p r (length order)
        × (get_elem? r.queue i ≡ some pd.msg)
        × (i < length p.queue + length order)
  unfolding sweep visits
  sweep_requeues id pd [] p alive room there due visited = absurd (ground arith)
  sweep_requeues id pd (k ∷ order) p alive room there due visited = elim (Bool-cases (k == id)) [
    | inl same ↦
        let here : lookup k p.pending ≡ some pd = ground (arith, text_eqb_iff k id) in
        let (q, first, one, at) = expire_due k pd p alive (omega arith) here due in
        let longer = length-append p.queue (pd.msg ∷ []) in
        let longer' = ap length at in
        let (r, rest, more) =
          sweep_ends order q one.open_still (omega (arith, longer, longer', one.same_cap)) in
        let placed : get_elem? q.queue (length p.queue) ≡ some pd.msg =
          ap (λ l. get_elem? l (length p.queue)) at ∙ get_elem?_last p.queue pd.msg in
        (
          r,
          length p.queue,
          ground arith,
          Grows-trans one more,
          ap (λ l. get_elem? l (length p.queue)) more.queue
              ∙ get_elem?_left q.queue more.back (length p.queue) pd.msg placed,
          omega arith,
        )
    | inr other ↦
        let (q, first, one) = expire_ends k p alive (omega arith) in
        let kept : lookup id q.pending ≡ some pd =
          lookup-expire now k id p q [] first
          ∙ ap (remaining now (k == id)) there
          ∙ (unfold remaining in ground arith) in
        let longer = length-append p.queue one.back in
        let longer' = ap length one.queue in
        let (r, i, rest, more, at, early) =
          sweep_requeues id pd order q one.open_still
            (omega (arith, longer, longer', one.few, one.same_cap)) kept due (ground arith) in
        (
          r,
          i,
          ground arith,
          Grows-trans one more,
          at,
          omega (arith, longer, longer', one.few, early),
        )
  ]

get_elem?-fetch_all :
    (q : List Message) (polls : List (Text × ℕ)) (p : Partition) (i : ℕ) (m : Message)
    → p.queue ≡ q
    → p.closed ≡ false
    → get_elem? q i ≡ some m
    → i < length polls
    → get_elem? (fetch_all polls p) i ≡ some (message m)
unfolding fetch_all fetch_and_track
get_elem?-fetch_all [] polls p i m e alive at h = absurd (ground arith)
get_elem?-fetch_all (x ∷ q) [] p i m e alive at h = absurd (omega arith)
get_elem?-fetch_all (x ∷ q) ((group, now) ∷ polls) p zero m e alive at h =
    let next = track x group now (record p { queue = q }) in
    let fetched : fetch_and_track false group now p ≡ (message x, next) = ground arith in
    let same : x ≡ m = ground arith in ap (λ f. some f.0) fetched ∙ ap (λ l. some (message l)) same
get_elem?-fetch_all (x ∷ q) ((group, now) ∷ polls) p (suc i) m e alive at h =
    let next = track x group now (record p { queue = q }) in
    let fetched : fetch_and_track false group now p ≡ (message x, next) = ground arith in
    ap (λ f. get_elem? (fetch_all polls f.1) i) fetched
    ∙ get_elem?-fetch_all q polls next i m (unfold track in refl) (unfold track in alive) at
        (omega arith)

-- A message that no one acknowledges is delivered again: on an open partition, after a tick of
-- the monitor that visits its entry behind the deadline, and that has room in the queue for
-- every entry that it visits, the message is in the queue, nothing is lost, and as many fetches
-- as the queue and the visited entries count deliver it.
pub redelivery :
    (now : ℕ) (id : Text) (pd : Pending) (order : List Text) (polls : List (Text × ℕ))
    (p : Partition)
    → p.closed ≡ false
    → lookup id p.pending ≡ some pd
    → ltb pd.deadline now ≡ true
    → visits order id ≡ true
    → length p.queue + length order ≤ p.cap
    → length p.queue + length order ≤ length polls
    → (r : Partition) × (i : ℕ) × (sweep now order p ≡ some ([], r))
      × (i < length p.queue + length order)
      × (get_elem? (fetch_all polls r) i ≡ some (message pd.msg))
redelivery now id pd order polls p alive there due visited room long =
    let (r, i, swept, grows, at, below) =
      sweep_requeues now id pd order p alive room there due visited in
    (
      r,
      i,
      swept,
      below,
      get_elem?-fetch_all r.queue polls r i pd.msg refl grows.open_still at (omega arith),
    )
