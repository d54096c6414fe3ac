-- ===== src/MsgQueue/Partition/Timeouts.antt =====
-- The ticks of Partition.monitorPending, services/msg_queue/main.go.
use telemetry_punitha.Prelude.{
  ℕ, ◌+◌, ◌≤◌, ◌≡◌, ap, ◌∙◌, Bool, false, ◌&&◌, ◌||◌, List, [], ◌∷◌, ◌++◌, Option, none, some, Text,
  arith, text_eq, text_eqb_iff, ◌==◌, ltb, if◌then◌else◌, length, length-append, Option-cases, inl,
  inr,
}
use telemetry_punitha.Prelude.Map.{lookup, lookup-delete, delete}
use telemetry_punitha.MsgQueue.Message.{Message}
use telemetry_punitha.MsgQueue.Partition.{Partition, Pending, expire, sweep}

unfoldable pub visits : List Text → Text → Bool
visits [] k = false
visits (id ∷ order) k = id == k || visits order k

-- What the pending map holds of an ID after a tick that visits it, or not.
unfoldable pub remaining : ℕ → Bool → Option Pending → Option Pending
remaining now visited none = none
remaining now visited (some pd) = if visited && ltb pd.deadline now then none else some pd

pub lookup-expire :
    (now : ℕ) (id k : Text) (p q : Partition) (lost : List Message)
    → expire now id p ≡ some (lost, q)
    → lookup k q.pending ≡ remaining now (id == k) (lookup k p.pending)
unfolding expire remaining
lookup-expire now id k p q lost e = ground (
  arith,
  lookup-delete id k p.pending,
  lookup-delete id k (delete id p.pending),
  text_eqb_iff id k,
)

remaining-remaining :
    (now : ℕ) (a b : Bool) (o : Option Pending)
    → remaining now b (remaining now a o) ≡ remaining now (a || b) o
unfolding remaining
remaining-remaining now a b o = ground arith

sweep-eq-some :
    (now : ℕ) (id : Text) (order : List Text) (p r : Partition) (lost : List Message)
    → sweep now (id ∷ order) p ≡ some (lost, r)
    → (xs ys : List Message) × (q : Partition) × (expire now id p ≡ some (xs, q))
      × (sweep now order q ≡ some (ys, r))
      × (lost ≡ xs ++ ys)
unfolding sweep
sweep-eq-some now id order p r lost e = elim (Option-cases (expire now id p)) [
  | inl none_first ↦ absurd (ground arith)
  | inr ((xs, q), first) ↦ elim (Option-cases (sweep now order q)) [
    | inl none_next ↦ absurd (ground arith)
    | inr ((ys, r'), rest) ↦ (xs, ys, q, first, ground arith, ground arith)
  ]
]

-- A tick that does not panic removes from the pending map the entries that it visits and whose
-- deadline has passed, and no other entry.
pub lookup-sweep :
    (now : ℕ) (order : List Text) (k : Text) (p r : Partition) (lost : List Message)
    → sweep now order p ≡ some (lost, r)
    → lookup k r.pending ≡ remaining now (visits order k) (lookup k p.pending)
unfolding sweep visits
lookup-sweep now [] k p r lost e = unfold remaining in ground arith
lookup-sweep now (id ∷ order) k p r lost e =
    let (xs, ys, q, first, rest, _) = sweep-eq-some now id order p r lost e in
    lookup-sweep now order k q r ys rest
    ∙ ap (remaining now (visits order k)) (lookup-expire now id k p q xs first)
    ∙ remaining-remaining now (id == k) (visits order k) (lookup k p.pending)

expire_room :
    (now : ℕ) (id : Text) (p q : Partition) (lost : List Message)
    → expire now id p ≡ some (lost, q)
    → length p.queue + 1 ≤ p.cap
    → (lost ≡ []) × (q.cap ≡ p.cap) × (length q.queue ≤ length p.queue + 1)
unfolding expire
expire_room now id p q lost e h = elim (Option-cases (lookup id p.pending)) [
  | inl absent ↦ ground arith
  | inr (pd, present) ↦ ground (arith, length-append p.queue (pd.msg ∷ []))
]

-- A tick that does not panic, and that finds room in the queue for every entry that it visits,
-- loses nothing.
pub sweep_lossless :
    (now : ℕ) (order : List Text) (p r : Partition) (lost : List Message)
    → sweep now order p ≡ some (lost, r)
    → length p.queue + length order ≤ p.cap
    → lost ≡ []
unfolding sweep
sweep_lossless now [] p r lost e h = ground arith
sweep_lossless now (id ∷ order) p r lost e h =
    let (xs, ys, q, first, rest, parts) = sweep-eq-some now id order p r lost e in
    let (none_lost, same, grown) = expire_room now id p q xs first (omega arith) in
    let more = sweep_lossless now order q r ys rest (omega arith) in ground arith
