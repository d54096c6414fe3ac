-- ===== src/MsgQueue/Partition/Fifo.antt =====
-- The order of delivery of a Partition, services/msg_queue/main.go.
use mathlib.Core.List.{append_assoc, append-nil}
use telemetry_punitha.Prelude.{
  ℕ, ◌+◌, ◌≤◌, ◌≡◌, refl, ap, ◌∙◌, sym, false, List, [], ◌∷◌, ◌++◌, map, none, Text, arith, length,
  length-append,
}
use telemetry_punitha.MsgQueue.Message.{Message, Codec}
use telemetry_punitha.MsgQueue.Partition.{
  Partition, Fetched, message, enqueue, fetch_and_track, track,
}

-- One enqueue after the other.
unfoldable pub enqueue_all : Codec → List Message → Partition → Partition
enqueue_all json [] p = p
enqueue_all json (m ∷ ms) p = enqueue_all json ms (enqueue json none m p).1

-- One fetch after the other, by several consumer groups at several times.
unfoldable pub fetch_all : List (Text × ℕ) → Partition → List Fetched
fetch_all [] p = []
fetch_all ((group, now) ∷ polls) p =
    (fetch_and_track false group now p).0 ∷ fetch_all polls (fetch_and_track false group now p).1

enqueue_room :
    (json : Codec) (m : Message) (p : Partition)
    → p.closed ≡ false
    → length p.queue + 1 ≤ p.cap
    → (enqueue json none m p).1 ≡ record p { queue = p.queue ++ m ∷ [] }
unfolding enqueue
enqueue_room json m p alive h = ground arith

queue-enqueue_all :
    (json : Codec) (ms : List Message) (p : Partition)
    → p.closed ≡ false
    → length p.queue + length ms ≤ p.cap
    → enqueue_all json ms p ≡ record p { queue = p.queue ++ ms }
unfolding enqueue_all
queue-enqueue_all json [] p alive h = ap (λ q. record p { queue = q }) (sym (append-nil p.queue))
queue-enqueue_all json (m ∷ ms) p alive h =
    let sent : Partition = record p { queue = p.queue ++ m ∷ [] } in
    ap (enqueue_all json ms) (enqueue_room json m p alive (omega arith))
    ∙ queue-enqueue_all json ms sent alive (omega (arith, length-append p.queue (m ∷ [])))
    ∙ ap (λ q. record p { queue = q }) (append_assoc p.queue (m ∷ []) ms)

fetch_all-queue :
    (q : List Message) (polls : List (Text × ℕ)) (p : Partition)
    → p.queue ≡ q
    → p.closed ≡ false
    → length polls ≡ length q
    → fetch_all polls p ≡ map message q
unfolding fetch_all fetch_and_track
fetch_all-queue [] [] p e alive h = refl
fetch_all-queue [] (poll ∷ polls) p e alive h = absurd (omega arith)
fetch_all-queue (m ∷ q) [] p e alive h = absurd (omega arith)
fetch_all-queue (m ∷ q) ((group, now) ∷ polls) p e alive h =
    let fetched : fetch_and_track false group now p
        ≡ (message m, track m group now (record p { queue = q })) =
      ground arith in
    rw fetched (
      ap (λ r. message m ∷ r)
        (fetch_all-queue q polls (track m group now (record p { queue = q })) (unfold track in refl)
          (unfold track in alive) (omega arith)))

-- On an open partition whose capacity suffices, as many fetches as there are messages give them
-- in the order in which they went in, behind those that were queued before, to whichever groups
-- ask.
pub fetch_all-enqueue_all :
    (json : Codec) (ms : List Message) (polls : List (Text × ℕ)) (p : Partition)
    → p.closed ≡ false
    → length p.queue + length ms ≤ p.cap
    → length polls ≡ length p.queue + length ms
    → fetch_all polls (enqueue_all json ms p) ≡ map message (p.queue ++ ms)
fetch_all-enqueue_all json ms polls p alive room h = rw (queue-enqueue_all json ms p alive room) (
    fetch_all-queue (p.queue ++ ms) polls (record p { queue = p.queue ++ ms }) refl alive
      (omega (arith, length-append p.queue ms)))
