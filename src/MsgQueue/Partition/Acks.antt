-- ===== src/MsgQueue/Partition/Acks.antt =====
-- Partition.ack after Partition.fetchAndTrack, services/msg_queue/main.go.
use telemetry_punitha.Prelude.{
  ℕ, ◌+◌, ◌≡◌, Bool, true, false, List, ◌∷◌, Text, arith, text_eq, text_eqb_iff, ◌==◌, ◌&&◌,
  if◌then◌else◌, none,
}
use telemetry_punitha.Prelude.Map.{lookup, lookup-insert, lookup-delete}
use telemetry_punitha.MsgQueue.Message.{Message}
use telemetry_punitha.MsgQueue.Partition.{Partition, fetch_and_track, ack}

-- After a fetch by a group on an open partition with a queued message, an acknowledgement of
-- that message succeeds for this group and for no other.
pub ack-fetch :
    (done : Bool) (group other : Text) (now : ℕ) (p : Partition) (m : Message) (rest : List Message)
    → p.closed ≡ false
    → p.queue ≡ m ∷ rest
    → (ack m.id other (fetch_and_track done group now p).1).0 ≡ (group == other)
unfolding ack fetch_and_track
ack-fetch done group other now p m rest alive e = ground (
  arith,
  lookup-insert m.id m.id (record { msg = m; deadline = now + p.vis_to; group = group }) p.pending,
  text_eqb_iff m.id m.id,
)

-- A message is acknowledged once: after a success every further ack of the ID fails, by any
-- group, and changes nothing.
pub ack-ack :
    (id group other : Text) (p : Partition)
    → (ack id group p).0 ≡ true
    → ack id other (ack id group p).1 ≡ (false, (ack id group p).1)
unfolding ack
ack-ack id group other p h = ground (arith, lookup-delete id id p.pending, text_eqb_iff id id)

-- An ack that fails changes nothing, and one that succeeds removes the entry of its ID alone.
pub lookup-ack :
    (id group k : Text) (p : Partition)
    → (lookup k (ack id group p).1.pending
        ≡ (if (ack id group p).0 && id == k then none else lookup k p.pending))
      × ((ack id group p).1.queue ≡ p.queue)
      × ((ack id group p).1.file ≡ p.file)
unfolding ack
lookup-ack id group k p = ground (arith, lookup-delete id k p.pending)
