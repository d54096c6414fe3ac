-- ===== src/Pipeline/Broken.antt =====
-- A connection that breaks while the broker streams messages to a consumer.
use telemetry_punitha.Prelude.{
  ℕ, ◌≤◌, ◌<◌, ◌≡◌, ◌≢◌, refl, sym, subst, ap, ◌∙◌, inl, inr, Bool, true, false, List, [], ◌∷◌,
  ◌++◌, some, Text, text_eq, text_eqb_iff, length, get_elem?, All, All-split, All-Has, All-imp, Has,
  lt→ltb, arith,
}
use telemetry_punitha.Prelude.Map.{lookup, lookup-delete}
use telemetry_punitha.MsgQueue.Message.{Message, Codec}
use telemetry_punitha.MsgQueue.Partition.{Partition, message, ack, sweep}
use telemetry_punitha.MsgQueue.Partition.Timeouts.{visits}
use telemetry_punitha.MsgQueue.Partition.Redelivery.{redelivery}
use telemetry_punitha.MsgQueue.Partition.Fifo.{fetch_all}
use telemetry_punitha.MsgQueue.Handlers.{Poll, consume_loop}
use telemetry_punitha.MsgQueue.Handlers.Tracking.{
  Distinct, Stays, IsPending, consume_loop-IsPending,
}
use telemetry_punitha.HttpQueue.{HttpMessageQueue, JsonMap, scan}
use telemetry_punitha.HttpQueue.Lines.{scan_lines}
use telemetry_punitha.HttpQueue.Stream.{IsStreamable}
use telemetry_punitha.HttpQueue.Delivery.{handle_all}
use telemetry_punitha.HttpQueue.Cut.{Arrived, scan-Arrived}

-- The acknowledgements of some messages.
unfoldable pub ack_all : Text → List Message → Partition → Partition
ack_all group [] p = p
ack_all group (m ∷ ms) p = ack_all group ms (ack m.id group p).1

Distinct-append :
    (ms ns : List Message) (m n : Message)
    → Distinct (ms ++ ns)
    → Has m ms
    → Has n ns
    → m.id ≡ n.id
    → ⊥
Distinct-append [] ns m n d hm hn e = absurd hm
Distinct-append (x ∷ ms) ns m n (others, d) (inl same) hn e =
    All-Has (λ (k : Message). k.id ≢ x.id) ns n (All-split _ ms ns others).1 hn
      (sym e ∙ ap (λ (k : Message). k.id) (sym same))
Distinct-append (x ∷ ms) ns m n (others, d) (inr later) hn e =
    Distinct-append ms ns m n d later hn e

ack_other :
    (group id : Text) (m : Message) (p : Partition)
    → m.id ≢ id
    → let r = (ack m.id group p).1 in
      (lookup id r.pending ≡ lookup id p.pending)
      × (r.queue ≡ p.queue)
      × (r.closed ≡ p.closed)
      × (r.cap ≡ p.cap)
unfolding ack
ack_other group id m p other = ground (arith, lookup-delete m.id id p.pending, text_eqb_iff m.id id)

-- Acknowledgements of other messages leave an entry, and the rest of the partition.
lookup-ack_all :
    (group id : Text) (acked : List Message) (p : Partition)
    → All (λ (m : Message). m.id ≢ id) acked
    → let r = ack_all group acked p in
      (lookup id r.pending ≡ lookup id p.pending)
      × (r.queue ≡ p.queue)
      × (r.closed ≡ p.closed)
      × (r.cap ≡ p.cap)
unfolding ack_all
lookup-ack_all group id [] p others = (refl, refl, refl, refl)
lookup-ack_all group id (m ∷ acked) p (other, others) =
    let (there, queue, alive, room) = ack_other group id m p other in
    let (there', queue', alive', room') =
      lookup-ack_all group id acked (ack m.id group p).1 others in
    (there' ∙ there, queue' ∙ queue, alive' ∙ alive, room' ∙ room)

module _ {ℓ} {S : Type ℓ} (codec : Codec) (json : JsonMap) (h : HttpMessageQueue)
    (handler : S → Text → Text → Text → Bool × S) where
  -- A connection that breaks anywhere in the stream loses nothing: the client handles exactly
  -- the messages whose events arrived whole; and every other message of the queue, whichever of
  -- the arrived ones are acknowledged, is back in the queue after a tick of the monitor that
  -- visits its entry, and one of as many fetches as the tick visits entries delivers it. The
  -- partition is open and had its client connected for as many polls as messages wait, the
  -- deadlines lie before the tick's time, the messages are streamable with distinct IDs, and the
  -- tick visits no more entries than the queue has room.
  pub broken_redelivered :
      (buffer now : ℕ) (group arrived : Text) (polls : List Poll) (p : Partition) (state : S)
      (acked : List Message) (m : Message) (order : List Text) (fetches : List (Text × ℕ))
      → p.closed ≡ false
      → length polls ≡ length p.queue
      → All (Stays now p.vis_to) polls
      → All (IsStreamable codec buffer) p.queue
      → Distinct p.queue
      → (a : Arrived codec p.queue arrived) → All (λ (n : Message). Has n a.complete) acked
      → Has m a.open'
      → visits order m.id ≡ true
      → length order ≤ p.cap
      → length order ≤ length fetches
      → (scan codec json h handler buffer (scan_lines arrived) [] [] state
          ≡ handle_all codec json h handler a.complete state)
        × ((r : Partition) × (i : ℕ) × (sweep now order
                (ack_all group acked (consume_loop codec group polls p).1)
              ≡ some ([], r))
            × (i < length order)
            × (get_elem? (fetch_all fetches r) i ≡ some (message m)))
  broken_redelivered buffer now group arrived polls p state acked m order fetches alive turns stays
        good distinct a taken unread visited room long =
      let q = (consume_loop codec group polls p).1 in
      let (sent, same) =
        consume_loop-IsPending codec group now p.queue polls p refl alive turns stays distinct in
      let waits : IsPending now group m q =
        All-Has (λ (n : Message). IsPending now group n q) a.open' m
          (All-split (λ (n : Message). IsPending now group n q) a.complete a.open'
            (subst (All (λ (n : Message). IsPending now group n q)) a.all sent)).1
          unread in
      let others : All (λ (n : Message). n.id ≢ m.id) acked =
        All-imp (λ (n : Message). Has n a.complete) (λ (n : Message). n.id ≢ m.id) acked
          (λ n there.
            Distinct-append a.complete a.open' n m (subst Distinct a.all distinct) there unread)
          taken in
      let (there, queue, open_still, cap) = lookup-ack_all group m.id acked q others in
      let none_queued : length (ack_all group acked q).queue ≡ 0 = ap length (queue ∙ same.empty) in
      let (r, i, swept, below, got) =
        redelivery now m.id waits.entry order fetches (ack_all group acked q)
          (open_still ∙ same.open_still ∙ alive) (there ∙ waits.there)
          (lt→ltb waits.entry.deadline now waits.due) visited
          (omega (arith, none_queued, cap, same.same_cap)) (omega (arith, none_queued)) in
      (
        scan-Arrived codec json h handler buffer p.queue arrived state good a,
        (r, i, swept, omega (arith, none_queued), got ∙ ap (λ n. some (message n)) waits.same),
      )
