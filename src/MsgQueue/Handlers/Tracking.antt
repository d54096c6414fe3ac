-- ===== src/MsgQueue/Handlers/Tracking.antt =====
-- What the stream of consumeHandler, services/msg_queue/main.go, leaves pending.
use telemetry_punitha.Prelude.{
  ℕ, ◌+◌, ◌<◌, ◌≡◌, ◌≢◌, refl, sym, subst, ◌∙◌, false, List, [], ◌∷◌, some, Text, text_eq,
  text_eqb_iff, length, All, arith,
}
use telemetry_punitha.Prelude.Map.{lookup, lookup-insert}
use telemetry_punitha.MsgQueue.Message.{Message, Codec}
use telemetry_punitha.MsgQueue.Partition.{Partition, Pending, message, fetch_and_track, track}
use telemetry_punitha.MsgQueue.Handlers.{Poll, consume_loop}

-- No two of the messages have one ID.
abbrev pub Distinct : List Message → Type 0
Distinct [] = Unit
Distinct (m ∷ ms) = All (λ (n : Message). n.id ≢ m.id) ms × Distinct ms

-- The message is pending, with a deadline before the time, for the group.
pub record IsPending (now : ℕ) (group : Text) (m : Message) (p : Partition) : Type 0 where
  pub entry : Pending
  pub there : lookup m.id p.pending ≡ some entry
  pub same : entry.msg ≡ m
  pub due : entry.deadline < now

-- What a loop leaves as it is.
pub record Same (p r : Partition) : Type 0 where
  pub empty : r.queue ≡ []
  pub open_still : r.closed ≡ p.closed
  pub same_cap : r.cap ≡ p.cap

-- The client is connected at the poll, and the timeout of what it is given ends before the time.
abbrev pub Stays : ℕ → ℕ → Poll → Type 0
Stays now vis_to poll = (poll.gone ≡ false) × (poll.now + vis_to < now)

module _ (codec : Codec) (group : Text) (now : ℕ) where
  consume_loop_step :
      (m : Message) (ms : List Message) (poll : Poll) (polls : List Poll) (p : Partition)
      → p.queue ≡ m ∷ ms
      → p.closed ≡ false
      → poll.gone ≡ false
      → (consume_loop codec group (poll ∷ polls) p).1
        ≡ (consume_loop codec group polls (track m group poll.now (record p { queue = ms }))).1
  unfolding consume_loop
  consume_loop_step m ms poll polls p e alive stays =
      let next = track m group poll.now (record p { queue = ms }) in
      let got : fetch_and_track poll.done group poll.now p ≡ (message m, next) =
        unfold fetch_and_track in rw (alive, e) refl in
      ground (arith, stays, got)

  track-Same :
      (m : Message) (ms : List Message) (at : ℕ) (p r : Partition)
      → Same (track m group at (record p { queue = ms })) r
      → Same p r
  unfolding track
  track-Same m ms at p r s = record {
    empty = s.empty;
    open_still = s.open_still;
    same_cap = s.same_cap;
  }

  -- An ID that no message of the queue has is looked up as before.
  lookup-consume_loop :
      (id : Text) (ms : List Message) (polls : List Poll) (p : Partition)
      → p.queue ≡ ms
      → p.closed ≡ false
      → length polls ≡ length ms
      → All (Stays now p.vis_to) polls
      → All (λ (n : Message). n.id ≢ id) ms
      → (lookup id (consume_loop codec group polls p).1.pending ≡ lookup id p.pending)
        × Same p (consume_loop codec group polls p).1
  lookup-consume_loop id [] [] p e alive h stays others =
      unfold consume_loop in (refl, record { empty = e; open_still = refl; same_cap = refl })
  lookup-consume_loop id [] (poll ∷ polls) p e alive h stays others = absurd (omega arith)
  lookup-consume_loop id (m ∷ ms) [] p e alive h stays others = absurd (omega arith)
  lookup-consume_loop id (m ∷ ms) (poll ∷ polls) p e alive h (here, stays) (other, others) =
      let next = track m group poll.now (record p { queue = ms }) in
      let step = consume_loop_step m ms poll polls p e alive here.0 in
      let (kept, same) =
        lookup-consume_loop id ms polls next (unfold track in refl) (unfold track in alive)
          (omega arith) (unfold track in stays) others in
      let before : lookup id next.pending ≡ lookup id p.pending =
        unfold track in
        ground (
          arith,
          text_eqb_iff m.id id,
          lookup-insert m.id id (record { msg = m; deadline = poll.now + p.vis_to; group = group })
              p.pending,
        ) in
      subst (λ (r : Partition). (lookup id r.pending ≡ lookup id p.pending) × Same p r) (sym step)
        (kept ∙ before, track-Same m ms poll.now p _ same)

  -- Each message that a stream sends is pending after it.
  pub consume_loop-IsPending :
      (ms : List Message) (polls : List Poll) (p : Partition)
      → p.queue ≡ ms
      → p.closed ≡ false
      → length polls ≡ length ms
      → All (Stays now p.vis_to) polls
      → Distinct ms
      → All (λ (m : Message). IsPending now group m (consume_loop codec group polls p).1) ms
        × Same p (consume_loop codec group polls p).1
  consume_loop-IsPending [] [] p e alive h stays distinct =
      unfold consume_loop in (tt, record { empty = e; open_still = refl; same_cap = refl })
  consume_loop-IsPending [] (poll ∷ polls) p e alive h stays distinct = absurd (omega arith)
  consume_loop-IsPending (m ∷ ms) [] p e alive h stays distinct = absurd (omega arith)
  consume_loop-IsPending (m ∷ ms) (poll ∷ polls) p e alive h (here, stays) (others, distinct) =
      let next = track m group poll.now (record p { queue = ms }) in
      let step = consume_loop_step m ms poll polls p e alive here.0 in
      let now_alive : next.closed ≡ false = unfold track in alive in
      let queue : next.queue ≡ ms = unfold track in refl in
      let rest =
        consume_loop-IsPending ms polls next queue now_alive (omega arith) (unfold track in stays)
          distinct in
      let (kept, same) =
        lookup-consume_loop m.id ms polls next queue now_alive (omega arith) (unfold track in stays)
          others in
      let pd : Pending = record { msg = m; deadline = poll.now + p.vis_to; group = group } in
      let entered : lookup m.id next.pending ≡ some pd =
        unfold track in
        ground (arith, text_eqb_iff m.id m.id, lookup-insert m.id m.id pd p.pending) in
      subst (λ (r : Partition). All (λ (n : Message). IsPending now group n r) (m ∷ ms) × Same p r)
        (sym step)
        (
          (record { entry = pd; there = kept ∙ entered; same = refl; due = here.1 }, rest.0),
          track-Same m ms poll.now p _ same,
        )
