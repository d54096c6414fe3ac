-- ===== src/RedisQueue/Delivery.antt =====
-- The two message queues of internal/shared, as the handler sees them.
use telemetry_punitha.Prelude.{
  ℕ, none, ◌≡◌, refl, ap, ◌∙◌, Bool, List, [], ◌∷◌, ◌++◌, map, Text, codes, text_eq, text_eqb,
  if◌then◌else◌, arith,
}
use telemetry_punitha.Prelude.Map.{lookup}
use telemetry_punitha.MsgQueue.Message.{Message, Codec}
use telemetry_punitha.HttpQueue.{HttpMessageQueue, JsonMap, ack_url}
use telemetry_punitha.HttpQueue.Delivery.{handle_all}
use telemetry_punitha.HttpQueue.Subscribing.{
  Attempt, Session, consume_from_partition, consume_from_partition_lem,
}
use telemetry_punitha.RedisQueue.{
  XMessage, Reply, nothing, streams, returns, value_of, handle_messages, handle_streams, subscribe,
}

-- The entry that Publish adds for a message's topic and payload, under the message's ID.
abbrev pub entry_of : Message → XMessage
entry_of m = record {
  id = m.id;
  values = (codes "topic", m.topic) ∷ (codes "body", m.payload) ∷ [];
}

-- The acknowledgement that the HTTP client posts for a message.
abbrev pub ack_of : JsonMap → HttpMessageQueue → Message → Text × Text
ack_of json h m = (ack_url h m.topic m.partition, json.entry (codes "id") m.id)

map_append : {A B : Type 0} (f : A → B) (xs ys : List A) → map f (xs ++ ys) ≡ map f xs ++ map f ys
map_append f [] ys = refl
map_append f (x ∷ xs) ys = ap (λ l. f x ∷ l) (map_append f xs ys)

abbrev pub joined : List (List Message) → List Message
joined [] = []
joined (ms ∷ more) = ms ++ joined more

-- The messages of some replies, none of which is an error.
pub data Batches : List Reply → List Message → Type 0 where
  no_reply : Batches [] []
  idle :
      {replies : List Reply} {ms : List Message}
      → Batches replies ms
      → Batches (nothing ∷ replies) ms
  batch :
      {replies : List Reply} {ms : List Message} (sent : List (List Message))
      → Batches replies ms
      → Batches (streams (map (map entry_of) sent) ∷ replies) (joined sent ++ ms)

module _ {ℓ} {S : Type ℓ} (handler : S → Text → Text → Text → Bool × S) where
  -- The messages handled one after another: those that the handler takes, and its state.
  unfoldable pub taken : List Message → S → List Message × S
  taken [] state = ([], state)
  taken (m ∷ ms) state =
      let (success, after) = handler state m.topic m.payload m.id in
      let (more, last) = taken ms after in (if success then m ∷ more else more, last)

  taken-append :
      (ms ns : List Message) (state : S)
      → taken (ms ++ ns) state
        ≡ ((taken ms state).0 ++ (taken ns (taken ms state).1).0, (taken ns (taken ms state).1).1)
  unfolding taken
  taken-append [] ns state = refl
  taken-append (m ∷ ms) ns state =
      ground (arith, taken-append ms ns (handler state m.topic m.payload m.id).1)

  ids_of : List Message → S → List Text × S
  ids_of ms state = let (kept, last) = taken ms state in (map (λ m. m.id) kept, last)

  ids_of-append :
      (ms ns : List Message) (state : S)
      → ids_of (ms ++ ns) state ≡ (
        (ids_of ms state).0 ++ (ids_of ns (ids_of ms state).1).0,
        (ids_of ns (ids_of ms state).1).1,
      )
  unfolding ids_of
  ids_of-append ms ns state = rw (taken-append ms ns state) (
      ground (
        arith,
        map_append (λ (m : Message). m.id) (taken ms state).0 (taken ns (taken ms state).1).0,
      ))

  handle_messages_lem :
      (ms : List Message) (state : S)
      → handle_messages handler (map entry_of ms) state ≡ ids_of ms state
  unfolding handle_messages ids_of taken value_of lookup text_eqb
  handle_messages_lem [] state = refl
  handle_messages_lem (m ∷ ms) state =
      ground (arith, handle_messages_lem ms (handler state m.topic m.payload m.id).1)

  handle_streams_lem :
      (sent : List (List Message)) (state : S)
      → handle_streams handler (map (map entry_of) sent) state ≡ ids_of (joined sent) state
  unfolding handle_streams
  handle_streams_lem [] state = unfold ids_of in unfold taken in refl
  handle_streams_lem (ms ∷ sent) state = ground (
    arith,
    handle_messages_lem ms state,
    handle_streams_lem sent (ids_of ms state).1,
    ids_of-append ms (joined sent) state,
  )

  subscribe_lem :
      {replies : List Reply} {ms : List Message} (state : S)
      → Batches replies ms
      → subscribe handler replies state ≡ (returns _, ids_of ms state)
  unfolding subscribe
  subscribe_lem state no_reply = unfold ids_of in unfold taken in refl
  subscribe_lem state (idle b) = subscribe_lem state b
  subscribe_lem state (batch {ms} sent b) = ground (
    arith,
    handle_streams_lem sent state,
    subscribe_lem (ids_of (joined sent) state).1 b,
    ids_of-append (joined sent) ms state,
  )

  handle_all-taken :
      (codec : Codec) (json : JsonMap) (h : HttpMessageQueue) (ms : List Message) (state : S)
      → handle_all codec json h handler ms state
        ≡ (map (ack_of json h) (taken ms state).0, (taken ms state).1)
  unfolding handle_all taken
  handle_all-taken codec json h [] state = refl
  handle_all-taken codec json h (m ∷ ms) state =
      ground (arith, handle_all-taken codec json h ms (handler state m.topic m.payload m.id).1)

  -- The two queues serve a handler alike: over the same messages, in whatever batches Redis
  -- gives them as long as no read fails, and over whatever connections the HTTP client gets
  -- them, the two clients leave the handler in the same state and acknowledge the same messages,
  -- those that it takes, in the same order. The messages of each stream are streamable.
  pub subscribe-consume_from_partition :
      (codec : Codec) (json : JsonMap) (h : HttpMessageQueue) (buffer : ℕ) {replies : List Reply}
      {attempts : List Attempt} {ms : List Message} (state : S)
      → Batches replies ms
      → Session codec buffer attempts ms
      → (subscribe handler replies state
          ≡ (returns _, (map (λ (m : Message). m.id) (taken ms state).0, (taken ms state).1)))
        × (consume_from_partition codec json h handler buffer attempts state
            ≡ (none, (map (ack_of json h) (taken ms state).0, (taken ms state).1)))
  subscribe-consume_from_partition codec json h buffer {ms} state b session = (
    subscribe_lem state b ∙ (unfold ids_of in refl),
    consume_from_partition_lem codec json h handler buffer state session
        ∙ ap (λ r. (none, r)) (handle_all-taken codec json h ms state),
  )
