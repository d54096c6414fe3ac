-- ===== src/RedisQueue.antt =====
-- The type RedisStreamQueue of internal/shared/redis_stream_queue.go.
pub mod Delivery
use telemetry_punitha.Prelude.{
  ℕ, Bool, true, false, List, [], ◌∷◌, ◌++◌, Option, none, some, Text, codes, text_eq,
  if◌then◌else◌, Result, ok, err,
}
use telemetry_punitha.Prelude.Map.{Map, lookup}

pub record RedisStreamQueue : Type 0 where
  pub addr : Text
  pub stream : Text
  pub group : Text
  pub name : Text

-- The calls of the Redis client, with the server's state: XAdd, whose result is the ID or the
-- error, and XGroupCreateMkStream, whose error is dropped.
pub record RedisClient : Type 1 where
  pub Server : Type 0
  pub x_add : Text → Map Text Text → Server → Result Text Text × Server
  pub x_group_create : Text → Text → Text → Server → Server

-- A call that returns, or log.Fatalf, which ends the process with a message.
pub data Exit (A : Type 0) : Type 0 where
  returns : A → Exit A
  exits : Text → Exit A

module _ (redis : RedisClient) where
  open redis use {Server, x_add, x_group_create}

  unfoldable pub new_redis_stream_queue :
      Text → Text → Text → Text → Server → RedisStreamQueue × Server
  new_redis_stream_queue addr stream group name server = (
    record { addr = addr; stream = stream; group = group; name = name },
    x_group_create stream group (codes "$") server,
  )

  -- A publish that returns returns nil.
  unfoldable pub publish : RedisStreamQueue → Text → Text → Server → Exit (Option Text) × Server
  publish q topic body server =
      let (added, after) =
        x_add q.stream ((codes "topic", topic) ∷ (codes "body", body) ∷ []) server in
      elim added [
        | err e ↦ (exits (codes "xadd failed: " ++ e), after)
        | ok id ↦ (returns none, after)
      ]

-- An entry of a stream, with its fields, which are strings.
pub record XMessage : Type 0 where
  pub id : Text
  pub values : Map Text Text

-- topic, _ := msg.Values[key].(string)
unfoldable pub value_of : Text → XMessage → Text
value_of key msg = elim (lookup key msg.values) [ none ↦ [] | some s ↦ s ]

-- What one call of XReadGroup gives: nothing in five seconds (redis.Nil), the entries of each
-- stream, or an error.
pub data Reply : Type 0 where
  nothing : Reply
  streams : List (List XMessage) → Reply
  failed : Text → Reply

-- The two loops over the messages: the IDs that were acknowledged by XAck, whose error is
-- dropped, and the handler's state.
module _ {ℓ} {S : Type ℓ} (handler : S → Text → Text → Text → Bool × S) where
  unfoldable pub handle_messages : List XMessage → S → List Text × S
  handle_messages [] state = ([], state)
  handle_messages (msg ∷ msgs) state =
      let (success, after) =
        handler state (value_of (codes "topic") msg) (value_of (codes "body") msg) msg.id in
      let (more, last) = handle_messages msgs after in
      (if success then msg.id ∷ more else more, last)

  unfoldable pub handle_streams : List (List XMessage) → S → List Text × S
  handle_streams [] state = ([], state)
  handle_streams (msgs ∷ others) state =
      let (acked, after) = handle_messages msgs state in
      let (more, last) = handle_streams others after in (acked ++ more, last)

  -- Subscribe, over the replies so far: whether the process has ended, the IDs, and the state.
  unfoldable pub subscribe : List Reply → S → Exit Unit × (List Text × S)
  subscribe [] state = (returns _, ([], state))
  subscribe (nothing ∷ replies) state = subscribe replies state
  subscribe (failed e ∷ replies) state = (exits (codes "xreadgroup failed: " ++ e), ([], state))
  subscribe (streams msgs ∷ replies) state =
      let (acked, after) = handle_streams msgs state in
      let (ended, (more, last)) = subscribe replies after in (ended, (acked ++ more, last))
