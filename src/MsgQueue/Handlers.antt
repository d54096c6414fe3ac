-- ===== src/MsgQueue/Handlers.antt =====
-- The handlers of services/msg_queue/main.go. A panic in a handler ends its request with no
-- response: `none`.
pub mod Delivery
pub mod Tracking
use telemetry_punitha.Prelude.{
  ℕ, ◌≡◌, Bool, true, false, ◌||◌, List, [], ◌∷◌, ◌++◌, Option, none, some, Text, codes, text_eq,
  ◌==◌, has_prefix, if◌then◌else◌, Result, ok, err,
}
use telemetry_punitha.Prelude.Int.{ℤ}
use telemetry_punitha.Strconv.{atoi, itoa}
use telemetry_punitha.MsgQueue.Message.{Message, Codec}
use telemetry_punitha.MsgQueue.Http.{Request, Response, newline, http_error, trim_space}
use telemetry_punitha.MsgQueue.Partition.{
  Partition, EnqueueError, full_persisted, full_persist_failed, enqueue_panics, enqueue, Fetched,
  message, failed, partition_closed, no_messages, fetch_and_track, ack,
}
use telemetry_punitha.MsgQueue.Broker.{
  Broker, Env, PartitionError, error_text, get_partition, set_partition,
}

-- What the handlers take from encoding/json beside the messages: the fields "payload" and "id" of
-- an object, or the error.
pub record Bodies : Type 0 where
  pub payload_field : Text → Option Text
  pub id_field : Text → Option Text

-- What one call of produceHandler gets from outside: newPartition's, the outcome of a write to the
-- log, the random ID and the time.
pub record ProduceCall : Type 0 where
  pub env : Env
  pub write_error : Option Text
  pub new_id : Text
  pub now : ℕ

-- The payload of a body: its text, or the field "payload" of a JSON object.
unfoldable pub payload_of : Bodies → Text → Text
payload_of bodies body =
    let payload = trim_space body in
    if has_prefix payload (codes "{")
    then elim (bodies.payload_field payload) [
      | none ↦ payload
      | some inner ↦ if inner == [] then payload else inner
    ]
    else payload

-- The response to an enqueue: the message's ID as JSON, or the error.
unfoldable pub enqueue_response : Text → Option EnqueueError → Option Response
enqueue_response id none =
    some
      (record { status = 200; body = codes "{\"id\":\"" ++ (id ++ (codes "\"}" ++ newline ∷ [])) })
enqueue_response id (some (full_persisted n)) = some (
    http_error 500 (
      codes "enqueue failed: queue full ("
      ++ (itoa (ℤ.pos n) ++ codes " messages), message persisted as fallback")))
enqueue_response id (some (full_persist_failed e)) =
    some (http_error 500 (codes "enqueue failed: queue full and persistence failed: " ++ e))
enqueue_response id (some enqueue_panics) = none

module _ (json : Codec) (bodies : Bodies) where
  unfoldable pub message_of : ProduceCall → Text → ℤ → Text → Message
  unfolding payload_of
  message_of call topic part body = record {
    id = call.new_id;
    payload = payload_of bodies body;
    created_at = call.now;
    topic = topic;
    partition = part;
  }

  -- The part behind the checks of the parameters.
  unfoldable pub produce_to : ProduceCall → Text → ℤ → Text → Broker → Option Response × Broker
  produce_to call topic part body b =
      let (found, c) = get_partition call.env topic part true b in
      elim found [
        | err e ↦ (some (http_error 400 (error_text e)), c)
        | ok p ↦
            let (failure, q) = enqueue json call.write_error (message_of call topic part body) p in
            (enqueue_response call.new_id failure, set_partition topic part q c)
      ]

  unfoldable pub produce_handler : ProduceCall → Request → Broker → Option Response × Broker
  unfolding produce_to
  produce_handler call r b =
      if r.topic == [] || r.partition == []
      then (some (http_error 400 (codes "topic and partition required")), b)
      else elim (atoi r.partition) [
        | none ↦ (some (http_error 400 (codes "bad partition")), b)
        | some part ↦ elim r.body [
          | none ↦ (some (http_error 400 (codes "read body error")), b)
          | some body ↦ produce_to call r.topic part body b
        ]
      ]

-- One round of consumeHandler's loop: whether the client is gone, the choice of fetchAndTrack's
-- `select`, and the time.
pub record Poll : Type 0 where
  pub gone : Bool
  pub done : Bool
  pub now : ℕ

module _ (json : Codec) where
  -- A message as a server-sent event.
  unfoldable pub event : Message → Text
  event m =
      codes "id: "
      ++ (m.id
          ++ (newline
              ∷ (codes "data: "
                  ++ (json.marshal m
                      ++ (newline
                          ∷ (codes "partition: "
                              ++ (itoa m.partition ++ newline ∷ newline ∷ [])))))))

  -- The loop over some polls: what is written to the client, and the partition.
  unfoldable pub consume_loop : Text → List Poll → Partition → Text × Partition
  consume_loop group [] p = ([], p)
  consume_loop group (poll ∷ polls) p = elim poll.gone [
    | true ↦ ([], p)
    | false ↦
        let (fetched, q) = fetch_and_track poll.done group poll.now p in
        elim fetched [
          | message m ↦ let (out, r) = consume_loop group polls q in (event m ++ out, r)
          | failed e ↦ elim e [
            | no_messages ↦ consume_loop group polls q
            | partition_closed ↦ ([], q)
          ]
        ]
  ]

  -- The error response, or the events of the stream.
  unfoldable pub consume_handler :
      Env → List Poll → Request → Broker → Result Response Text × Broker
  consume_handler env polls r b =
      if r.topic == [] || r.partition == [] || r.group == []
      then (err (http_error 400 (codes "topic, partition and group required")), b)
      else elim (atoi r.partition) [
        | none ↦ (err (http_error 400 (codes "bad partition")), b)
        | some part ↦
            let (found, c) = get_partition env r.topic part false b in
            elim found [
              | err e ↦ (err (http_error 400 (error_text e)), c)
              | ok p ↦
                  let (out, q) = consume_loop r.group polls p in
                  (ok out, set_partition r.topic part q c)
            ]
      ]

-- The part of ackHandler behind the look-up of the partition; `id` is the decoded body.
unfoldable pub ack_to : Text → ℤ → Text → Option Text → Partition → Broker → Response × Broker
ack_to topic part group none p b = (http_error 400 (codes "bad body"), b)
ack_to topic part group (some id) p b =
    if id == []
    then (http_error 400 (codes "bad body"), b)
    else (let (done, q) = ack id group p in
        if done
        then (record { status = 200; body = codes "ok" }, set_partition topic part q b)
        else (http_error 400 (codes "ack failed (unknown id or wrong group)"), b))

-- The decoded ID of a body that could be read.
unfoldable pub body_id : Bodies → Option Text → Option Text
body_id bodies none = none
body_id bodies (some body) = bodies.id_field body

unfoldable pub ack_handler : Bodies → Env → Request → Broker → Response × Broker
unfolding body_id ack_to
ack_handler bodies env r b =
    if r.topic == [] || r.partition == [] || r.group == []
    then (http_error 400 (codes "topic, partition and group required"), b)
    else elim (atoi r.partition) [
      | none ↦ (http_error 400 (codes "bad partition"), b)
      | some part ↦
          let (found, c) = get_partition env r.topic part false b in
          elim found [
            | err e ↦ (http_error 400 (error_text e), c)
            | ok p ↦ ack_to r.topic part r.group (body_id bodies r.body) p c
          ]
    ]
