-- ===== src/MsgQueue/Handlers/Delivery.antt =====
-- What the responses of services/msg_queue/main.go's handlers promise.
use telemetry_punitha.Prelude.{
  ◌≡◌, refl, ◌⊎◌, inl, inr, Bool, true, false, ◌&&◌, ◌||◌, [], ◌∷◌, ◌++◌, Option, none, some, Text,
  text_eq, text_eqb_iff, ◌==◌, if◌then◌else◌, ok, err, arith, Option-cases, Bool-cases,
  Result-cases,
}
use telemetry_punitha.Prelude.Int.{ℤ, int_eq, eqb_ℤ_iff}
use telemetry_punitha.Prelude.Map.{lookup, lookup-insert, insert}
use telemetry_punitha.Strconv.{atoi}
use telemetry_punitha.MsgQueue.Message.{Message, Codec}
use telemetry_punitha.MsgQueue.Http.{Request, Response}
use telemetry_punitha.MsgQueue.Partition.{Partition, EnqueueError, enqueue, ack}
use telemetry_punitha.MsgQueue.Broker.{Broker, Env, PartitionError, get_partition, set_partition}
use telemetry_punitha.MsgQueue.Broker.Registry.{
  find, fails, there, creates, get_cases, find-get_partition,
}
use telemetry_punitha.MsgQueue.Handlers.{
  Bodies, ProduceCall, message_of, enqueue_response, produce_to, produce_handler, ack_to,
  ack_handler, body_id,
}

-- A write through the pointer to a registered partition is seen at its place only.
pub find-set_partition :
    (topic : Text) (i : ℤ) (p old : Partition) (b : Broker) (t : Text) (j : ℤ)
    → find topic i b ≡ some old
    → find t j (set_partition topic i p b) ≡ (if topic == t && i == j then some p else find t j b)
find-set_partition topic i p old b t j e = elim (Option-cases (lookup topic b.partitions)) [
  | inl unknown ↦ absurd (unfold find in ground arith)
  | inr (pm, known) ↦
      unfold find set_partition in
      ground (
        arith,
        lookup-insert topic t (insert i p pm) b.partitions,
        lookup-insert i j p pm,
        text_eqb_iff topic t,
      )
]

-- The partition that a successful get returns is registered.
find-get_ok :
    (env : Env) (topic : Text) (i : ℤ) (producing : Bool) (b : Broker) (p : Partition)
    → (get_partition env topic i producing b).0 ≡ ok p
    → find topic i (get_partition env topic i producing b).1 ≡ some p
find-get_ok env topic i producing b p e = ground (
  arith,
  find-get_partition env topic i b producing topic i,
  text_eqb_iff topic topic,
  eqb_ℤ_iff i i,
)

-- A get that fails leaves the broker as it was.
get_failed :
    (env : Env) (topic : Text) (i : ℤ) (producing : Bool) (b : Broker) (e : PartitionError)
    → (get_partition env topic i producing b).0 ≡ err e
    → (get_partition env topic i producing b).1 ≡ b
get_failed env topic i producing b e h = elim (get_cases env topic i b producing) [
  | fails e' same missing ↦ rw same
  | there p same present ↦ rw same
  | creates p pm max made known absent configured below for_produce opened ↦ absurd (ground arith)
]

response_status :
    (id : Text) (failure : Option EnqueueError) (resp : Response)
    → enqueue_response id failure ≡ some resp
    → (resp.status ≡ elim failure [ none ↦ 200 | some e ↦ 500 ])
unfolding enqueue_response
response_status id failure resp h = ground arith

enqueue_accepts :
    (json : Codec) (write_error : Option Text) (m : Message) (p : Partition)
    → (enqueue json write_error m p).0 ≡ none
    → (enqueue json write_error m p).1 ≡ record p { queue = p.queue ++ m ∷ [] }
unfolding enqueue
enqueue_accepts json write_error m p h = ground arith

-- The message is the last in the queue of the partition that was found or made, in the broker `c`.
abbrev pub IsStored : Env → Text → ℤ → Message → Broker → Broker → Type 0
IsStored env topic part m b c =
    (p : Partition) × ((get_partition env topic part true b).0 ≡ ok p)
    × (find topic part c ≡ some (record p { queue = p.queue ++ m ∷ [] }))

module _ (json : Codec) (bodies : Bodies) (call : ProduceCall) where
  produce_to_cases :
      (topic : Text) (part : ℤ) (body : Text) (b : Broker) (resp : Response)
      → (produce_to json bodies call topic part body b).0 ≡ some resp
      → ((resp.status ≡ 400) × ((produce_to json bodies call topic part body b).1 ≡ b))
        ⊎ (resp.status ≡ 500)
        ⊎ ((resp.status ≡ 200)
            × IsStored call.env topic part
                (message_of json bodies call topic part body)
                b
                (produce_to json bodies call topic part body b).1)
  produce_to_cases topic part body b resp h =
      elim (Result-cases (get_partition call.env topic part true b).0) [
        | inl (e, failed) ↦ inl (
          unfold produce_to in ground arith,
          unfold produce_to in ground (arith, get_failed call.env topic part true b e failed),
        )
        | inr (p, got) ↦
            let m = message_of json bodies call topic part body in
            elim (Option-cases (enqueue json call.write_error m p).0) [
              | inl accepted ↦
                  let stored = enqueue_accepts json call.write_error m p accepted in
                  let place =
                    find-set_partition topic part (enqueue json call.write_error m p).1 p
                      (get_partition call.env topic part true b).1 topic part
                      (find-get_ok call.env topic part true b p got) in
                  inr (
                    inr (
                      unfold produce_to in ground (arith, response_status call.new_id none resp),
                      (
                        p,
                        got,
                        unfold produce_to in
                            ground
                              (arith, stored, place, text_eqb_iff topic topic, eqb_ℤ_iff part part),
                      ),
                    ))
              | inr (e, refused) ↦ inr (
                  inl (
                    unfold produce_to in ground (arith, response_status call.new_id (some e) resp)))
            ]
      ]

  -- A response of produceHandler has one of three meanings: 400, and the broker is as before;
  -- 500; or 200, and the message, with the new ID and the payload of the body, is the last in
  -- the queue of the partition that the parameters name.
  pub produce_handler_cases :
      (r : Request) (b : Broker) (resp : Response)
      → (produce_handler json bodies call r b).0 ≡ some resp
      → ((resp.status ≡ 400) × ((produce_handler json bodies call r b).1 ≡ b))
        ⊎ (resp.status ≡ 500)
        ⊎ ((part : ℤ) × (body : Text) × (resp.status ≡ 200)
            × (atoi r.partition ≡ some part)
            × (r.body ≡ some body)
            × IsStored call.env r.topic part
                (message_of json bodies call r.topic part body)
                b
                (produce_handler json bodies call r b).1)
  produce_handler_cases r b resp h = elim (Bool-cases (r.topic == [] || r.partition == [])) [
    | inl missing ↦
        inl (unfold produce_handler in ground arith, unfold produce_handler in ground arith)
    | inr given ↦ elim (Option-cases (atoi r.partition)) [
      | inl bad ↦
          inl (unfold produce_handler in ground arith, unfold produce_handler in ground arith)
      | inr (part, parsed) ↦ elim (Option-cases r.body) [
        | inl unread ↦
            inl (unfold produce_handler in ground arith, unfold produce_handler in ground arith)
        | inr (body, read) ↦
            let same : produce_handler json bodies call r b
                ≡ produce_to json bodies call r.topic part body b =
              unfold produce_handler in ground arith in
            rw same (elim (produce_to_cases r.topic part body b resp (rw same at h)) [
              | inl refused ↦ inl refused
              | inr (inl full) ↦ inr (inl full)
              | inr (inr (accepted, stored)) ↦
                  inr (inr (part, body, accepted, parsed, read, stored))
            ])
      ]
    ]
  ]

ack_to_cases :
    (topic : Text) (part : ℤ) (group : Text) (id : Option Text) (p : Partition) (b : Broker)
    → ((ack_to topic part group id p b).0.status ≡ 400) × ((ack_to topic part group id p b).1 ≡ b)
      ⊎ ((ack_to topic part group id p b).0.status ≡ 200)
        × ((k : Text) × (id ≡ some k)
            × ((ack k group p).0 ≡ true)
            × ((ack_to topic part group id p b).1 ≡ set_partition topic part (ack k group p).1 b))
unfolding ack_to
ack_to_cases topic part group none p b = inl (refl, refl)
ack_to_cases topic part group (some id) p b = elim (Bool-cases (id == [])) [
  | inl empty ↦ inl (ground arith, ground arith)
  | inr given ↦ elim (Bool-cases (ack id group p).0) [
    | inl done ↦ inr (ground arith, (id, refl, done, ground arith))
    | inr refused ↦ inl (ground arith, ground arith)
  ]
]

-- ackHandler answers 400 and changes nothing, or it answers 200, and the partition that the
-- parameters name has acknowledged the ID of the body for the group.
pub ack_handler_cases :
    (bodies : Bodies) (env : Env) (r : Request) (b : Broker)
    → ((ack_handler bodies env r b).0.status ≡ 400) × ((ack_handler bodies env r b).1 ≡ b)
      ⊎ ((part : ℤ) × (id : Text) × (p : Partition) × ((ack_handler bodies env r b).0.status ≡ 200)
          × (atoi r.partition ≡ some part)
          × (body_id bodies r.body ≡ some id)
          × (find r.topic part b ≡ some p)
          × ((ack id r.group p).0 ≡ true)
          × ((ack_handler bodies env r b).1 ≡ set_partition r.topic part (ack id r.group p).1 b))
ack_handler_cases bodies env r b =
    elim (Bool-cases (r.topic == [] || r.partition == [] || r.group == [])) [
      | inl missing ↦ inl (unfold ack_handler in ground arith, unfold ack_handler in ground arith)
      | inr given ↦ elim (Option-cases (atoi r.partition)) [
        | inl bad ↦ inl (unfold ack_handler in ground arith, unfold ack_handler in ground arith)
        | inr (part, parsed) ↦ elim (get_cases env r.topic part b false) [
          | fails e same absent ↦
              inl (unfold ack_handler in ground arith, unfold ack_handler in ground arith)
          | there p same present ↦
              let reach : ack_handler bodies env r b
                  ≡ ack_to r.topic part r.group (body_id bodies r.body) p b =
                unfold ack_handler in ground arith in
              rw reach (elim (ack_to_cases r.topic part r.group (body_id bodies r.body) p b) [
                | inl refused ↦ inl refused
                | inr (accepted, (id, read, done, after)) ↦
                    inr (part, id, p, accepted, parsed, read, present, done, after)
              ])
          | creates p pm max made known absent configured below for_produce opened ↦
              absurd (ground arith)
        ]
      ]
    ]
