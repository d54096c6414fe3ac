-- ===== src/Tests/Broker.antt =====
-- The broker's registry and handlers, services/msg_queue/main.go, at concrete inputs.
use telemetry_punitha.Prelude.{
  ◌≡◌, refl, ◌⊎◌, true, [], ◌∷◌, ◌++◌, some, Text, codes, text_eq, text_eqb, has_prefix,
}
use telemetry_punitha.Prelude.Int.{ℤ, pos, int_eq}
use telemetry_punitha.Prelude.Map.{Map, lookup}
use telemetry_punitha.Strconv.{atoi}
use telemetry_punitha.MsgQueue.Http.{Request, Response, trim_space}
use telemetry_punitha.MsgQueue.Partition.{Partition, enqueue, ack, try_send}
use telemetry_punitha.MsgQueue.Broker.{Broker, new_broker, get_partition, set_partition}
use telemetry_punitha.MsgQueue.Broker.Registry.{
  find, IsRegistry, new_broker-IsRegistry, get_partition-IsRegistry,
}
use telemetry_punitha.MsgQueue.Handlers.{
  produce_handler, ack_handler, message_of, body_id, payload_of, enqueue_response, produce_to,
}
use telemetry_punitha.MsgQueue.Handlers.Delivery.{
  IsStored, produce_handler_cases, ack_handler_cases,
}
use telemetry_punitha.Tests.Samples.{
  sample_json, sample_broker, sample_env, sample_bodies, sample_call,
}

abbrev fresh_topics : Map Text ℤ
fresh_topics = (codes "events", pos 8) ∷ []

abbrev fresh_broker : Broker
fresh_broker = new_broker fresh_topics 30 (pos 0) (pos 1)

fresh_broker-IsRegistry : IsRegistry fresh_broker
fresh_broker-IsRegistry = new_broker-IsRegistry fresh_topics 30 (pos 0) (pos 1)

get_partition-IsRegistry_example :
    IsRegistry (get_partition sample_env (codes "events") (pos 3) true fresh_broker).1
get_partition-IsRegistry_example =
    get_partition-IsRegistry sample_env (codes "events") (pos 3) fresh_broker true
      fresh_broker-IsRegistry

abbrev sample_request : Request
sample_request = record {
  topic = codes "events";
  partition = codes "1";
  group = codes "g";
  body = some (codes "x");
}

abbrev created : Response
created = record { status = 200; body = codes "{\"id\":\"c\"}" ++ 10 ∷ [] }

answered :
    (produce_handler sample_json sample_bodies sample_call sample_request sample_broker).0
    ≡ some created
unfolding produce_handler produce_to get_partition lookup text_eqb atoi message_of payload_of
    trim_space has_prefix enqueue enqueue_response try_send set_partition
answered = refl

produce_handler_cases_example :
    let after =
      produce_handler sample_json sample_bodies sample_call sample_request sample_broker in
    ((created.status ≡ 400) × (after.1 ≡ sample_broker))
    ⊎ (created.status ≡ 500)
    ⊎ ((part : ℤ) × (body : Text) × (created.status ≡ 200)
        × (atoi (codes "1") ≡ some part)
        × (some (codes "x") ≡ some body)
        × IsStored sample_env
            (codes "events")
            part
            (message_of sample_json sample_bodies sample_call (codes "events") part body)
            sample_broker
            after.1)
produce_handler_cases_example =
    produce_handler_cases sample_json sample_bodies sample_call sample_request sample_broker created
      answered

ack_handler_cases_example :
    let after = ack_handler sample_bodies sample_env sample_request sample_broker in
    ((after.0.status ≡ 400) × (after.1 ≡ sample_broker))
    ⊎ ((part : ℤ) × (id : Text) × (p : Partition) × (after.0.status ≡ 200)
        × (atoi (codes "1") ≡ some part)
        × (body_id sample_bodies (some (codes "x")) ≡ some id)
        × (find (codes "events") part sample_broker ≡ some p)
        × ((ack id (codes "g") p).0 ≡ true)
        × (after.1 ≡ set_partition (codes "events") part (ack id (codes "g") p).1 sample_broker))
ack_handler_cases_example = ack_handler_cases sample_bodies sample_env sample_request sample_broker
