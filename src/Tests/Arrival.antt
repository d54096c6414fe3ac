-- ===== src/Tests/Arrival.antt =====
-- A row on its way through the broker and the collector, at a concrete input.
use telemetry_punitha.Prelude.{
  ◌≡◌, refl, sym, ap, List, [], ◌∷◌, ◌++◌, some, codes, text_eq, text_eqb, arith, mentions,
  has_prefix,
}
use telemetry_punitha.Prelude.Int.{pos, int_eq}
use telemetry_punitha.Prelude.Map.{lookup}
use telemetry_punitha.Strconv.{itoa, itoa_ℕ}
use telemetry_punitha.MsgQueue.Message.{Message, Codec}
use telemetry_punitha.MsgQueue.Http.{trim_space}
use telemetry_punitha.MsgQueue.Partition.{Partition}
use telemetry_punitha.MsgQueue.Broker.{Broker, get_partition}
use telemetry_punitha.MsgQueue.Broker.Registry.{find}
use telemetry_punitha.MsgQueue.Handlers.{message_of, payload_of, consume_loop}
use telemetry_punitha.MsgQueue.Handlers.Delivery.{IsStored}
use telemetry_punitha.HttpQueue.{scan}
use telemetry_punitha.HttpQueue.Lines.{scan_lines}
use telemetry_punitha.HttpQueue.Stream.{IsStreamable}
use telemetry_punitha.Collector.{record_of, handle}
use telemetry_punitha.Pipeline.Arrival.{After, row_arrives}
use telemetry_punitha.Tests.Samples.{sample_call, sample_broker, empty_partition}
use telemetry_punitha.Tests.HttpQueue.{client, object, poll}
use telemetry_punitha.Tests.Pipeline.{formats, fields, bodies, write, is_object, has_payload}

abbrev arrived : Message
arrived = record {
  id = codes "c";
  payload = codes "r";
  created_at = 9;
  topic = codes "events";
  partition = pos 1;
}

-- A codec for this message.
abbrev one_message : Codec
one_message = record {
  marshal = λ m. codes "j";
  unmarshal = λ t. some arrived;
  IsPlain = λ m. m ≡ arrived;
  unmarshal-marshal = λ m e. ap some (sym e);
}

arrived-IsStreamable : IsStreamable one_message 100 arrived
unfolding mentions itoa itoa_ℕ
arrived-IsStreamable = record {
  plain = refl;
  id_given = λ e. ground arith;
  json_given = λ e. ground arith;
  id_line = (refl, refl);
  json_line = (refl, refl);
  id_short = omega arith;
  json_short = omega arith;
  partition_short = omega arith;
}

abbrev holding : Partition
holding = record empty_partition { queue = arrived ∷ [] }

abbrev filled : Broker
filled = record sample_broker { partitions = (codes "events", (pos 1, holding) ∷ []) ∷ [] }

found_filled : find (codes "events") (pos 1) filled ≡ some holding
unfolding find lookup text_eqb
found_filled = refl

arrived-IsStored :
    IsStored sample_call.env
      (codes "events")
      (pos 1)
      (message_of one_message bodies sample_call
        (codes "events")
        (pos 1)
        (object.entry (codes "payload") (codes "r")))
      sample_broker
      filled
unfolding get_partition lookup text_eqb find message_of payload_of trim_space has_prefix
arrived-IsStored = (empty_partition, refl, refl)

row_arrives_example :
    (earlier : List Message) × (holding.queue
      ≡ earlier
        ++ message_of one_message bodies sample_call
            (codes "events")
            (pos 1)
            (object.entry (codes "payload") (codes "r"))
          ∷ [])
    × After formats write one_message object client earlier
        (message_of one_message bodies sample_call
          (codes "events")
          (pos 1)
          (object.entry (codes "payload") (codes "r")))
        (record_of formats fields 7 5)
        1
        (scan one_message object client
          (handle formats write)
          100
          (scan_lines (consume_loop one_message (codes "g") (poll ∷ []) holding).0)
          []
          []
          1)
row_arrives_example =
    row_arrives formats write one_message object client bodies sample_call 100 (codes "g")
      (codes "events") (pos 1) fields 7 5 (poll ∷ []) sample_broker filled holding 1 is_object
      has_payload refl (λ e. ground arith) (omega arith) refl refl arrived-IsStored found_filled
      refl refl (refl, tt) (arrived-IsStreamable, tt)
