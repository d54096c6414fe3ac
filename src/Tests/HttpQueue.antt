-- ===== src/Tests/HttpQueue.antt =====
-- The queue client, internal/shared/http_message_queue.go, at concrete inputs.
use mathlib.Core.List.{append_assoc, append-nil}
use telemetry_punitha.Prelude.{
  ℕ, ◌+◌, ◌≡◌, refl, inl, inr, Bool, false, [], ◌∷◌, ◌++◌, Text, codes, text_eq, nat_eq, text_eqb,
  ◌<◌, some, get_elem?, ◌==◌, arith, mentions,
}
use telemetry_punitha.Prelude.Int.{pos}
use telemetry_punitha.Strconv.{itoa, itoa_ℕ}
use telemetry_punitha.MsgQueue.Partition.{Partition, message, sweep}
use telemetry_punitha.MsgQueue.Http.{newline}
use telemetry_punitha.MsgQueue.Handlers.{Poll, event, consume_loop}
use telemetry_punitha.HttpQueue.{HttpMessageQueue, JsonMap, scan}
use telemetry_punitha.HttpQueue.RoundRobin.{partitions, uses, partitions_fair}
use telemetry_punitha.HttpQueue.Lines.{scan_lines}
use telemetry_punitha.HttpQueue.Stream.{IsStreamable, stream}
use telemetry_punitha.HttpQueue.Delivery.{handle_all, scan-consume_loop}
use telemetry_punitha.HttpQueue.Cut.{IsCut, Arrived, scan-beginning}
use telemetry_punitha.Pipeline.Broken.{ack_all, broken_redelivered}
use telemetry_punitha.MsgQueue.Partition.Timeouts.{visits}
use telemetry_punitha.MsgQueue.Partition.Fifo.{fetch_all}
use telemetry_punitha.Tests.Samples.{first, second, sample_json, empty_partition}

abbrev pub client : HttpMessageQueue
client = record {
  base_url = codes "http://p";
  topic = codes "events";
  group = codes "g";
  name = codes "collector";
  max_partitions = pos 3;
  publish_counter = 7;
}

partitions_fair_example : uses 2 (partitions 3 client) ≡ 1
partitions_fair_example = partitions_fair 2 2 client refl (omega arith) (omega arith) (omega arith)

abbrev pub object : JsonMap
object = record { entry = λ key v. codes "{" ++ v }

-- A handler that takes the messages of one ID only, and counts its calls.
abbrev pub only_a : ℕ → Text → Text → Text → Bool × ℕ
only_a n topic payload id = (id == codes "a", n + 1)

pub first-IsStreamable : IsStreamable sample_json 65536 first
unfolding mentions itoa itoa_ℕ
first-IsStreamable = record {
  plain = inl refl;
  id_given = λ e. ground arith;
  json_given = λ e. ground arith;
  id_line = (refl, refl);
  json_line = (refl, refl);
  id_short = omega arith;
  json_short = omega arith;
  partition_short = omega arith;
}

pub second-IsStreamable : IsStreamable sample_json 65536 second
unfolding mentions itoa itoa_ℕ
second-IsStreamable = record {
  plain = inr refl;
  id_given = λ e. ground arith;
  json_given = λ e. ground arith;
  id_line = (refl, refl);
  json_line = (refl, refl);
  id_short = omega arith;
  json_short = omega arith;
  partition_short = omega arith;
}

abbrev waiting : Partition
waiting = record empty_partition { queue = first ∷ second ∷ [] }

abbrev pub poll : Poll
poll = record { gone = false; done = false; now = 3 }

scan-consume_loop_example :
    scan sample_json object client only_a 65536
      (scan_lines (consume_loop sample_json (codes "g") (poll ∷ poll ∷ []) waiting).0)
      []
      []
      0
    ≡ handle_all sample_json object client only_a (first ∷ second ∷ []) 0
scan-consume_loop_example =
    scan-consume_loop sample_json object client only_a 65536 (codes "g") (poll ∷ poll ∷ []) waiting
      0 refl refl (refl, (refl, tt)) (first-IsStreamable, (second-IsStreamable, tt))

-- The first event, and the beginning of the second.
abbrev arrived : Text
arrived = event sample_json first ++ codes "id: "

abbrev lost : Text
lost =
    second.id
    ++ newline
      ∷ (codes "data: "
          ++ (sample_json.marshal second
              ++ newline
                ∷ (codes "partition: " ++ (itoa second.partition ++ newline ∷ newline ∷ []))))

broken : stream sample_json (first ∷ second ∷ []) ≡ arrived ++ lost
unfolding stream event
broken = simp append_assoc

scan-beginning_example :
    (a : Arrived sample_json (first ∷ second ∷ []) arrived) × (scan sample_json object client only_a
        65536
        (scan_lines arrived)
        []
        []
        0
      ≡ handle_all sample_json object client only_a a.complete 0)
scan-beginning_example =
    scan-beginning sample_json object client only_a 65536 (first ∷ second ∷ []) arrived lost 0
      (first-IsStreamable, (second-IsStreamable, tt)) broken

first_only : arrived ≡ stream sample_json (first ∷ []) ++ codes "id: "
unfolding stream
first_only = simp append-nil

second-IsCut : IsCut sample_json (codes "id: ") second
unfolding event
second-IsCut = record {
  next = b'b';
  lost =
      newline
      ∷ (codes "data: "
          ++ (sample_json.marshal second
              ++ newline
                ∷ (codes "partition: " ++ (itoa second.partition ++ newline ∷ newline ∷ []))));
  whole = refl;
}

abbrev first_arrived : Arrived sample_json waiting.queue arrived
first_arrived = record {
  complete = first ∷ [];
  open' = second ∷ [];
  part = codes "id: ";
  all = refl;
  text = first_only;
  next = inr (second, [], refl, second-IsCut);
}

broken_redelivered_example :
    (scan sample_json object client only_a 65536 (scan_lines arrived) [] [] 0
      ≡ handle_all sample_json object client only_a (first ∷ []) 0)
    × ((r : Partition) × (i : ℕ) × (sweep 40 (codes "b" ∷ []) (
            ack_all
              (codes "g")
              (first ∷ [])
              (consume_loop sample_json (codes "g") (poll ∷ poll ∷ []) waiting).1)
          ≡ some ([], r))
        × (i < 1)
        × (get_elem? (fetch_all ((codes "g", 41) ∷ []) r) i ≡ some (message second)))
unfolding visits text_eqb
broken_redelivered_example =
    broken_redelivered sample_json object client only_a 65536 40 (codes "g") arrived
      (poll ∷ poll ∷ []) waiting 0 (first ∷ []) second (codes "b" ∷ []) ((codes "g", 41) ∷ []) refl
      refl ((refl, omega arith), ((refl, omega arith), tt))
      (first-IsStreamable, (second-IsStreamable, tt)) (((λ e. ground arith), tt), (tt, tt))
      first_arrived (inl refl, tt) (inl refl) refl (omega arith) (omega arith)
