-- ===== src/Tests/Samples.antt =====
-- Sample messages, partitions and brokers, and a codec for two messages.
use telemetry_punitha.Prelude.{
  ℕ, ◌+◌, ◌*◌, ◌%◌, ◌≡◌, ◌<◌, ◌⊎◌, inl, inr, false, [], ◌∷◌, Option, none, some, Text, codes,
  text_eq, text_eqb, ◌==◌, arith, if◌then◌else◌, ok, length,
}
use telemetry_punitha.Prelude.Int.{pos}
use telemetry_punitha.MsgQueue.Message.{Message, Codec}
use telemetry_punitha.MsgQueue.Partition.{Partition}
use telemetry_punitha.MsgQueue.Broker.{Broker, Env}
use telemetry_punitha.MsgQueue.Handlers.{Bodies, ProduceCall}
use telemetry_punitha.ConsistentHash.{Sha512}

abbrev pub first : Message
first = record {
  id = codes "a";
  payload = codes "[1]";
  created_at = 7;
  topic = codes "events";
  partition = pos 1;
}

abbrev pub second : Message
second = record {
  id = codes "b";
  payload = codes "[2]";
  created_at = 8;
  topic = codes "events";
  partition = pos 1;
}

abbrev read_sample : Text → Option Message
read_sample line = if line == codes "b" then some second else some first

abbrev pub IsSample : Message → Type 0
IsSample m = (m ≡ first) ⊎ (m ≡ second)

pub read_sample-id : (m : Message) → IsSample m → read_sample m.id ≡ some m
unfolding text_eqb
read_sample-id m (inl e) = ground arith
read_sample-id m (inr e) = ground arith

abbrev pub sample_json : Codec
sample_json = record {
  marshal = λ m. m.id;
  unmarshal = read_sample;
  IsPlain = IsSample;
  unmarshal-marshal = read_sample-id;
}

abbrev pub empty_partition : Partition
empty_partition = record {
  topic = codes "events";
  index = pos 1;
  cap = 2;
  queue = [];
  pending = [];
  file = [];
  vis_to = 30;
  closed = false;
}

abbrev pub full_partition : Partition
full_partition = record empty_partition { queue = first ∷ second ∷ []; file = codes "a" ∷ [] }

abbrev pub busy_partition : Partition
busy_partition = record empty_partition {
  pending = (codes "a", record { msg = first; deadline = 40; group = codes "g" }) ∷ [];
}

abbrev pub sample_broker : Broker
sample_broker = record {
  topics = (codes "events", pos 8) ∷ [];
  partitions = (codes "events", (pos 1, empty_partition) ∷ []) ∷ [];
  vis_to = 30;
  broker_index = pos 0;
  broker_count = pos 1;
}

abbrev pub sample_env : Env
sample_env = record { opened = ok []; queue_size = 1000 }

abbrev pub sample_bodies : Bodies
sample_bodies = record { payload_field = λ body. none; id_field = λ body. some body }

abbrev pub sample_call : ProduceCall
sample_call = record { env = sample_env; write_error = none; new_id = codes "c"; now = 9 }

-- A digest that looks at the length of the text only.
abbrev short_byte : Text → ℕ → ℕ
short_byte key i = (length key * 40 + i) % 256

pub short_byte-lt : (key : Text) (i : ℕ) → short_byte key i < 256
short_byte-lt key i = omega arith

abbrev pub sample_sha : Sha512
sample_sha = record { byte = short_byte; byte-lt = short_byte-lt }
