-- ===== src/HttpQueue.antt =====
-- The type HTTPMessageQueue of internal/shared/http_message_queue.go: the client of the broker that
-- the streamer and the collector use.
pub mod RoundRobin
pub mod Lines
pub mod Stream
pub mod Delivery
pub mod Cut
pub mod Subscribing
use telemetry_punitha.Prelude.{
  ℕ, zero, suc, ◌+◌, ◌-◌, ◌%◌, ◌^◌, Bool, true, false, not, ◌&&◌, ◌||◌, List, [], ◌∷◌, ◌++◌, Option,
  none, some, Text, codes, text_eq, ◌==◌, eqb, ltb, length, has_prefix, trim_prefix, if◌then◌else◌,
  Result, ok, err,
}
use telemetry_punitha.Prelude.Int.{to_uint64, to_int, ℤ, pos, negsuc, ltb_ℤ}
use telemetry_punitha.Strconv.{atoi, itoa}
use telemetry_punitha.MsgQueue.Http.{Response}
use telemetry_punitha.MsgQueue.Message.{Message, Codec}

-- `publish_counter` is a uint64.
pub record HttpMessageQueue : Type 0 where
  pub base_url : Text
  pub topic : Text
  pub group : Text
  pub name : Text
  pub max_partitions : ℤ
  pub publish_counter : ℕ

-- The maximum in the environment variable MAX_PARTITIONS, empty if it is not set.
unfoldable pub max_partitions_of : Text → ℤ
max_partitions_of env = if env == [] then pos 2 else elim (atoi env) [
  | none ↦ pos 2
  | some parsed ↦ if ltb_ℤ (pos 0) parsed then parsed else pos 2
]

unfoldable pub new_http_message_queue : Text → Text → Text → Text → Text → HttpMessageQueue
new_http_message_queue env base_url topic group name = record {
  base_url = base_url;
  topic = topic;
  group = group;
  name = name;
  max_partitions = max_partitions_of env;
  publish_counter = 0;
}

-- The two lines after `current := atomic.AddUint64(…)`; `none` is the panic of a division by 0.
partition_at : ℕ → ℕ → Option ℤ
partition_at current zero = none
partition_at current (suc n) = some (to_int ((current + 2 ^ 64 - 1) % 2 ^ 64 % suc n))

unfoldable pub calculate_publish_partition : HttpMessageQueue → Option ℤ × HttpMessageQueue
unfolding partition_at
calculate_publish_partition h =
    let current = (h.publish_counter + 1) % 2 ^ 64 in
    (partition_at current (to_uint64 h.max_partitions), record h { publish_counter = current })

-- json.Marshal of a map with one entry; a map of strings has a JSON text.
pub record JsonMap : Type 0 where
  pub entry : Text → Text → Text

-- What client.Post gives at a URL and a body: the response, or the error.
abbrev pub Post : Type 0
Post = Text → Text → Result Text Response

pub data ClientError : Type 0 where
  not_sent : Text → ClientError
  refused : ℕ → Text → ClientError

-- The error of a call that posts a body, from what the network gives; none is nil.
unfoldable pub outcome : Result Text Response → Option ClientError
outcome (err e) = some (not_sent e)
outcome (ok resp) = if eqb resp.status 200 then none else some (refused resp.status resp.body)

unfoldable pub publish_url : HttpMessageQueue → Text → ℤ → Text
publish_url h topic partition =
    h.base_url ++ (codes "/produce?topic=" ++ (topic ++ (codes "&partition=" ++ itoa partition)))

-- `none` is the panic.
unfoldable pub publish :
    JsonMap → Post → Text → Text → HttpMessageQueue → Option (Option ClientError) × HttpMessageQueue
publish json post topic payload h =
    let (partition, after) = calculate_publish_partition h in
    elim partition [
      | none ↦ (none, after)
      | some part ↦ (
        some (outcome (post (publish_url h topic part) (json.entry (codes "payload") payload))),
        after,
      )
    ]

unfoldable pub ack_url : HttpMessageQueue → Text → ℤ → Text
ack_url h topic partition =
    h.base_url
    ++ (codes "/ack?topic="
        ++ (topic ++ (codes "&partition=" ++ (itoa partition ++ (codes "&group=" ++ h.group)))))

unfoldable pub ack_message :
    JsonMap → Post → HttpMessageQueue → Text → ℤ → Text → Option ClientError
ack_message json post h topic partition message_id =
    outcome (post (ack_url h topic partition) (json.entry (codes "id") message_id))

unfoldable pub consume_url : HttpMessageQueue → ℤ → Text
consume_url h partition =
    h.base_url
    ++ (codes "/consume?topic="
        ++ (h.topic ++ (codes "&partition=" ++ (itoa partition ++ (codes "&group=" ++ h.group)))))

-- A post that the client makes: the URL and the body.
abbrev pub Sent : Type 0
Sent = List (Text × Text)

-- The loop over the lines of a stream, with the two variables of the message that is being read.
-- The handler has a state of its own, and says whether it returned nil. The result is the
-- acknowledgements that were posted, and the handler's state; what they are answered is only logged.
module _ {ℓ} {S : Type ℓ} (codec : Codec) (json : JsonMap) (h : HttpMessageQueue)
    (handler : S → Text → Text → Text → Bool × S) where
  -- A message is complete at an empty line.
  unfoldable pub deliver : Text → S → Sent × S
  deliver message_data state = elim (codec.unmarshal message_data) [
    | none ↦ ([], state)
    | some msg ↦
        let (success, after) = handler state msg.topic msg.payload msg.id in
        if success
        then ((ack_url h msg.topic msg.partition, json.entry (codes "id") msg.id) ∷ [], after)
        else ([], after)
  ]

  -- The scanner stops at a line that does not fit its buffer.
  unfoldable pub scan : ℕ → List Text → Text → Text → S → Sent × S
  unfolding deliver
  scan buffer [] message_id message_data state = ([], state)
  scan buffer (line ∷ lines) message_id message_data state = elim (ltb (length line) buffer) [
    | false ↦ ([], state)
    | true ↦ elim (has_prefix line (codes "id: ")) [
      | true ↦ scan buffer lines (trim_prefix line (codes "id: ")) message_data state
      | false ↦ elim (has_prefix line (codes "data: ")) [
        | true ↦ scan buffer lines message_id (trim_prefix line (codes "data: ")) state
        | false ↦ elim (line == [] && (not (message_id == []) && not (message_data == []))) [
          | true ↦
              let (posted, after) = deliver message_data state in
              let (more, last) = scan buffer lines [] [] after in (posted ++ more, last)
          | false ↦ scan buffer lines message_id message_data state
        ]
      ]
    ]
  ]
