-- ===== src/MsgQueue/Partition.antt =====
-- The type Partition of services/msg_queue/main.go. Each function is what one call does between
-- taking its lock (or passing its `select`) and giving it back; the calls of several goroutines
-- are a sequence of such steps (Partition/Ledger). The current time, what the operating system
-- answers, and the choices of Go's `select` and `range` are arguments.
pub mod Acks
pub mod Timeouts
pub mod Redelivery
pub mod Fifo
pub mod Reload
pub mod Ledger
pub mod History
use telemetry_punitha.Prelude.{
  ℕ, ◌+◌, ◌≡◌, Bool, true, false, ◌&&◌, List, [], ◌∷◌, ◌++◌, Option, none, some, Text, codes, ltb,
  length, text_eq, ◌==◌, if◌then◌else◌, Result, ok, err,
}
use telemetry_punitha.Prelude.Int.{ℤ, pos}
use telemetry_punitha.Prelude.Map.{Map, lookup, insert, delete}
use telemetry_punitha.MsgQueue.Message.{Message, Codec}

pub record Pending : Type 0 where
  pub msg : Message
  pub deadline : ℕ
  pub group : Text

-- `queue` is the buffered channel, oldest message first, of capacity `cap`; `file` is the log file,
-- line by line; `closed` says that Close has run (the context is done and the channel closed).
pub record Partition : Type 0 where
  pub topic : Text
  pub index : ℤ
  pub cap : ℕ
  pub queue : List Message
  pub pending : Map Text Pending
  pub file : List Text
  pub vis_to : ℕ
  pub closed : Bool

-- newPartition, before its goroutines run: `opened` is what MkdirAll and OpenFile give, the lines
-- of the file or the error.
unfoldable pub new_partition : Result Text (List Text) → Text → ℤ → ℕ → ℕ → Result Text Partition
new_partition (err e) topic index vis_to queue_size = err e
new_partition (ok lines) topic index vis_to queue_size = ok (record {
  topic = topic;
  index = index;
  cap = queue_size;
  queue = [];
  pending = [];
  file = lines;
  vis_to = vis_to;
  closed = false;
})

unfoldable pub close : Partition → Partition
close p = record p { closed = true }

-- `select { case p.queue <- m: … default: … }`. A send on a closed channel panics.
pub data Send : Type 0 where
  sent : Partition → Send
  full panics : Send

unfoldable pub try_send : Message → Partition → Send
try_send m p =
    if p.closed
    then panics
    else if ltb (length p.queue) p.cap
    then sent (record p { queue = p.queue ++ m ∷ [] })
    else full

pub data EnqueueError : Type 0 where
  full_persisted : ℕ → EnqueueError
  full_persist_failed : Text → EnqueueError
  enqueue_panics : EnqueueError

-- bufio.MaxScanTokenSize
abbrev pub scan_buffer : ℕ
scan_buffer = 65536

module _ (json : Codec) where
  -- `write_error` is what the write to the file returns; a write that fails leaves no line.
  unfoldable pub persist : Option Text → Message → Partition → Option Text × Partition
  persist none m p = (none, record p { file = p.file ++ json.marshal m ∷ [] })
  persist (some e) m p = (some e, p)

  -- The error, if there is one, and the partition after the call.
  unfoldable pub enqueue : Option Text → Message → Partition → Option EnqueueError × Partition
  unfolding try_send persist
  enqueue write_error m p = elim (try_send m p) [
    | sent q ↦ (none, q)
    | full ↦
        let (failure, q) = persist write_error m p in
        elim failure [
          | none ↦ (some (full_persisted (length q.queue)), q)
          | some e ↦ (some (full_persist_failed e), q)
        ]
    | panics ↦ (some enqueue_panics, p)
  ]

  -- One line of loadFromFile's loop: a line that is no message, or that finds the queue full, is
  -- skipped. `none` is the panic of a send on the closed channel.
  unfoldable pub load_line : Text → Partition → Option Partition
  unfolding try_send
  load_line line p = elim (json.unmarshal line) [
    | none ↦ some p
    | some m ↦ elim (try_send m p) [ sent q ↦ some q | full ↦ some p | panics ↦ none ]
  ]

  -- The loop. The scanner stops, with an error that the code does not read, at the first line that
  -- does not fit its buffer.
  unfoldable pub load_lines : ℕ → List Text → Partition → Option Partition
  unfolding load_line
  load_lines buffer [] p = some p
  load_lines buffer (line ∷ lines) p = elim (ltb (length line) buffer) [
    | true ↦ elim (load_line line p) [ none ↦ none | some q ↦ load_lines buffer lines q ]
    | false ↦ some p
  ]

  unfoldable pub load_from_file : Partition → Option Partition
  unfolding load_lines
  load_from_file p = load_lines scan_buffer p.file p

-- One round of monitorPending's loop over the pending map, for the entry `id`, at the time `now` of
-- the tick: the messages that were lost, and the partition. `none` is a panic.
unfoldable pub expire : ℕ → Text → Partition → Option (List Message × Partition)
unfolding try_send
expire now id p = elim (lookup id p.pending) [
  | none ↦ some ([], p)
  | some pd ↦
      if ltb pd.deadline now
      then (let q : Partition = record p { pending = delete id p.pending } in
          elim (try_send pd.msg q) [
            | sent r ↦ some ([], record r { pending = delete id r.pending })
            | full ↦ some (pd.msg ∷ [], q)
            | panics ↦ none
          ])
      else some ([], p)
]

-- A tick of the monitor: `order` is the order in which `range` visits the keys.
unfoldable pub sweep : ℕ → List Text → Partition → Option (List Message × Partition)
sweep now [] p = some ([], p)
sweep now (id ∷ order) p = elim (expire now id p) [
  | none ↦ none
  | some (lost, q) ↦ elim (sweep now order q) [
    | none ↦ none
    | some (more, r) ↦ some (lost ++ more, r)
  ]
]

pub data FetchError : Type 0 where
  partition_closed no_messages : FetchError

pub data Fetched : Type 0 where
  message : Message → Fetched
  failed : FetchError → Fetched

-- The zero value, which a closed and drained channel delivers.
abbrev pub zero_message : Message
zero_message = record { id = []; payload = []; created_at = 0; topic = []; partition = pos 0 }

-- Inserts the message under its ID.
unfoldable pub track : Message → Text → ℕ → Partition → Partition
track m group now p = record p {
  pending = insert m.id (record { msg = m; deadline = now + p.vis_to; group = group }) p.pending;
}

-- fetchAndTrack at the moment when its `select` fires. `done` is the choice of a select whose
-- context case is ready; an empty open queue is the five seconds' timeout.
fetch_from : List Message → Text → ℕ → Partition → Fetched × Partition
unfolding track
fetch_from (m ∷ rest) group now p = (message m, track m group now (record p { queue = rest }))
fetch_from [] group now p =
    if p.closed
    then (message zero_message, track zero_message group now p)
    else (failed no_messages, p)

unfoldable pub fetch_and_track : Bool → Text → ℕ → Partition → Fetched × Partition
unfolding fetch_from
fetch_and_track done group now p =
    if p.closed && done then (failed partition_closed, p) else fetch_from p.queue group now p

unfoldable pub ack : Text → Text → Partition → Bool × Partition
ack id group p = elim (lookup id p.pending) [
  | none ↦ (false, p)
  | some pd ↦
      if pd.group == group then (true, record p { pending = delete id p.pending }) else (false, p)
]
