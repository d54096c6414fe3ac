-- ===== src/Tests/MsgQueue.antt =====
-- The broker, services/msg_queue/main.go, at concrete inputs.
use telemetry_punitha.MsgQueue.Message.{Message}
use telemetry_punitha.Prelude.{
  ℕ, Text, suc, zero, length, ◌≡◌, refl, inl, inr, [], ◌∷◌, none, some, codes, text_eq, text_eqb,
  arith,
}
use mathlib.Core.Option
use telemetry_punitha.Prelude.Int.{int_eq}
use telemetry_punitha.Prelude.Map.{lookup, delete}
use telemetry_punitha.MsgQueue.Partition.{
  Partition, message, enqueue, sweep, expire, full_persisted,
}
use telemetry_punitha.MsgQueue.Partition.Ledger.{held, count_id}
use telemetry_punitha.MsgQueue.Partition.History.{
  World, Accounts, Step, here, next, produces, Reach-Accounts, count_key, after_enqueue,
}
use telemetry_punitha.MsgQueue.Partition.Fifo.{enqueue_all, fetch_all, fetch_all-enqueue_all}
use telemetry_punitha.MsgQueue.Partition.Reload.{
  IsLoadable, restart, restart-enqueue_all_long, restart-enqueue_full,
}
use telemetry_punitha.Tests.Samples.{
  first, second, sample_json, empty_partition, full_partition, busy_partition,
}

abbrev requeued : Partition
requeued = record empty_partition { queue = first ∷ [] }

swept : sweep 41 (codes "a" ∷ []) busy_partition ≡ some ([], requeued)
unfolding sweep expire lookup delete text_eqb
swept = refl

fetch_all-enqueue_all_example :
    fetch_all
      ((codes "g", 1) ∷ (codes "h", 2) ∷ [])
      (enqueue_all sample_json (first ∷ second ∷ []) empty_partition)
    ≡ message first ∷ message second ∷ []
fetch_all-enqueue_all_example =
    fetch_all-enqueue_all sample_json (first ∷ second ∷ []) ((codes "g", 1) ∷ (codes "h", 2) ∷ [])
      empty_partition refl (omega arith) refl

first-IsLoadable : IsLoadable sample_json 65536 first
first-IsLoadable = record { plain = inl refl; short = omega arith }

second-IsLoadable : IsLoadable sample_json 65536 second
second-IsLoadable = record { plain = inr refl; short = omega arith }

restart-enqueue_full_example :
    ((enqueue sample_json none second full_partition).0 ≡ some (full_persisted 2))
    × (Option.map
          (λ (r : Partition). r.queue)
          (restart sample_json 30 1000 (enqueue sample_json none second full_partition).1)
        ≡ some (first ∷ second ∷ []))
restart-enqueue_full_example =
    restart-enqueue_full sample_json (first ∷ []) second full_partition 30 1000 refl (omega arith)
      refl (first-IsLoadable, tt) second-IsLoadable (omega arith)

unfoldable letters : ℕ → Text
letters zero = []
letters (suc n) = b'x' ∷ letters n

length-letters : (n : ℕ) → length (letters n) ≡ n
unfolding letters
length-letters zero = refl
length-letters (suc n) = omega (arith, length-letters n)

-- A message whose JSON text does not fit the scanner's buffer.
abbrev too_long : Message
too_long = record first { id = letters 65536 }

restart-enqueue_all_long_example :
    Option.map
      (λ (r : Partition). r.queue)
      (restart sample_json 30 1000
        (enqueue_all sample_json (too_long ∷ second ∷ []) full_partition))
    ≡ some (first ∷ [])
restart-enqueue_all_long_example =
    restart-enqueue_all_long sample_json (first ∷ []) too_long (second ∷ []) full_partition 30 1000
      refl (omega arith) refl (first-IsLoadable, tt) (omega arith)
      (omega (arith, length-letters 65536))

abbrev start : World
start = record { part = empty_partition; accepted = []; acked = []; lost = [] }

start-Accounts : Accounts start
unfolding held count_id count_key lookup
start-Accounts = record {
  balance = λ k. refl;
  once = λ k. omega arith;
  keyed = record { at = λ id pd e. absurd (ground arith) };
  alive = refl;
  room = omega arith;
}

produced :
    Step sample_json start
      (after_enqueue first start (enqueue sample_json none first empty_partition))
unfolding count_id
produced = produces none first refl

Reach-Accounts_example :
    Accounts (after_enqueue first start (enqueue sample_json none first empty_partition))
Reach-Accounts_example = Reach-Accounts sample_json start-Accounts (next here produced)
