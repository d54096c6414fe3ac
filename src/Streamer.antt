-- ===== src/Streamer.antt =====
-- StreamCSV of services/streamer/stream_csv.go.
pub mod Publishing
pub mod Metered
use telemetry_punitha.Prelude.{
  codes, eqb, if◌then◌else◌, ℕ, zero, suc, ◌+◌, Bool, true, false, List, [], ◌∷◌, Text, ltb, length,
  Result, ok, err,
}

-- What one r.Read() gives before the end of the file.
pub data Read : Type 0 where
  row : List Text → Read
  broken : Text → Read

-- The error of encoding/csv for a row of another length, less its line.
abbrev pub wrong_count : Text
wrong_count = codes "wrong number of fields"

-- What a new reader of encoding/csv, with FieldsPerRecord 0, gives of the rows of a file: the first
-- one sets the number of fields, `n`, which is 0 before. What stands behind an error is not read.
unfoldable pub counted_reads : ℕ → List Read → List Read
counted_reads n [] = []
counted_reads n (broken e ∷ reads) = broken e ∷ reads
counted_reads n (row rec ∷ reads) =
    let count = if eqb n 0 then length rec else n in
    let rest = counted_reads count reads in
    if eqb (length rec) count then row rec ∷ rest else broken wrong_count ∷ reads

-- `marshal` is json.Marshal on arrays of strings, which does not fail; `publish` is ss.queue.Publish
-- with the topic "telemetry": whether it returns nil, and the queue's state.
module _ {ℓ} {S : Type ℓ} (marshal : List Text → Text) (publish : S → Text → Bool × S) where
  -- The loop over the attempts, with `n` of them left.
  unfoldable pub publish_attempts : ℕ → Text → S → Bool × S
  publish_attempts zero msg_body state = (false, state)
  publish_attempts (suc n) msg_body state =
      let (published, after) = publish state msg_body in
      elim published [ true ↦ (true, after) | false ↦ publish_attempts n msg_body after ]

  abbrev pub max_retries : ℕ
  max_retries = 3

  -- The loop over the rows up to the end of the file: the number of records so far, or the error.
  unfoldable pub stream_rows : List Read → Bool → ℕ → S → Result Text ℕ × S
  unfolding publish_attempts
  stream_rows [] skip_header record_count state = (ok record_count, state)
  stream_rows (broken e ∷ reads) skip_header record_count state = (err e, state)
  stream_rows (row rec ∷ reads) true record_count state = stream_rows reads false record_count state
  stream_rows (row rec ∷ reads) false record_count state = elim (ltb (length rec) 12) [
    | true ↦ stream_rows reads false record_count state
    | false ↦
        stream_rows reads false (record_count + 1)
          (publish_attempts max_retries (marshal rec) state).1
  ]

  -- Some passes over a file that does not change, each with a reader of its own; the loop of the code
  -- has no end. `reads` are the rows as the file has them.
  unfoldable pub stream_csv : ℕ → List Read → ℕ → S → Result Text ℕ × S
  unfolding stream_rows counted_reads
  stream_csv zero reads record_count state = (ok record_count, state)
  stream_csv (suc n) reads record_count state =
      let (counted, after) = stream_rows (counted_reads 0 reads) true record_count state in
      elim counted [ err e ↦ (err e, after) | ok count ↦ stream_csv n reads count after ]
