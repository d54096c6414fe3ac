-- ===== src/Streamer/Publishing.antt =====
-- What StreamCSV of services/streamer/stream_csv.go publishes.
use mathlib.Core.List.{append-nil}
use telemetry_punitha.Prelude.{
  Result, ℕ, zero, suc, ◌+◌, ◌<◌, ◌≡◌, refl, ◌⊎◌, inl, inr, Bool, true, false, List, [], ◌∷◌, map,
  Text, ltb, All, ◌++◌, ◌≢◌, ap, sym, ◌∙◌, err, length, ok, if◌then◌else◌, arith, Bool-cases,
}
use telemetry_punitha.Streamer.{
  Read, wrong_count, counted_reads, row, publish_attempts, stream_rows, stream_csv,
}

-- The rows that StreamCSV publishes of a file with `n` fields in a row.
abbrev pub kept : ℕ → List (List Text) → List (List Text)
kept n recs = if ltb n 12 then [] else recs

module _ {ℓ} {S : Type ℓ} (marshal : List Text → Text) (publish : S → Text → Bool × S) where
  -- The queue's state after `n` calls of Publish with one body.
  unfoldable pub published : ℕ → Text → S → S
  published zero body state = state
  published (suc n) body state = published n body (publish state body).1

  fails_from :
      (k : ℕ) (body : Text) (state : S)
      → (publish state body).0 ≡ false
      → ((j : ℕ) → j < k → (publish (published j body (publish state body).1) body).0 ≡ false)
      → (j : ℕ) → j < suc k
      → (publish (published j body state) body).0 ≡ false
  unfolding published
  fails_from k body state failed later zero h = failed
  fails_from k body state failed later (suc j) h = later j (omega arith)

  -- Of the attempts to publish a record the first ones fail up to the one that succeeds, which
  -- is the last; or all fail.
  pub publish_attempts_lem :
      (n : ℕ) (body : Text) (state : S)
      → (((publish_attempts marshal publish n body state).0 ≡ true)
          × ((k : ℕ) × (k < n)
              × ((j : ℕ) → j < k → (publish (published j body state) body).0 ≡ false)
              × (publish (published k body state) body
                  ≡ (true, (publish_attempts marshal publish n body state).1))))
        ⊎ ((publish_attempts marshal publish n body state ≡ (false, published n body state))
            × ((j : ℕ) → j < n → (publish (published j body state) body).0 ≡ false))
  unfolding publish_attempts published
  publish_attempts_lem zero body state = inr (refl, λ j h. absurd (omega arith))
  publish_attempts_lem (suc n) body state = elim (Bool-cases (publish state body).0) [
    | inl done ↦ inl (ground arith, (0, omega arith, (λ j h. absurd (omega arith)), ground arith))
    | inr failed ↦
        let after = (publish state body).1 in
        let next : publish_attempts marshal publish (suc n) body state
            ≡ publish_attempts marshal publish n body after =
          ground arith in
        rw next (elim (publish_attempts_lem n body after) [
          | inl (done, (k, below, fails, last)) ↦
              inl (done, (suc k, omega arith, fails_from k body state failed fails, last))
          | inr (gone, fails) ↦ inr (gone, fails_from n body state failed fails)
        ])
  ]

  -- The bodies sent one after another.
  unfoldable pub send_all : List (List Text) → S → S
  send_all [] state = state
  send_all (rec ∷ recs) state = send_all recs (publish state (marshal rec)).1

  stream_rows_lem :
      (n : ℕ) (recs : List (List Text)) (more : List Read) (count : ℕ) (state : S)
      → 0 < n
      → All (λ (rec : List Text). length rec ≡ n) recs
      → ((s : S) (body : Text) → (publish s body).0 ≡ true)
      → stream_rows marshal publish (counted_reads n (map row recs ++ more)) false count state
        ≡ stream_rows marshal publish
            (counted_reads n more)
            false
            (count + length (kept n recs))
            (send_all (kept n recs) state)
  unfolding stream_rows publish_attempts send_all counted_reads
  stream_rows_lem n [] more count state some_field same works = elim (Bool-cases (ltb n 12)) [
    | inl few ↦
        rw few
          (ap (λ k. stream_rows marshal publish (counted_reads n more) false k state) (omega arith))
    | inr enough ↦
        rw enough
          (ap (λ k. stream_rows marshal publish (counted_reads n more) false k state) (omega arith))
  ]
  stream_rows_lem n (rec ∷ recs) more count state some_field (here, same) works = ground (
    arith,
    works state (marshal rec),
    stream_rows_lem n recs more count state some_field same works,
    stream_rows_lem n recs more (count + 1) (publish state (marshal rec)).1 some_field same works,
  )

  in_one : (r : Result Text ℕ × S) → (elim r.0 [ err e ↦ (err e, r.1) | ok n ↦ (ok n, r.1) ]) ≡ r
  in_one (err e, state) = refl
  in_one (ok n, state) = refl

  one_pass :
      (header : List Text) (reads : List Read) (count : ℕ) (state : S)
      → stream_csv marshal publish 1 (row header ∷ reads) count state
        ≡ stream_rows marshal publish (counted_reads (length header) reads) false count state
  unfolding stream_csv
  one_pass header reads count state =
      in_one (stream_rows marshal publish (counted_reads 0 (row header ∷ reads)) true count state)
      ∙ (unfold counted_reads in unfold stream_rows in ground arith)

  cut_off :
      (n : ℕ) (odd : List Text) (rest : List Read) (count : ℕ) (state : S)
      → 0 < n
      → length odd ≢ n
      → stream_rows marshal publish (counted_reads n (row odd ∷ rest)) false count state
        ≡ (err wrong_count, state)
  unfolding counted_reads stream_rows
  cut_off n odd rest count state some_field other = ground arith

  -- With a queue that takes every message, a pass over a file whose rows have as many fields as
  -- its header publishes all its rows but the header, each one once and in their order, and
  -- counts them, if they have twelve fields or more, and none of them otherwise. At the first
  -- row with another number of fields the pass ends with the error of encoding/csv, after the
  -- rows before it. The header has a field.
  pub stream_csv_lem :
      (header : List Text) (recs : List (List Text)) (count : ℕ) (state : S)
      → 0 < length header
      → All (λ (rec : List Text). length rec ≡ length header) recs
      → ((s : S) (body : Text) → (publish s body).0 ≡ true)
      → let sent = kept (length header) recs in
        (stream_csv marshal publish 1 (row header ∷ map row recs) count state
          ≡ (ok (count + length sent), send_all sent state))
        × ((odd : List Text) (rest : List Read)
            → length odd ≢ length header
            → stream_csv marshal publish 1
                (row header ∷ (map row recs ++ row odd ∷ rest))
                count
                state
              ≡ (err wrong_count, send_all sent state))
  stream_csv_lem header recs count state some_field same works = (
    one_pass header (map row recs) count state
        ∙ ap
            (λ reads.
              stream_rows marshal publish (counted_reads (length header) reads) false count state)
            (sym (append-nil (map row recs)))
        ∙ stream_rows_lem (length header) recs [] count state some_field same works
        ∙ (unfold counted_reads in unfold stream_rows in refl),
    λ odd rest other.
        one_pass header (map row recs ++ row odd ∷ rest) count state
        ∙ stream_rows_lem (length header) recs (row odd ∷ rest) count state some_field same works
        ∙ cut_off (length header) odd rest _ _ some_field other,
  )
