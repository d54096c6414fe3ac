-- ===== src/Tests/Metrics.antt =====
-- The metrics at concrete inputs, with a client that keeps a list of what it counted.
use telemetry_punitha.Prelude.{
  All, ℕ, ◌+◌, ◌≡◌, ◌≢◌, ◌↔◌, ◌&&◌, refl, Bool, true, false, List, [], ◌∷◌, some, Text, codes,
  text_eq, text_eqb_iff, ◌==◌, if◌then◌else◌, arith, map,
}
use telemetry_punitha.Collector.{handle}
use telemetry_punitha.Metrics.{Prometheus}
use telemetry_punitha.Metrics.Utf8.{is_utf8}
use telemetry_punitha.Metrics.Collecting.{metered_handle, Counts, stores, metered_handle_lem}
use telemetry_punitha.Proxy.{SmartProxy, new_smart_proxy}
use telemetry_punitha.Proxy.Stats.{stats_handler}
use telemetry_punitha.Proxy.Stats.Log.{Call, record_all}
use telemetry_punitha.Proxy.Metered.Totals.{metered_all, calls_of}
use telemetry_punitha.Proxy.Metered.Views.{Agrees, metered_all-Agrees}
use telemetry_punitha.Streamer.{row, broken, stream_rows}
use telemetry_punitha.Streamer.Metered.{metered_rows, successes, metered_rows_lem}
use telemetry_punitha.Streamer.Metered
use telemetry_punitha.Tests.Pipeline.{formats, fields}
use telemetry_punitha.Tests.Proxy.{config}
use telemetry_punitha.Tests.Startup.{naturals, calls}
use telemetry_punitha.Prelude.Int.{pos}
use telemetry_punitha.Tests.Pipeline

abbrev pub same_labels : List Text → List Text → Bool
same_labels [] [] = true
same_labels [] (m ∷ ms) = false
same_labels (l ∷ ls) [] = false
same_labels (l ∷ ls) (m ∷ ms) = l == m && same_labels ls ms

pub same_labels_iff : (ls ms : List Text) → (same_labels ls ms ≡ true) ↔ (ls ≡ ms)
same_labels_iff [] [] = ground arith
same_labels_iff [] (m ∷ ms) = ground arith
same_labels_iff (l ∷ ls) [] = ground arith
same_labels_iff (l ∷ ls) (m ∷ ms) =
    let rest = same_labels_iff ls ms in ground (arith, text_eqb_iff l m, rest)

-- What was counted, with its labels.
abbrev pub Counted : Type 0
Counted = List (Text × List Text)

abbrev pub tally : Text → List Text → Counted → ℕ
tally n ms [] = 0
tally n ms ((name, ls) ∷ r) = (if name == n && same_labels ls ms then 1 else 0) + tally n ms r

pub tally_same :
    (name : Text) (ls : List Text) (r : Counted)
    → tally name ls ((name, ls) ∷ r) ≡ tally name ls r + 1
tally_same name ls r =
    let self = (same_labels_iff ls ls).1 refl in ground (arith, text_eqb_iff name name, self)

pub tally_other :
    (name n : Text) (ls ms : List Text) (r : Counted)
    → name ≢ n
    → tally n ms ((name, ls) ∷ r) ≡ tally n ms r
tally_other name n ls ms r h = ground (arith, text_eqb_iff name n)

pub tally_labels :
    (name : Text) (ls ms : List Text) (r : Counted)
    → ls ≢ ms
    → tally name ms ((name, ls) ∷ r) ≡ tally name ms r
tally_labels name ls ms r h = ground (arith, same_labels_iff ls ms)

abbrev pub log : Prometheus ℕ
log = record {
  Registry = Counted;
  registered = λ n r. false;
  register = λ v r. r;
  inc = λ v ls r. (v.name, ls) ∷ r;
  observe = λ v ls x r. (v.name, ls) ∷ r;
  set = λ v ls x r. r;
  total = tally;
  total-inc = λ v ls r. tally_same v.name ls r;
  total-inc_other = λ v ls ms n r h. tally_other v.name n ls ms r h;
  total-inc_labels = λ v ls ms r h. tally_labels v.name ls ms r h;
  total-observe = λ v ls x r. tally_same v.name ls r;
  total-observe_other = λ v ls ms n x r h. tally_other v.name n ls ms r h;
}

topic_valid : is_utf8 (codes "t") ≡ true
unfolding is_utf8
topic_valid = refl

metered_handle_lem_example :
    (after : Counted) × (metered_handle log formats Pipeline.write 3 2
        (codes "t")
        (codes "r")
        (codes "a")
        ([], 0)
      ≡ some (
        (handle formats Pipeline.write 0 (codes "t") (codes "r") (codes "a")).0,
        (after, (handle formats Pipeline.write 0 (codes "t") (codes "r") (codes "a")).1),
      ))
    × Counts log formats Pipeline.write
        (codes "t")
        (stores log formats Pipeline.write (codes "r") 0)
        []
        after
metered_handle_lem_example =
    metered_handle_lem log formats Pipeline.write (codes "t") 3 2 (codes "r") (codes "a") [] 0
      topic_valid

-- The calls with what they took.
abbrev timed : List (Call × ℕ)
timed = map (λ c. (c, 1)) calls

timed-All : All (λ (c : Call × ℕ). is_utf8 c.0.broker ≡ true) timed
unfolding is_utf8
timed-All = (refl, (refl, (refl, tt)))

metered_all-Agrees_example :
    (sp : SmartProxy) × (after : Counted) × (metered_all log timed (new_smart_proxy config) []
      ≡ some (sp, after))
    × (sp ≡ record_all (calls_of timed) (new_smart_proxy config))
    × Agrees log after (stats_handler naturals (pos 5) sp)
metered_all-Agrees_example =
    metered_all-Agrees log naturals (pos 5) config timed [] (λ n ls. refl) timed-All

metered_rows_lem_example :
    (after : Counted) × (metered_rows log formats.marshal_array Pipeline.keep
        (row fields ∷ row fields ∷ broken [] ∷ [])
        true
        0
        []
        []
      ≡ some (
        (stream_rows formats.marshal_array Pipeline.keep
            (row fields ∷ row fields ∷ broken [] ∷ [])
            true
            0
            []).0,
        (
          after,
          (stream_rows formats.marshal_array Pipeline.keep
              (row fields ∷ row fields ∷ broken [] ∷ [])
              true
              0
              []).1,
        ),
      ))
    × Metered.Counted log formats.marshal_array Pipeline.keep
        (successes log formats.marshal_array Pipeline.keep
          (row fields ∷ row fields ∷ broken [] ∷ [])
          true
          [])
        []
        after
metered_rows_lem_example =
    metered_rows_lem log formats.marshal_array Pipeline.keep
      (row fields ∷ row fields ∷ broken [] ∷ []) true 0 [] []
