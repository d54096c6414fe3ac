-- ===== src/Influx/Stored.antt =====
-- What InfluxDB keeps of the writes of internal/influx/influx.go, and what its queries then find.
use telemetry_punitha.Prelude.{
  All, Bool, true, ◌||◌, ltb, eqb, has_prefix, Has, ◌≡◌, ◌≢◌, refl, sym, ap, inl, inr, false, List,
  [], ◌∷◌, none, some, Text, codes, text_eq, ok, mentions, subst, text_eqb, arith,
}
use telemetry_punitha.Prelude.Int.{ℤ}
use telemetry_punitha.Prelude.Map.{lookup}
use telemetry_punitha.Metrics.Utf8.{is_utf8}
use telemetry_punitha.Influx.{
  TelemetryRecord, Point, Row, point_of, parse_row, parse_rows, parse_query_results, device_query,
}
use telemetry_punitha.Influx.RoundTrip.{IsRowOf, parse_row-point_of}
use telemetry_punitha.Influx.Client.{
  InfluxWriter, InfluxDb, write_telemetry, query_records, query_telemetry_by_device,
}

-- A text that stands for itself between the quotes of a Flux string.
pub record IsPlain (s : Text) : Type 0 where
  pub no_quote : mentions b'"' s ≡ false
  pub no_backslash : mentions b'\\' s ≡ false
  pub no_interpolation : mentions b'$' s ≡ false

unfoldable pub has_control : Text → Bool
has_control [] = false
has_control (c ∷ s) = ltb c 32 || eqb c 127 || has_control s

-- A text that the line protocol of the client library carries as it is. The library turns a tab or a
-- line end into two characters, and leaves a backslash as it stands.
pub record IsLineText (s : Text) : Type 0 where
  pub no_control : has_control s ≡ false
  pub no_escape : mentions b'\\' s ≡ false
  pub valid : is_utf8 s ≡ true

pub nil-IsLineText : IsLineText []
unfolding has_control mentions is_utf8
nil-IsLineText = record { no_control = refl; no_escape = refl; valid = refl }

-- A point whose texts are carried as they are; a line that starts with # is a comment.
pub record IsLinePoint {F T : Type 0} (p : Point F T) : Type 0 where
  pub measurement_text : IsLineText p.measurement
  pub no_comment : has_prefix p.measurement (codes "#") ≡ false
  pub tag_texts : All (λ (t : Text × Text). IsLineText t.1) p.tags

-- A point that was written without an error is stored, and a query for the points of a tag uuid
-- since the epoch finds it, if its time is in this range and its texts are carried as they are.
pub record Flux {F T : Type 0} (db : InfluxDb F T) : Type 1 where
  pub Stored : InfluxWriter → Point F T → db.State → Type 0
  pub InRange : T → Type 0
  pub write_point-Stored :
      (iw : InfluxWriter) (p : Point F T) (s : db.State)
      → (db.write_point iw p s).0 ≡ none
      → Stored iw p (db.write_point iw p s).1
  pub device_query-rows :
      (iw : InfluxWriter) (uuid : Text) (p : Point F T) (s : db.State) (rows : List (Row F T))
      → IsPlain iw.bucket
      → IsPlain uuid
      → uuid ≢ []
      → lookup (codes "uuid") p.tags ≡ some uuid
      → InRange p.time
      → IsLinePoint p
      → Stored iw p s
      → db.query iw (device_query iw.bucket uuid) s ≡ ok (rows, none)
      → (row : Row F T) × Has row rows × IsRowOf p row

module _ {F T : Type 0} (of_int : ℤ → F) (zero_float : F) where
  Has-parse_rows :
      (row : Row F T) (rows : List (Row F T))
      → Has row rows
      → Has (parse_row of_int zero_float row) (parse_rows of_int zero_float rows)
  unfolding parse_rows
  Has-parse_rows row [] h = absurd h
  Has-parse_rows row (x ∷ rows) (inl same) = inl (ap (parse_row of_int zero_float) same)
  Has-parse_rows row (x ∷ rows) (inr later) = inr (Has-parse_rows row rows later)

  module _ (db : InfluxDb F T) (flux : Flux db) where
    -- A record that was written without an error is among the records of its device, if the
    -- query gives its rows.
    pub query_records-write_telemetry :
        (iw : InfluxWriter) (record' : TelemetryRecord F T) (s : db.State) (rows : List (Row F T))
        → IsPlain iw.bucket
        → IsPlain record'.uuid
        → record'.uuid ≢ []
        → flux.InRange record'.time
        → IsLinePoint (point_of record')
        → (write_telemetry db iw record' s).0 ≡ none
        → db.query iw (device_query iw.bucket record'.uuid) (write_telemetry db iw record' s).1
          ≡ ok (rows, none)
        → (records : List (TelemetryRecord F T)) × (query_telemetry_by_device db iw of_int
              zero_float record'.uuid
              (write_telemetry db iw record' s).1
            ≡ ok records)
          × Has record' records
    unfolding write_telemetry query_telemetry_by_device
    query_records-write_telemetry iw record' s rows bucket plain given range carried written
          answered =
        let p = point_of record' in
        let stored = flux.write_point-Stored iw p s written in
        let tagged : lookup (codes "uuid") p.tags ≡ some record'.uuid =
          unfold point_of lookup text_eqb in refl in
        let time : p.time ≡ record'.time = unfold point_of in refl in
        let (row, there, is) =
          flux.device_query-rows iw record'.uuid p (db.write_point iw p s).1 rows bucket plain given
            tagged (subst flux.InRange (sym time) range) carried stored answered in
        (
          parse_rows of_int zero_float rows,
          unfold query_records parse_query_results in ground (arith, answered),
          subst (λ r. Has r (parse_rows of_int zero_float rows))
              (parse_row-point_of of_int zero_float record' row is) (Has-parse_rows row rows there),
        )
