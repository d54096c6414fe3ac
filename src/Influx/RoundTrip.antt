-- ===== src/Influx/RoundTrip.antt =====
-- What internal/influx/influx.go writes it reads back.
use telemetry_punitha.Prelude.{
  ◌≡◌, ◌≢◌, refl, ◌∙◌, ◌⊎◌, [], ◌∷◌, none, some, Text, codes, text_eq, text_eqb, arith,
}
use telemetry_punitha.Prelude.Int.{ℤ}
use telemetry_punitha.Prelude.Map.{lookup}
use telemetry_punitha.Influx.{
  TelemetryRecord, Point, string, float, Row, point_of, string_at, value_at, parse_row,
}

-- The row in which InfluxDB gives a point back: its tags are string columns, and a tag with an empty
-- value has no column, or an empty one.
pub record IsRowOf {F T : Type 0} (p : Point F T) (row : Row F T) : Type 0 where
  pub time : row.time ≡ p.time
  pub measurement : lookup (codes "_measurement") row.values ≡ some (string p.measurement)
  pub value : lookup (codes "_value") row.values ≡ some (float p.value)
  pub tag :
      (key v : Text) → lookup key p.tags ≡ some v → v ≢ [] → lookup key row.values ≡ some (string v)
  pub empty_tag :
      (key : Text)
      → lookup key p.tags ≡ some []
      → (lookup key row.values ≡ none) ⊎ (lookup key row.values ≡ some (string []))

module _ {F T : Type 0} (of_int : ℤ → F) (zero_float : F) where
  string_at_tag :
      (p : Point F T) (row : Row F T) (key v : Text)
      → IsRowOf p row
      → lookup key p.tags ≡ some v
      → string_at key row ≡ v
  unfolding string_at
  string_at_tag p row key [] is e = ground (arith, is.empty_tag key e)
  string_at_tag p row key (c ∷ v) is e =
      let there = is.tag key (c ∷ v) e (λ q. ground arith) in ground (arith, there)

  -- A record that WriteTelemetry writes as a point is read back whole from the row in which
  -- InfluxDB gives that point back.
  pub parse_row-point_of :
      (r : TelemetryRecord F T) (row : Row F T)
      → IsRowOf (point_of r) row
      → parse_row of_int zero_float row ≡ r
  unfolding parse_row
  parse_row-point_of r row is =
      let tag = λ (key v : Text) (e : lookup key (point_of r).tags ≡ some v).
        string_at_tag (point_of r) row key v is e in
      let device = tag (codes "device_id") r.device_id (unfold point_of lookup text_eqb in refl) in
      let gpu = tag (codes "gpu_id") r.gpu_id (unfold point_of lookup text_eqb in refl) in
      let uuid = tag (codes "uuid") r.uuid (unfold point_of lookup text_eqb in refl) in
      let model = tag (codes "modelName") r.model_name (unfold point_of lookup text_eqb in refl) in
      let host = tag (codes "Hostname") r.hostname (unfold point_of lookup text_eqb in refl) in
      let container =
        tag (codes "container") r.container (unfold point_of lookup text_eqb in refl) in
      let pod = tag (codes "pod") r.pod (unfold point_of lookup text_eqb in refl) in
      let space = tag (codes "namespace") r.namespace (unfold point_of lookup text_eqb in refl) in
      let labels =
        tag (codes "labels_raw") r.labels_raw (unfold point_of lookup text_eqb in refl) in
      let name : (point_of r).measurement ≡ r.metric = unfold point_of in refl in
      let number : (point_of r).value ≡ r.value = unfold point_of in refl in
      let metric : string_at (codes "_measurement") row ≡ r.metric =
        unfold string_at in ground (arith, is.measurement) in
      let value : value_at of_int zero_float row ≡ r.value =
        unfold value_at in ground (arith, is.value) in
      let time : row.time ≡ r.time = is.time ∙ (unfold point_of in refl) in
      rw (device, gpu, uuid, model, host, container, pod, space, labels, metric, value, time) refl
