-- ===== src/Api/Telemetry.antt =====
-- The telemetry endpoint of services/api/main.go.
use telemetry_punitha.Prelude.{
  ◌≡◌, refl, ap, ◌∙◌, true, false, ◌||◌, List, [], ◌∷◌, ◌++◌, Option, none, some, Text, codes,
  text_eq, append_given, text_eqb_iff, ◌==◌, mentions, split, split-append, trim_prefix,
  trim_prefix-append, if◌then◌else◌, Result, arith,
}
use telemetry_punitha.Influx.{TelemetryRecord, device_query}
use telemetry_punitha.Api.{
  bad_time, Request, gpu_of, answer_of, range_query, query_by_device_time_range, telemetry_of,
  gpu_telemetry,
}

gpu_of-split :
    (id : Text)
    → mentions b'/' id ≡ false
    → gpu_of (split b'/' (id ++ codes "/telemetry")) ≡ some id
unfolding gpu_of
gpu_of-split id h =
    let known : split b'/' (codes "telemetry") ≡ codes "telemetry" ∷ [] = unfold split in refl in
    ap gpu_of (split-append b'/' id (codes "telemetry") h ∙ ap (λ l. id ∷ l) known)
    ∙ ground (arith, text_eqb_iff (codes "telemetry") (codes "telemetry"))

module _ {F T : Type 0} (parse_time : Text → Option T) (print_time : T → Text)
    (query : Text → Result Text (List (TelemetryRecord F T))) where
  reach_telemetry :
      (bucket id : Text) (r : Request)
      → r.is_get ≡ true
      → r.path ≡ codes "/api/v1/gpus/" ++ (id ++ codes "/telemetry")
      → mentions b'/' id ≡ false
      → gpu_telemetry parse_time print_time query bucket r
        ≡ telemetry_of parse_time print_time query bucket r id
  unfolding gpu_telemetry
  reach_telemetry bucket id r get path plain =
      let cut : trim_prefix r.path (codes "/api/v1/gpus/") ≡ id ++ codes "/telemetry" =
        ap (λ s. trim_prefix s (codes "/api/v1/gpus/")) path
        ∙ trim_prefix-append (codes "/api/v1/gpus/") (id ++ codes "/telemetry") in
      let some_path : ((id ++ codes "/telemetry") == []) ≡ false =
        append_given id (codes "telemetry") b'/' in
      let found = gpu_of-split id plain in ground (arith, cut, some_path, found)

  -- A GET of /api/v1/gpus/<id>/telemetry, for an ID with no slash, is answered with the records
  -- of that device: of all times if a bound is missing, and otherwise of the range between the
  -- two times, or with 400 if one of them is no time.
  pub gpu_telemetry_lem :
      (bucket id : Text) (r : Request)
      → r.is_get ≡ true
      → r.path ≡ codes "/api/v1/gpus/" ++ (id ++ codes "/telemetry")
      → mentions b'/' id ≡ false
      → let answer = answer_of (codes "Failed to query telemetry data") id in
        gpu_telemetry parse_time print_time query bucket r ≡ (
          if r.start_time == [] || r.end_time == []
          then answer (query (device_query bucket id))
          else elim (parse_time r.start_time) [
            | none ↦ bad_time
            | some start ↦ elim (parse_time r.end_time) [
              | none ↦ bad_time
              | some stop ↦ answer (query (range_query print_time bucket id start stop))
            ]
          ])
  unfolding telemetry_of query_by_device_time_range
  gpu_telemetry_lem bucket id r get path plain =
      reach_telemetry bucket id r get path plain
      ∙ ground (arith, text_eqb_iff r.start_time [], text_eqb_iff r.end_time [])
