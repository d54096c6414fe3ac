-- ===== src/Collector/Handling.antt =====
-- What the handler of services/collector/main.go makes of a message.
use telemetry_punitha.Prelude.{
  ℕ, zero, suc, ◌<◌, get_elem?, Bool-cases, Option-cases, ◌==◌, ltb→lt, ◌≤◌, ◌≡◌, ◌≢◌, refl, ◌⊎◌,
  inl, inr, Bool, true, false, List, [], ◌∷◌, none, some, Text, codes, text_eq, text_eqb_iff, ltb,
  length, has_prefix, arith,
}
use telemetry_punitha.Prelude.Int.{ℤ}
use telemetry_punitha.MsgQueue.Http.{trim_space}
use telemetry_punitha.MsgQueue.Message.{Message, Codec}
use telemetry_punitha.MsgQueue.Handlers.{Bodies, ProduceCall, payload_of, message_of}
use telemetry_punitha.HttpQueue.{HttpMessageQueue, JsonMap}
use telemetry_punitha.HttpQueue.Delivery.{handle_all}
use telemetry_punitha.Influx.{TelemetryRecord}
use telemetry_punitha.Collector.{
  Formats, field, record_of, Collected, skipped, bad_json, collected, collect, handle,
}

pub Collected-cases :
    {F T : Type 0} (c : Collected F T)
    → (c ≡ skipped) ⊎ (c ≡ bad_json) ⊎ ((r : TelemetryRecord F T) × (c ≡ collected r))
Collected-cases skipped = inl refl
Collected-cases bad_json = inr (inl refl)
Collected-cases (collected r) = inr (inr (r, refl))

-- The fields of a body and the record that they are, field by field.
pub record IsRecordOf {F T : Type 0} (formats : Formats F T) (body : Text) (r : TelemetryRecord F T)
    : Type 0 where
  pub fields : List Text
  pub array : formats.unmarshal_array body ≡ some fields
  pub timestamp : Text
  pub number : Text
  pub first : get_elem? fields 0 ≡ some timestamp
  pub metric : get_elem? fields 1 ≡ some r.metric
  pub gpu_id : get_elem? fields 2 ≡ some r.gpu_id
  pub device_id : get_elem? fields 3 ≡ some r.device_id
  pub uuid : get_elem? fields 4 ≡ some r.uuid
  pub model_name : get_elem? fields 5 ≡ some r.model_name
  pub hostname : get_elem? fields 6 ≡ some r.hostname
  pub container : get_elem? fields 7 ≡ some r.container
  pub pod : get_elem? fields 8 ≡ some r.pod
  pub namespace : get_elem? fields 9 ≡ some r.namespace
  pub tenth : get_elem? fields 10 ≡ some number
  pub labels_raw : get_elem? fields 11 ≡ some r.labels_raw
  pub value : formats.parse_float number ≡ some r.value
  pub time : formats.parse_time timestamp ≡ some r.time

-- A body that is an array with fewer than twelve fields, or without a number or a time in its place.
abbrev pub IsBad : {F T : Type 0} → Formats F T → Text → Type 0
IsBad formats body =
    (xs : List Text) × (formats.unmarshal_array body ≡ some xs)
    × ((length xs < 12)
        ⊎ (formats.parse_float (field 10 xs) ≡ none)
        ⊎ (formats.parse_time (field 0 xs) ≡ none))

get_elem_field : (i : ℕ) (xs : List Text) → i < length xs → get_elem? xs i ≡ some (field i xs)
unfolding field
get_elem_field i [] h = absurd (omega arith)
get_elem_field zero (x ∷ xs) h = refl
get_elem_field (suc i) (x ∷ xs) h = get_elem_field i xs (omega arith)

module _ {F T : Type 0} (formats : Formats F T) where
  pub collect-marshal_array :
      (csv_record : List Text) (value : F) (timestamp : T)
      → formats.IsPlainArray csv_record
      → formats.marshal_array csv_record ≢ []
      → 12 ≤ length csv_record
      → formats.parse_float (field 10 csv_record) ≡ some value
      → formats.parse_time (field 0 csv_record) ≡ some timestamp
      → collect formats (formats.marshal_array csv_record)
        ≡ collected (record_of formats csv_record value timestamp)
  unfolding collect
  collect-marshal_array csv_record value timestamp plain given long number date =
      let back = formats.unmarshal-marshal_array csv_record plain in
      let whole : ltb (length csv_record) 12 ≡ false = ground arith in
      ground (arith, text_eqb_iff (formats.marshal_array csv_record) [])

  payload_of-entry :
      (bodies : Bodies) (body inner : Text)
      → has_prefix (trim_space body) (codes "{") ≡ true
      → bodies.payload_field (trim_space body) ≡ some inner
      → inner ≢ []
      → payload_of bodies body ≡ inner
  unfolding payload_of
  payload_of-entry bodies body inner object there given =
      rw (object, there) (ground (arith, text_eqb_iff inner []))

  -- From the streamer's row to the collector's record: if the broker reads the field "payload"
  -- of the JSON object that the client posts, and the array of strings is read back from its
  -- JSON text, which is not empty, then a row of twelve fields or more, with a number and a time
  -- in their places, arrives as the record of its fields.
  pub collect-message_of :
      (codec : Codec) (bodies : Bodies) (call : ProduceCall) (json : JsonMap) (topic : Text)
      (part : ℤ) (csv_record : List Text) (value : F) (timestamp : T)
      → let payload = formats.marshal_array csv_record in
        let body = json.entry (codes "payload") payload in
        has_prefix (trim_space body) (codes "{") ≡ true
        → bodies.payload_field (trim_space body) ≡ some payload
        → formats.IsPlainArray csv_record
        → payload ≢ []
        → 12 ≤ length csv_record
        → formats.parse_float (field 10 csv_record) ≡ some value
        → formats.parse_time (field 0 csv_record) ≡ some timestamp
        → collect formats (message_of codec bodies call topic part body).payload
          ≡ collected (record_of formats csv_record value timestamp)
  unfolding message_of
  collect-message_of codec bodies call json topic part csv_record value timestamp object there plain
        given long number date =
      let payload = formats.marshal_array csv_record in
      let body = json.entry (codes "payload") payload in
      rw (payload_of-entry bodies body payload object there given)
        (collect-marshal_array csv_record value timestamp plain given long number date)

  record_of-IsRecordOf :
      (body : Text) (xs : List Text) (value : F) (timestamp : T)
      → formats.unmarshal_array body ≡ some xs
      → ltb (length xs) 12 ≡ false
      → formats.parse_float (field 10 xs) ≡ some value
      → formats.parse_time (field 0 xs) ≡ some timestamp
      → IsRecordOf formats body (record_of formats xs value timestamp)
  unfolding record_of
  record_of-IsRecordOf body xs value timestamp array long number date =
      let whole : 12 ≤ length xs = ground arith in
      let at = λ (i : ℕ) (h : i < 12). get_elem_field i xs (omega (arith, h, whole)) in
      record {
        fields = xs;
        array = array;
        timestamp = field 0 xs;
        number = field 10 xs;
        first = at 0 (omega arith);
        metric = at 1 (omega arith);
        gpu_id = at 2 (omega arith);
        device_id = at 3 (omega arith);
        uuid = at 4 (omega arith);
        model_name = at 5 (omega arith);
        hostname = at 6 (omega arith);
        container = at 7 (omega arith);
        pod = at 8 (omega arith);
        namespace = at 9 (omega arith);
        tenth = at 10 (omega arith);
        labels_raw = at 11 (omega arith);
        value = number;
        time = date;
      }

  module _ {ℓ} {S : Type ℓ} (write : S → TelemetryRecord F T → Bool × S) where
    -- What the collector's handler does with a body: one that is not empty and is no JSON array
    -- of strings is refused, and one that is empty, or an array with fewer than twelve fields or
    -- without a number or a time in its place, is taken and dropped, both without touching the
    -- database; any other one is the array of a record, field by field, and the handler answers
    -- what the write of this record answers.
    pub handle_cases :
        (database : S) (topic body id : Text)
        → ((body ≢ [])
            × (formats.unmarshal_array body ≡ none)
            × (handle formats write database topic body id ≡ (false, database)))
          ⊎ (((body ≡ []) ⊎ IsBad formats body)
              × (handle formats write database topic body id ≡ (true, database)))
          ⊎ ((r : TelemetryRecord F T) × IsRecordOf formats body r
              × (handle formats write database topic body id ≡ write database r))
    unfolding handle collect record_of field
    handle_cases database topic body id = elim (Bool-cases (body == [])) [
      | inl empty ↦ inr (inl (inl ((text_eqb_iff body []).0 empty), rw (handle, empty) refl))
      | inr given ↦
          let some_text : body ≢ [] = λ e. ground (arith, text_eqb_iff body []) in
          elim (Option-cases (formats.unmarshal_array body)) [
            | inl bad ↦ inl (some_text, bad, rw (handle, given, bad) refl)
            | inr (xs, array) ↦ elim (Bool-cases (ltb (length xs) 12)) [
              | inl short ↦ inr (
                  inl (
                    inr (xs, array, inl (ltb→lt _ _ short)),
                    rw (handle, given, array, short) refl,
                  ))
              | inr long ↦ elim (Option-cases (formats.parse_float (field 10 xs))) [
                | inl no_number ↦ inr (
                    inl (
                      inr (xs, array, inr (inl no_number)),
                      rw (handle, given, array, long, no_number) refl,
                    ))
                | inr (value, number) ↦ elim (Option-cases (formats.parse_time (field 0 xs))) [
                  | inl no_time ↦ inr (
                      inl (
                        inr (xs, array, inr (inr no_time)),
                        rw (handle, given, array, long, number, no_time) refl,
                      ))
                  | inr (timestamp, date) ↦ inr (
                      inr (
                        record_of formats xs value timestamp,
                        record_of-IsRecordOf body xs value timestamp array long number date,
                        rw (handle, given, array, long, number, date) refl,
                      ))
                ]
              ]
            ]
          ]
    ]

    -- A message whose payload is not empty and is no JSON array of strings is never acknowledged
    -- by the collector, and it neither stops the others nor touches the database.
    pub handle_all-bad_json :
        (codec : Codec) (json : JsonMap) (h : HttpMessageQueue) (m : Message) (ms : List Message)
        (database : S)
        → m.payload ≢ []
        → formats.unmarshal_array m.payload ≡ none
        → handle_all codec json h (handle formats write) (m ∷ ms) database
          ≡ handle_all codec json h (handle formats write) ms database
    unfolding handle_all
    handle_all-bad_json codec json h m ms database given bad =
        let poison : collect formats m.payload ≡ bad_json =
          unfold collect in ground (arith, text_eqb_iff m.payload []) in
        let refused : handle formats write database m.topic m.payload m.id ≡ (false, database) =
          unfold handle in ground arith in
        rw refused refl
