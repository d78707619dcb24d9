-- ===== src/Ingest/Decode/Bodies.antt =====
-- The decoders of the forms and Decode, back/internal/ingest/decode/decode.go.
use upcontrol.Prelude.{
  ◌%◌, true, Option, none, some, List, [], ◌∷◌, ◌++◌, leb, if◌then◌else◌, is_empty, map,
}
use upcontrol.Prelude.Bytes.{Bytes, codes, newline, trim_space, trim_right, split_byte}
use upcontrol.Ingest.Normalize.{bytes_eq}
use upcontrol.Ingest.Decode.Json.{
  Json, str, obj, Fields, empty, field, lookup, has_key, fields_of, size, to_string, string_at,
}
use upcontrol.Ingest.Decode.Times.{Moment, absent, parse_time, parse_loki_ts, parse_unix_nano}
use upcontrol.Ingest.Decode.Records.{
  Attrs, Record, blank_record, Warnings, no_warnings, add_unparseable, set_attr, one_of, finish,
  record_from_object,
}
use upcontrol.Ingest.Decode.Formats.{
  Format, unknown, ndjson, json_array, json_object, plain, syslog, otlp, sentry, alertmanager, loki,
  lines_of, is_cr, starts_brace, parse_syslog_pri, syslog_severity, Stream, LogRecord, Codec,
  object, object_list, sniff,
}

abbrev pub Decoded : Type 0
Decoded = List Record × Warnings

abbrev pub also : List Record → Decoded → Decoded
also rs d = (rs ++ d.0, d.1)

-- One label of a Loki stream.
unfoldable pub take_label : Record → Bytes → Bytes → Record
unfolding bytes_eq one_of set_attr
take_label r k v =
    if bytes_eq k (codes "level")
    then record r { level = v }
    else if one_of (codes "service" ∷ codes "job" ∷ []) k
    then record r { service = v }
    else if one_of (codes "host" ∷ codes "instance" ∷ []) k
    then record r { host = v }
    else record r { attrs = set_attr r.attrs k v }

unfoldable pub take_labels : Attrs → Record → Record
unfolding take_label
take_labels [] r = r
take_labels ((k, v) ∷ rest) r = take_labels rest (take_label r k v)

unfoldable pub plain_records : List Bytes → List Record
plain_records [] = []
plain_records (l ∷ ls) =
    let rest = plain_records ls in
    let cut = trim_right is_cr l in
    if is_empty (trim_space cut) then rest else record blank_record { message = cut } ∷ rest

unfoldable pub syslog_records : List Bytes → Warnings → Decoded
syslog_records [] ws = ([], ws)
syslog_records (l ∷ ls) ws = elim (parse_syslog_pri l) [
  | none ↦ syslog_records ls (add_unparseable ws)
  | some pri ↦
      also (record blank_record { message = l; level = syslog_severity (pri % 8) } ∷ [])
        (syslog_records ls ws)
]

module _ (c : Codec) where
  open c use {loki_push, otlp_records, marshal, layouts}

  unfoldable pub ndjson_records : List Bytes → Warnings → Decoded
  ndjson_records [] ws = ([], ws)
  ndjson_records (l ∷ ls) ws = elim (object c l) [
    | none ↦ ndjson_records ls (add_unparseable ws)
    | some m ↦ also (record_from_object marshal layouts m ∷ []) (ndjson_records ls ws)
  ]

  unfoldable pub decode_json_array : Bytes → Warnings → Decoded
  decode_json_array body ws = elim (object_list c body) [
    | none ↦ ([], add_unparseable ws)
    | some ms ↦ (map (record_from_object marshal layouts) ms, ws)
  ]

  abbrev event_attrs : Fields → Attrs
  event_attrs m = elim (lookup m (codes "name")) [
    | none ↦ []
    | some n ↦ (codes "name", to_string marshal n) ∷ []
  ]

  -- The shape {"event": …} with four keys at most is one event.
  unfoldable pub object_record : Json → Record
  unfolding lookup size to_string
  object_record v = elim (lookup (fields_of v) (codes "event")) [
    | none ↦ record_from_object marshal layouts v
    | some ev ↦
        if leb (size (fields_of v)) 4
        then record blank_record {
          message = to_string marshal ev;
          named = true;
          attrs = event_attrs (fields_of v);
        }
        else record_from_object marshal layouts v
  ]

  unfoldable pub decode_json_object : Bytes → Warnings → Decoded
  decode_json_object body ws = elim (object c body) [
    | none ↦ ([], add_unparseable ws)
    | some m ↦ (object_record m ∷ [], ws)
  ]

  abbrev no_attrs : Bytes → Moment → Record
  no_attrs message time = record blank_record { message = message; time = time }

  unfoldable pub stream_records : Attrs → List (List Bytes) → List Record
  unfolding take_labels parse_loki_ts
  stream_records labels [] = []
  stream_records labels ([] ∷ ps) = stream_records labels ps
  stream_records labels ((line ∷ []) ∷ ps) =
      take_labels labels (no_attrs line absent) ∷ stream_records labels ps
  stream_records labels ((ts ∷ line ∷ rest) ∷ ps) =
      take_labels labels (no_attrs line (parse_loki_ts layouts ts)) ∷ stream_records labels ps

  unfoldable pub streams_records : List Stream → List Record
  unfolding stream_records
  streams_records [] = []
  streams_records (s ∷ ss) = stream_records s.labels s.values ++ streams_records ss

  unfoldable pub decode_loki : Bytes → Warnings → Decoded
  decode_loki body ws = elim (loki_push body) [
    | none ↦ ([], add_unparseable ws)
    | some ss ↦ (streams_records ss, ws)
  ]

  -- One label of an alert.
  unfoldable pub take_alert_label : Record → Bytes → Bytes → Record
  unfolding bytes_eq set_attr
  take_alert_label r k v =
      let kept = record r { attrs = set_attr r.attrs k v } in
      if bytes_eq k (codes "alertname")
      then record kept { message = v }
      else if bytes_eq k (codes "severity")
      then record kept { level = v }
      else kept

  unfoldable pub take_alert_labels : Fields → Record → Record
  unfolding take_alert_label to_string
  take_alert_labels empty r = r
  take_alert_labels (field k v m) r =
      take_alert_labels m (take_alert_label r k (to_string marshal v))

  abbrev labelled : Option Json → Record
  labelled (some (obj m)) = take_alert_labels m blank_record
  labelled _ = blank_record

  abbrev message_or_status : Fields → Record → Record
  message_or_status m r = elim r.message [
    | [] ↦ record r { message = string_at marshal m (codes "status") }
    | _ ∷ _ ↦ r
  ]

  abbrev starts_at : Option Json → Record → Record
  starts_at (some (str t)) r = record r { time = parse_time layouts t }
  starts_at _ r = r

  unfoldable pub alert_record : Json → Record
  unfolding lookup take_alert_labels to_string parse_time
  alert_record v =
      let m = fields_of v in
      starts_at (lookup m (codes "startsAt"))
        (message_or_status m (labelled (lookup m (codes "labels"))))

  unfoldable pub decode_alertmanager : Bytes → Warnings → Decoded
  decode_alertmanager body ws = elim (object_list c body) [
    | none ↦ ([], ws)
    | some ms ↦ (map alert_record ms, ws)
  ]

  unfoldable pub otlp_attrs : Attrs → List (Bytes × Fields) → Attrs
  unfolding lookup set_attr to_string
  otlp_attrs m [] = m
  otlp_attrs m ((k, v) ∷ rest) =
      otlp_attrs
        (elim (lookup v (codes "stringValue")) [
          | none ↦ m
          | some t ↦ set_attr m k (to_string marshal t)
        ])
        rest

  abbrev otlp_message : Option Fields → Bytes
  otlp_message none = []
  otlp_message (some m) = string_at marshal m (codes "stringValue")

  unfoldable pub otlp_record : LogRecord → Record
  unfolding otlp_attrs lookup to_string parse_unix_nano
  otlp_record l = record blank_record {
    level = l.severity_text;
    message = otlp_message l.body;
    time = parse_unix_nano l.time_unix_nano;
    attrs = otlp_attrs [] l.attributes;
  }

  abbrev concat_map {ℓ} : {A : Type ℓ} → (A → List Record) → List A → List Record
  concat_map f [] = []
  concat_map f (x ∷ xs) = f x ++ concat_map f xs

  unfoldable pub decode_otlp : Bytes → Warnings → Decoded
  decode_otlp body ws = elim (otlp_records body) [
    | none ↦ ([], add_unparseable ws)
    | some rls ↦ (concat_map (concat_map (map otlp_record)) rls, ws)
  ]

  abbrev sentry_level : Fields → Bytes
  sentry_level m = elim (lookup m (codes "level")) [
    | some l ↦ to_string marshal l
    | none ↦ if has_key m (codes "exception") then codes "error" else []
  ]

  -- A line that is no object with a message gives nothing.
  unfoldable pub sentry_item : Option Json → List Record
  unfolding lookup to_string
  sentry_item none = []
  sentry_item (some v) =
      let m = fields_of v in
      let message = string_at marshal m (codes "message") in
      if is_empty message
      then []
      else record blank_record { message = message; level = sentry_level m } ∷ []

  unfoldable pub sentry_records : List Bytes → List Record
  unfolding sentry_item
  sentry_records [] = []
  sentry_records (l ∷ ls) =
      (if starts_brace l then sentry_item (object c l) else []) ++ sentry_records ls

  unfoldable pub decode_as : Format → Bytes → Warnings → Decoded
  decode_as unknown body ws = ([], ws)
  decode_as ndjson body ws = ndjson_records (lines_of body) ws
  decode_as json_array body ws = decode_json_array body ws
  decode_as json_object body ws = decode_json_object body ws
  decode_as plain body ws = (plain_records (split_byte newline body), ws)
  decode_as syslog body ws = syslog_records (lines_of body) ws
  decode_as otlp body ws = decode_otlp body ws
  decode_as sentry body ws = (sentry_records (lines_of body), ws)
  decode_as alertmanager body ws = decode_alertmanager body ws
  decode_as loki body ws = decode_loki body ws

  -- The records, the form and the warnings.
  unfoldable pub decode : Bytes → Bytes → List Record × Format × Warnings
  decode body content_type =
      let format = sniff c body content_type in
      let found = decode_as format body no_warnings in
      let done = finish found.0 found.1 in (done.0, format, done.1)
