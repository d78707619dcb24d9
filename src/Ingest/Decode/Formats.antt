-- ===== src/Ingest/Decode/Formats.antt =====
-- Sniffing a body's form and decoding it, back/internal/ingest/decode/decode.go.
use upcontrol.Prelude.{
  ℕ, ◌+◌, ◌*◌, ◌-◌, Bool, false, ◌&&◌, ◌||◌, not, Option, none, some, List, [], ◌∷◌, ltb, ◌==◌,
  if◌then◌else◌, is_empty, is_some, length, map,
}
use upcontrol.Prelude.Bytes.{
  Bytes, codes, newline, take, trim_space, trim_left, trim_right, split_byte, index_byte, contains,
}
use upcontrol.Ingest.Normalize.{lower}
use upcontrol.Ingest.Decode.Json.{Json, Fields, lookup, has_key, object_of, objects_of, fields_of}
use upcontrol.Ingest.Decode.Times.{is_digit}
use upcontrol.Ingest.Decode.Records.{Attrs}

pub data Format : Type 0 where
  unknown ndjson json_array json_object plain syslog otlp sentry alertmanager loki : Format

abbrev pub is_cr : ℕ → Bool
is_cr c = c == 13

abbrev is_json_space : ℕ → Bool
is_json_space c = c == b' ' || c == 9 || c == 13 || c == newline

unfoldable pub first_line : Bytes → Bytes
unfolding index_byte take trim_right
first_line b = elim (index_byte b newline) [ none ↦ b | some i ↦ trim_right is_cr (take i b) ]

-- The lines that are not blank, trimmed.
unfoldable pub full_lines : List Bytes → List Bytes
full_lines [] = []
full_lines (l ∷ ls) =
    let rest = full_lines ls in if is_empty (trim_space l) then rest else trim_space l ∷ rest

abbrev pub lines_of : Bytes → List Bytes
lines_of b = full_lines (split_byte newline b)

unfoldable pub has_many_lines : Bytes → Bool
has_many_lines b = ltb 1 (length (lines_of b))

-- The digits after the bracket, of which there may be three, and the value of those before.
unfoldable pub pri_digits : ℕ → ℕ → Bytes → Option ℕ
pri_digits i n [] = none
pri_digits i n (c ∷ s) =
    let rest = pri_digits (i + 1) (n * 10 + (c - b'0')) s in
    if is_digit c
    then (if ltb 4 (i + 1) then none else rest)
    else if c == b'>'
    then some n
    else none

unfoldable pub parse_syslog_pri : Bytes → Option ℕ
unfolding pri_digits
parse_syslog_pri [] = none
parse_syslog_pri (c ∷ s) =
    if ltb (length (c ∷ s)) 3 || not (c == b'<') then none else pri_digits 1 0 s

unfoldable pub syslog_severity : ℕ → Bytes
syslog_severity sev =
    if ltb sev 4
    then codes "error"
    else if sev == 4
    then codes "warn"
    else if sev == 7
    then codes "debug"
    else codes "info"

abbrev pub starts_brace : Bytes → Bool
starts_brace [] = false
starts_brace (x ∷ _) = x == b'{'

-- What json.Unmarshal makes of a Loki push, and of the attributes and records of an OTLP document.
pub record Stream : Type 0 where
  pub labels : Attrs
  pub values : List (List Bytes)

pub record LogRecord : Type 0 where
  pub time_unix_nano : Bytes
  pub severity_text : Bytes
  pub body : Option Fields
  pub attributes : List (Bytes × Fields)

-- json.Unmarshal into an any, into the two structs, json.Marshal, and time.Parse with the layouts.
pub record Codec : Type 0 where
  pub unmarshal : Bytes → Option Json
  pub loki_push : Bytes → Option (List Stream)
  pub otlp_records : Bytes → Option (List (List (List LogRecord)))
  pub marshal : Json → Bytes
  pub layouts : Bytes → Option ℕ

abbrev pub bind {ℓ κ} : {A : Type ℓ} {B : Type κ} → Option A → (A → Option B) → Option B
bind none f = none
bind (some a) f = f a

module _ (c : Codec) where
  open c use {unmarshal, loki_push, otlp_records, marshal, layouts}

  abbrev pub object : Bytes → Option Json
  object b = bind (unmarshal b) object_of

  abbrev pub object_list : Bytes → Option (List Json)
  object_list b = bind (unmarshal b) objects_of

  abbrev is_alert : List Json → Bool
  is_alert [] = false
  is_alert (m ∷ ms) =
      has_key (fields_of m) (codes "status")
      && has_key (fields_of m) (codes "labels")
      && has_key (fields_of m) (codes "startsAt")

  unfoldable pub looks_like_alertmanager : Bytes → Bool
  unfolding objects_of lookup
  looks_like_alertmanager b = elim (object_list b) [ none ↦ false | some ms ↦ is_alert ms ]

  -- The branch on a first line that starts with a brace.
  unfoldable pub sniff_object : Option Json → Bytes → Format
  unfolding has_many_lines lookup
  sniff_object none b = if has_many_lines b then ndjson else json_object
  sniff_object (some head) b =
      if has_key (fields_of head) (codes "event_id") && has_many_lines b
      then sentry
      else if has_key (fields_of head) (codes "resourceLogs")
      then otlp
      else if has_key (fields_of head) (codes "streams")
      then loki
      else if has_many_lines b
      then ndjson
      else json_object

  abbrev sniff_syslog : Bytes → Format
  sniff_syslog b = if is_some (parse_syslog_pri b) then syslog else plain

  unfoldable pub sniff_trimmed : Bytes → Format
  unfolding sniff_object looks_like_alertmanager parse_syslog_pri first_line
  sniff_trimmed [] = unknown
  sniff_trimmed (d ∷ b) =
      if starts_brace (first_line (d ∷ b))
      then sniff_object (object (first_line (d ∷ b))) (d ∷ b)
      else if d == b'['
      then (if looks_like_alertmanager (d ∷ b) then alertmanager else json_array)
      else if d == b'<'
      then sniff_syslog (d ∷ b)
      else plain

  -- The hints of the Content-Type come after the test for an empty body.
  unfoldable pub sniff : Bytes → Bytes → Format
  unfolding sniff_trimmed contains trim_left
  sniff body content_type =
      let ct = map lower (trim_space content_type) in
      let trimmed = trim_left is_json_space body in
      if is_empty trimmed
      then unknown
      else if contains ct (codes "sentry")
      then sentry
      else if contains ct (codes "loki")
      then loki
      else sniff_trimmed trimmed
