-- ===== src/Ingest/Decode/Records.antt =====
-- The records of back/internal/ingest/decode/decode.go and their levels.
use upcontrol.Prelude.{
  ℕ, ◌+◌, Bool, false, ◌||◌, Option, none, some, List, [], ◌∷◌, ltb, if◌then◌else◌, length, map,
}
use upcontrol.Prelude.Bytes.{Bytes, codes, take, trim_space}
use upcontrol.Ingest.Normalize.{bytes_eq, lower}
use upcontrol.Ingest.Decode.Json.{Json, bool, Fields, fields_of, empty, field, to_string}
use upcontrol.Ingest.Decode.Times.{Moment, absent, is_zero_time, parse_time}

abbrev pub Attrs : Type 0
Attrs = List (Bytes × Bytes)

pub record Record : Type 0 where
  pub time : Moment
  pub level : Bytes
  pub level_raw : Bytes
  pub service : Bytes
  pub host : Bytes
  pub message : Bytes
  pub attrs : Attrs
  pub raw : Bytes
  pub named : Bool

abbrev pub blank_record : Record
blank_record = record {
  time = absent;
  level = [];
  level_raw = [];
  service = [];
  host = [];
  message = [];
  attrs = [];
  raw = [];
  named = false;
}

-- The counts of the closed dictionary of warnings.
pub record Warnings : Type 0 where
  pub ts_absent : ℕ
  pub level_unknown : ℕ
  pub unparseable : ℕ

abbrev pub no_warnings : Warnings
no_warnings = record { ts_absent = 0; level_unknown = 0; unparseable = 0 }

-- `ws.add(WarnUnparseable)`, and the same for the other two.
abbrev pub add_unparseable : Warnings → Warnings
add_unparseable ws = record ws { unparseable = ws.unparseable + 1 }

abbrev pub add_level_unknown : Warnings → Warnings
add_level_unknown ws = record ws { level_unknown = ws.level_unknown + 1 }

abbrev pub add_ts_absent : Warnings → Warnings
add_ts_absent ws = record ws { ts_absent = ws.ts_absent + 1 }

-- `r.Attrs[k] = v`
unfoldable pub set_attr : Attrs → Bytes → Bytes → Attrs
set_attr [] k v = (k, v) ∷ []
set_attr ((j, w) ∷ m) k v = if bytes_eq j k then (k, v) ∷ m else (j, w) ∷ set_attr m k v

unfoldable pub one_of : List Bytes → Bytes → Bool
one_of [] t = false
one_of (k ∷ ks) t = bytes_eq t k || one_of ks t

abbrev info : Bytes
info = codes "info"

-- The cases of the switch, each with the spellings that it takes.
abbrev pub info_words : List Bytes
info_words = [] ∷ codes "info" ∷ codes "notice" ∷ []

abbrev pub warn_words : List Bytes
warn_words = codes "warn" ∷ codes "warning" ∷ []

abbrev pub error_words : List Bytes
error_words =
    codes "error"
    ∷ codes "err"
    ∷ codes "fatal"
    ∷ codes "critical"
    ∷ codes "crit"
    ∷ codes "panic"
    ∷ codes "emerg"
    ∷ codes "emergency"
    ∷ codes "alert"
    ∷ []

-- `none` is the default case.
unfoldable pub canonical : Bytes → Option Bytes
canonical t =
    if one_of info_words t
    then some (codes "info")
    else if one_of warn_words t
    then some (codes "warn")
    else if one_of error_words t
    then some (codes "error")
    else if bytes_eq t (codes "debug")
    then some (codes "debug")
    else if bytes_eq t (codes "trace")
    then some (codes "trace")
    else none

-- Past 32 bytes the rest is cut off.
unfoldable pub capped : Bytes → Bytes
capped t = if ltb 32 (length t) then take 32 t else t

unfoldable pub normalize_level : Record → Warnings → Record × Warnings
normalize_level r ws = elim (canonical (map lower (trim_space r.level))) [
  | none ↦ (record r { level = codes "info"; level_raw = capped r.level }, add_level_unknown ws)
  | some l ↦ (record r { level = l; level_raw = capped r.level }, ws)
]

-- The loop of Decode over the records.
unfoldable pub finish : List Record → Warnings → List Record × Warnings
finish [] ws = ([], ws)
finish (r ∷ rs) ws =
    let (r', levels) = normalize_level r ws in
    let (rs', last) = finish rs (if is_zero_time r'.time then add_ts_absent levels else levels) in
    (r' ∷ rs', last)

module _ (marshal : Json → Bytes) (layouts : Bytes → Option ℕ) where
  is_true : Json → Bool
  is_true (bool b) = b
  is_true _ = false

  -- One round of the range over the object.
  unfoldable pub take_field : Bytes → Json → Record → Record
  unfolding one_of to_string is_true set_attr
  take_field k v r =
      if one_of (codes "ts" ∷ codes "time" ∷ codes "timestamp" ∷ codes "@timestamp" ∷ []) k
      then record r { time = parse_time layouts (to_string marshal v) }
      else if one_of (codes "level" ∷ codes "severity" ∷ []) k
      then record r { level = to_string marshal v }
      else if one_of (codes "service" ∷ codes "svc" ∷ []) k
      then record r { service = to_string marshal v }
      else if one_of (codes "host" ∷ codes "hostname" ∷ []) k
      then record r { host = to_string marshal v }
      else if one_of (codes "msg" ∷ codes "message" ∷ []) k
      then record r { message = to_string marshal v }
      else if bytes_eq k (codes "uc.event")
      then record r { named = is_true v }
      else record r { attrs = set_attr r.attrs k (to_string marshal v) }

  unfoldable pub take_fields : Fields → Record → Record
  unfolding take_field
  take_fields empty r = r
  take_fields (field k v m) r = take_fields m (take_field k v r)

  abbrev message_or_raw : Record → Record
  message_or_raw r = elim r.message [ [] ↦ record r { message = r.raw } | _ ∷ _ ↦ r ]

  unfoldable pub record_from_object : Json → Record
  unfolding take_fields
  record_from_object v =
      message_or_raw (take_fields (fields_of v) (record blank_record { raw = marshal v }))
