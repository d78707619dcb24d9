-- ===== src/Ingest/Decode/Warned.antt =====
-- Every record that Decode returns has a known level, and the warnings count the records without a
-- time, back/internal/ingest/decode/decode.go.
use upcontrol.Prelude.{
  ◌+◌, ◌≤◌, ◌≡◌, refl, Bool, Option, none, some, List, [], ◌∷◌, arith, All, length,
}
use upcontrol.Prelude.Bytes.{Bytes}
use upcontrol.Ingest.Decode.Records.{Record, Warnings, no_warnings}
use upcontrol.Ingest.Decode.Formats.{
  Format, unknown, ndjson, json_array, json_object, plain, syslog, otlp, sentry, alertmanager, loki,
  lines_of, Codec, object, object_list, sniff,
}
use upcontrol.Ingest.Decode.Bodies.{
  Decoded, decode_json_array, decode_json_object, decode_loki, decode_otlp, decode_alertmanager,
  decode_as, decode,
}
use upcontrol.Ingest.Decode.Levels.{IsLevelled, count_if, is_unknown, is_untimed, finish-Finished}
use upcontrol.Ingest.Decode.Accounts.{syslog_records-Accounted, ndjson_records-Accounted}

-- A decoder leaves the counts of levels and times.
abbrev IsUntouched : Warnings → Decoded → Type 0
IsUntouched ws d = (d.1.ts_absent ≡ ws.ts_absent) × (d.1.level_unknown ≡ ws.level_unknown)

-- A decoder that fails as a whole counts one unparseable body.
all_or_none :
    {A : Type 0} (o : Option A) (f : A → List Record) (ws : Warnings)
    → IsUntouched ws (elim o [
      | none ↦ ([], record ws { unparseable = ws.unparseable + 1 })
      | some a ↦ (f a, ws)
    ])
all_or_none none f ws = (refl, refl)
all_or_none (some a) f ws = (refl, refl)

all_or_silent :
    {A : Type 0} (o : Option A) (f : A → List Record) (ws : Warnings)
    → IsUntouched ws (elim o [ none ↦ ([], ws) | some a ↦ (f a, ws) ])
all_or_silent none f ws = (refl, refl)
all_or_silent (some a) f ws = (refl, refl)

module _ (c : Codec) where
  decode_as-IsUntouched :
      (f : Format) (body : Bytes) (ws : Warnings) → IsUntouched ws (decode_as c f body ws)
  unfolding decode_as decode_json_array decode_json_object decode_loki decode_otlp
      decode_alertmanager
  decode_as-IsUntouched unknown body ws = (refl, refl)
  decode_as-IsUntouched ndjson body ws =
      let (_, absents, unknowns) = ndjson_records-Accounted c (lines_of body) ws in
      (absents, unknowns)
  decode_as-IsUntouched json_array body ws = all_or_none (object_list c body) _ ws
  decode_as-IsUntouched json_object body ws = all_or_none (object c body) _ ws
  decode_as-IsUntouched plain body ws = (refl, refl)
  decode_as-IsUntouched syslog body ws =
      let (_, absents, unknowns) = syslog_records-Accounted (lines_of body) ws in
      (absents, unknowns)
  decode_as-IsUntouched otlp body ws = all_or_none (c.otlp_records body) _ ws
  decode_as-IsUntouched sentry body ws = (refl, refl)
  decode_as-IsUntouched alertmanager body ws = all_or_silent (object_list c body) _ ws
  decode_as-IsUntouched loki body ws = all_or_none (c.loki_push body) _ ws

  count_if-le : (p : Record → Bool) (rs : List Record) → count_if p rs ≤ length rs
  unfolding count_if
  count_if-le p [] = omega arith
  count_if-le p (r ∷ rs) = ground (arith, count_if-le p rs)

  -- Whatever the body and its form, each record has one of the five levels and at most 32 bytes of the
  -- level as it was sent; the warning for an absent time counts the records that carry none, and that
  -- for an unknown level at most one for each record.
  pub decode-All-IsLevelled :
      (body content_type : Bytes)
      → All IsLevelled (decode c body content_type).0
        × ((decode c body content_type).2.ts_absent
            ≡ count_if is_untimed (decode c body content_type).0)
        × ((decode c body content_type).2.level_unknown ≤ length (decode c body content_type).0)
  unfolding decode
  decode-All-IsLevelled body content_type =
      let f = sniff c body content_type in
      let found = decode_as c f body no_warnings in
      let done = finish-Finished found.0 found.1 in
      let (absents, unknowns) = decode_as-IsUntouched f body no_warnings in
      (
        done.levelled,
        omega (arith, done.absents, done.untimed, absents),
        omega (arith, done.unknowns, unknowns, done.length_kept, count_if-le is_unknown found.0),
      )
