-- ===== src/Ingest/Decode/Accounts.antt =====
-- Every line of a body is accounted for, back/internal/ingest/decode/decode.go.
use upcontrol.Prelude.{
  ℕ, ◌+◌, ◌≡◌, refl, inl, inr, ◌⊎◌, Bool, true, ◌&&◌, List, [], ◌∷◌, arith, length, Option-cases,
}
use upcontrol.Prelude.Bytes.{Bytes, is_blank}
use upcontrol.Ingest.Decode.Records.{Warnings}
use upcontrol.Ingest.Decode.Formats.{Format, ndjson, plain, syslog, parse_syslog_pri, Codec, object}
use upcontrol.Ingest.Decode.Bodies.{Decoded, syslog_records, ndjson_records}

-- A line is blank if each of its bytes is.
all_blank : Bytes → Bool
all_blank [] = true
all_blank (c ∷ s) = is_blank c && all_blank s

-- What a decoder keeps of the warnings, and the lines that it accounts for.
abbrev pub Accounted : ℕ → Warnings → Decoded → Type 0
Accounted n ws d =
    (length d.0 + d.1.unparseable ≡ n + ws.unparseable)
    × (d.1.ts_absent ≡ ws.ts_absent)
    × (d.1.level_unknown ≡ ws.level_unknown)

pub syslog_records-Accounted :
    (ls : List Bytes) (ws : Warnings) → Accounted (length ls) ws (syslog_records ls ws)
unfolding syslog_records
syslog_records-Accounted [] ws = (refl, refl, refl)
syslog_records-Accounted (l ∷ ls) ws = elim (Option-cases (parse_syslog_pri l)) [
  | inl e ↦
      let (sums, absents, unknowns) =
        syslog_records-Accounted ls (record ws { unparseable = ws.unparseable + 1 }) in
      rw (e, syslog_records) (omega (arith, sums), absents, unknowns)
  | inr (pri, e) ↦
      let (sums, absents, unknowns) = syslog_records-Accounted ls ws in
      rw (e, syslog_records) (omega (arith, sums), absents, unknowns)
]

module _ (c : Codec) where
  pub ndjson_records-Accounted :
      (ls : List Bytes) (ws : Warnings) → Accounted (length ls) ws (ndjson_records c ls ws)
  unfolding ndjson_records
  ndjson_records-Accounted [] ws = (refl, refl, refl)
  ndjson_records-Accounted (l ∷ ls) ws = elim (Option-cases (object c l)) [
    | inl e ↦
        let (sums, absents, unknowns) =
          ndjson_records-Accounted ls (record ws { unparseable = ws.unparseable + 1 }) in
        rw (e, ndjson_records) (omega (arith, sums), absents, unknowns)
    | inr (m, e) ↦
        let (sums, absents, unknowns) = ndjson_records-Accounted ls ws in
        rw (e, ndjson_records) (omega (arith, sums), absents, unknowns)
  ]

  -- A body whose form is one of lines.
  abbrev pub IsOfLines : Format → Type 0
  IsOfLines f = (f ≡ ndjson) ⊎ ((f ≡ syslog) ⊎ (f ≡ plain))
