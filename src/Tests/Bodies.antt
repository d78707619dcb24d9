-- ===== src/Tests/Bodies.antt =====
-- The decoder at concrete bodies.
use upcontrol.Prelude.{◌*◌, ◌%◌, ◌^◌, ◌≤◌, ◌≡◌, ◌≢◌, none, [], ◌∷◌, ◌++◌, arith, All, length}
use upcontrol.Prelude.Bytes.{Bytes, codes, newline}
use upcontrol.Ingest.Decode.Times.{nanos, parse_loki_ts}
use upcontrol.Ingest.Decode.Formats.{Codec}
use upcontrol.Ingest.Decode.Bodies.{decode}
use upcontrol.Ingest.Decode.Levels.{IsLevelled, is_untimed, count_if}
use upcontrol.Ingest.Decode.Warned.{decode-All-IsLevelled}
use upcontrol.Ingest.Decode.Loki.{value_from, parse_loki_ts_millis}

abbrev codec : Codec
codec = record {
  unmarshal = λ b. none;
  loki_push = λ b. none;
  otlp_records = λ b. none;
  marshal = λ v. [];
  layouts = λ b. none;
}

abbrev two_lines : Bytes
two_lines = codes "first" ++ newline ∷ newline ∷ codes "second"

decode-All-IsLevelled_example :
    All IsLevelled (decode codec two_lines []).0
    × ((decode codec two_lines []).2.ts_absent ≡ count_if is_untimed (decode codec two_lines []).0)
    × ((decode codec two_lines []).2.level_unknown ≤ length (decode codec two_lines []).0)
decode-All-IsLevelled_example = decode-All-IsLevelled codec two_lines []

parse_loki_ts_millis_example :
    (parse_loki_ts (λ b. none) (codes "1700000000000")
      ≡ nanos (value_from 0 (codes "1700000000000") * 10 ^ 9 % 2 ^ 64))
    × (parse_loki_ts (λ b. none) (codes "1700000000000")
        ≢ nanos (value_from 0 (codes "1700000000000") * 10 ^ 6))
unfolding value_from
parse_loki_ts_millis_example =
    parse_loki_ts_millis (λ b. none) b'1' (codes "700000000000") (omega arith) (omega arith)
      (omega arith)
