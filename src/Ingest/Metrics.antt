-- ===== src/Ingest/Metrics.antt =====
-- Readings among the lines, back/internal/ingest/metrics.go.
use upcontrol.Prelude.{
  ℕ, suc, ◌+◌, ◌==◌, ◌≡◌, refl, Option, none, some, List, [], ◌∷◌, if◌then◌else◌, length, arith,
  All,
}
use upcontrol.Prelude.Bytes.{Bytes, trim_space}
use upcontrol.Ingest.Decode.Times.{Moment, absent, date, is_zero_time}
use upcontrol.Ingest.Decode.Records.{Attrs, Record}
use upcontrol.Ingest.Rows.{Tenant}

-- A float64 is the number that it was written as.
pub record MetricLine : Type 0 where
  pub ts : Moment
  pub name : Bytes
  pub value : Bytes
  pub labels : Attrs

pub record MetricWire : Type 0 where
  pub ts : Option Bytes
  pub metric : Bytes
  pub value : Option Bytes
  pub labels : Attrs

pub record MetricEnvelope : Type 0 where
  pub tenant_id : ℕ
  pub project_id : ℕ
  pub ts : Bytes
  pub name : Bytes
  pub value : Bytes
  pub labels : Attrs

-- json.Unmarshal into the struct, time.Parse for RFC 3339, the clock, and time.Format.
pub record Readers : Type 0 where
  pub wire : Bytes → Option MetricWire
  pub rfc3339 : Bytes → Option ℕ
  pub now : Moment
  pub format_time : Moment → Bytes

module _ (c : Readers) where
  abbrev time_of : Option Bytes → Moment
  time_of none = absent
  time_of (some s) = elim (c.rfc3339 s) [ none ↦ absent | some t ↦ date t ]

  abbrev line_of : MetricWire → Bytes → Option Bytes → Option MetricLine
  line_of w [] v = none
  line_of w (b ∷ name) none = none
  line_of w (b ∷ name) (some v) =
      some (record { ts = time_of w.ts; name = b ∷ name; value = v; labels = w.labels })

  abbrev read : Bytes → Option MetricLine
  read s = elim (c.wire s) [ none ↦ none | some w ↦ line_of w w.metric w.value ]

  abbrev braced : Bytes → Option MetricLine
  braced [] = none
  braced (b ∷ s) = let line = read (b ∷ s) in if b == b'{' then line else none

  unfoldable pub parse_metric : Bytes → Option MetricLine
  parse_metric raw = braced (trim_space raw)

  abbrev raw_metric : Bytes → Option MetricLine
  raw_metric [] = none
  raw_metric (b ∷ raw) = parse_metric (b ∷ raw)

  -- The decoder's time, else the reading's own, else the clock's.
  abbrev stamped : Record → MetricLine → Moment
  stamped rec m =
      if is_zero_time rec.time then (if is_zero_time m.ts then c.now else m.ts) else rec.time

  abbrev envelope : Tenant → Record → MetricLine → MetricEnvelope
  envelope t rec m = record {
    tenant_id = t.tenant_id;
    project_id = t.project_id;
    ts = c.format_time (stamped rec m);
    name = m.name;
    value = m.value;
    labels = m.labels;
  }

  abbrev divide :
      Tenant
      → Record
      → Option MetricLine
      → List Record × List MetricEnvelope
      → List Record × List MetricEnvelope
  divide t rec none (logs, metrics) = (rec ∷ logs, metrics)
  divide t rec (some m) (logs, metrics) = (logs, envelope t rec m ∷ metrics)

  unfoldable pub split_metrics : Tenant → List Record → List Record × List MetricEnvelope
  split_metrics t [] = ([], [])
  split_metrics t (rec ∷ recs) = divide t rec (raw_metric rec.raw) (split_metrics t recs)

  length-divide :
      (t : Tenant) (rec : Record) (o : Option MetricLine) (r : List Record × List MetricEnvelope)
      → length (divide t rec o r).0 + length (divide t rec o r).1 ≡ suc (length r.0 + length r.1)
  length-divide t rec none (logs, metrics) = omega arith
  length-divide t rec (some m) (logs, metrics) = omega arith

  -- Each record goes one of the two ways.
  pub length-split_metrics :
      (t : Tenant) (recs : List Record)
      → length (split_metrics t recs).0 + length (split_metrics t recs).1 ≡ length recs
  unfolding split_metrics
  length-split_metrics t [] = refl
  length-split_metrics t (rec ∷ recs) = omega (
    arith,
    length-divide t rec (raw_metric rec.raw) (split_metrics t recs),
    length-split_metrics t recs,
  )

  divide-All :
      (P : Record → Type 0) (t : Tenant) (rec : Record) (o : Option MetricLine)
      (r : List Record × List MetricEnvelope)
      → P rec
      → All P r.0
      → All P (divide t rec o r).0
  divide-All P t rec none (logs, metrics) p more = (p, more)
  divide-All P t rec (some m) (logs, metrics) p more = more

  pub split_metrics-All :
      (P : Record → Type 0) (t : Tenant) (recs : List Record)
      → All P recs
      → All P (split_metrics t recs).0
  unfolding split_metrics
  split_metrics-All P t [] a = a
  split_metrics-All P t (rec ∷ recs) (a, more) =
      divide-All P t rec (raw_metric rec.raw) (split_metrics t recs) a
        (split_metrics-All P t recs more)
