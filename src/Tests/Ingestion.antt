-- ===== src/Tests/Ingestion.antt =====
-- Batches at POST /i.
use upcontrol.Prelude.{ℕ, ◌+◌, ◌≡◌, refl, true, false, some, none, [], ◌∷◌, ◌++◌, pos, length}
use upcontrol.Prelude.Bytes.{
  codes, newline, trim_space, trim_left, trim_right, is_blank, has_prefix,
}
use upcontrol.Ingest.Decode.Times.{absent}
use upcontrol.Ingest.Decode.Records.{Record, blank_record}
use upcontrol.Ingest.Decode.Formats.{Codec}
use upcontrol.Ingest.Rows.{Tenant, Services}
use upcontrol.Ingest.Rows.Leased.{next_of}
use upcontrol.Ring.Seq.{Allocator, working}
use upcontrol.Ingest.Metrics.{Readers, split_metrics, parse_metric}
use upcontrol.Ingest.Public.{only_events}
use upcontrol.Ingest.Normalize.{
  classify, classify_clean, trim_lower, trim_start, trim_end, is_space, lower, bytes_eq,
}
use upcontrol.Ingest.Handle.{Request, Deps, State}

abbrev codec : Codec
codec = record {
  unmarshal = λ b. none;
  loki_push = λ b. none;
  otlp_records = λ b. none;
  marshal = λ v. [];
  layouts = λ b. none;
}

-- The allocator counts.
abbrev services : Services ℕ
services = record {
  next = λ s p. (s + 1, some s);
  marshal_row = λ row. row.message;
  format_time = λ t. [];
  fnv = λ t. length t;
  text = λ t. "host";
  scrub_off = false;
}

abbrev readers : Readers
readers = record { wire = λ b. none; rfc3339 = λ b. none; now = absent; format_time = λ t. [] }

abbrev shop : Tenant
shop = record { tenant_id = 1; project_id = 2; kind = "secret"; origins = [] }

abbrev deps : Deps ℕ Unit
deps = record {
  codec = codec;
  services = services;
  readers = readers;
  resolve = some (λ key. some shop);
  is_bot = none;
  claim = λ i body n. (i, none);
  marshal_metric = λ m. m.name;
}

abbrev two_lines : Request
two_lines = record {
  unread = false;
  body = codes "first" ++ newline ∷ codes "second";
  upcontrol_key = codes "k";
  authorization = [];
  query_key = [];
  content_type = [];
  origin = [];
  agent = "";
  ip = "10.0.0.1";
  spool = pos 80;
  now = 0;
}

abbrev start : State ℕ Unit
start = record { shared = record { card = none; seq = some 7 }; hits = []; idem = none; sent = [] }

abbrev paid : Record
paid = record blank_record {
  level = codes "info";
  message = codes "deploy";
  attrs = (codes "uc.amount", codes "500") ∷ (codes "uc.currency", codes "eur") ∷ [];
}

abbrev page : Tenant
page = record { tenant_id = 1; project_id = 2; kind = "public"; origins = [] }

-- A reading that is marked as an event.
abbrev reading : Record
reading = record blank_record { named = true; message = codes "x"; raw = codes "{}" }

abbrev one_metric : Readers
one_metric = record readers {
  wire =
      λ b. some (record { ts = none; metric = codes "m"; value = some (codes "1"); labels = [] });
}

-- A public key's event that is a reading too is written to the metrics.
public_reading : split_metrics one_metric page (only_events (reading ∷ [])).0 ≡ (
  [],
  record {
    tenant_id = 1;
    project_id = 2;
    ts = [];
    name = codes "m";
    value = codes "1";
    labels = [];
  }
      ∷ [],
)
unfolding split_metrics only_events parse_metric classify classify_clean trim_lower trim_start
    trim_end is_space lower has_prefix bytes_eq trim_space trim_left trim_right is_blank
public_reading = refl

abbrev block : Allocator
block = record { block_size = 2; next = 8; end = 9 }

abbrev ring : Services (Allocator × ℕ)
ring = record {
  next = next_of working;
  marshal_row = λ row. row.message;
  format_time = λ t. [];
  fnv = λ t. length t;
  text = λ t. "host";
  scrub_off = false;
}
