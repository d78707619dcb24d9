-- ===== src/Ingest/Handle.antt =====
-- POST /i, Handle of back/internal/ingest/ingest.go. The key's resolver, the idempotency table and
-- the readers of the standard library are parameters; the sink is the list of what was added to it.
pub mod Outcomes
pub mod Takes
use upcontrol.Prelude.{
  ℕ, ◌+◌, ◌*◌, ◌==◌, Bool, true, false, ◌||◌, not, String, str_eq, Option, none, some, List, [],
  ◌∷◌, ◌++◌, ltb, ◌>>=◌, if◌then◌else◌, ℤ, length, map, Dict,
}
use upcontrol.Prelude.Bytes.{Bytes, codes, drop, has_prefix, trim_space}
use upcontrol.Ingest.Normalize.{bytes_eq}
use upcontrol.Ingest.Decode.Json.{Json, str, lookup, fields_of}
use upcontrol.Ingest.Decode.Records.{Record, Warnings}
use upcontrol.Ingest.Decode.Formats.{Codec, object}
use upcontrol.Ingest.Decode.Bodies.{decode}
use upcontrol.Ingest.Overload.{Sampling, OverloadDecision, compute_overload}
use upcontrol.Ingest.Rows.{
  Tenant, key_kind_public, RowEnvelope, warn, warn_some, Shared, Services, build_rows,
}
use upcontrol.Ingest.Metrics.{MetricEnvelope, Readers, split_metrics}
use upcontrol.Ingest.Public.{
  RateWindow, Gate, bad_key, bot_dropped, rate_limited, passes, gate_public, only_events,
}

-- `16 << 20`
abbrev pub max_body_bytes : ℕ
max_body_bytes = 16777216

-- What Handle reads of a request; `unread` is that reading the body failed, `spool` the fill that
-- SpoolFiller answers, and `ip` the client's address.
pub record Request : Type 0 where
  pub unread : Bool
  pub body : Bytes
  pub upcontrol_key : Bytes
  pub authorization : Bytes
  pub query_key : Bytes
  pub content_type : Bytes
  pub origin : Bytes
  pub agent : String
  pub ip : String
  pub spool : ℤ
  pub now : ℕ

pub record KeyFound : Type 0 where
  pub key : Bytes
  pub in_body : Bool

pub record Receipt : Type 0 where
  pub accepted : ℕ
  pub metrics : ℕ
  pub warnings : Dict ℕ
  pub sampling : Option Sampling

pub data Answer : Type 0 where
  body_too_large : Answer
  unauthorized : Answer
  gated : Gate → Answer
  spool_full : Answer
  replayed : ℕ → Answer
  received : Receipt → Answer

-- The fields of Deps; `none` is a nil member.
pub record Deps (S I : Type 0) : Type 0 where
  pub codec : Codec
  pub services : Services S
  pub readers : Readers
  pub resolve : Option (Bytes → Option Tenant)
  pub is_bot : Option (String → Bool)
  -- Claim: whether the body is a replay, with the first count; `none` is an error.
  pub claim : I → Bytes → ℕ → I × Option (Bool × ℕ)
  pub marshal_metric : MetricEnvelope → Bytes

-- `sent` is what the sink took, with its tables.
pub record State (S I : Type 0) : Type 0 where
  pub shared : Shared S
  pub hits : Dict RateWindow
  pub idem : Option I
  pub sent : List (String × Bytes)

abbrev pub text_of : Option Json → Bytes
text_of (some (str k)) = k
text_of _ = []

unfoldable pub key_from_body : Codec → Bytes → Bytes
unfolding lookup
key_from_body c body = elim (object c body) [
  | none ↦ []
  | some v ↦ text_of (lookup (fields_of v) (codes "key"))
]

-- The four places of a key, in their order.
unfoldable pub find_key : Codec → Request → KeyFound
unfolding bytes_eq
find_key c r =
    if not (bytes_eq r.upcontrol_key [])
    then record { key = trim_space r.upcontrol_key; in_body = false }
    else if has_prefix r.authorization (codes "Bearer ")
    then record { key = trim_space (drop 7 r.authorization); in_body = false }
    else if not (bytes_eq r.query_key [])
    then record { key = r.query_key; in_body = false }
    else if not (bytes_eq (key_from_body c r.body) [])
    then record { key = key_from_body c r.body; in_body = true }
    else record { key = []; in_body = false }

unfoldable pub resolve_key : Option (Bytes → Option Tenant) → Bytes → Option Tenant
resolve_key keys [] = none
resolve_key none (b ∷ key) = none
resolve_key (some resolve) (b ∷ key) = resolve (b ∷ key)

abbrev pub is_public : Tenant → Bool
is_public t = str_eq t.kind key_kind_public

-- `ws.merge`: the decoder lists the codes that it met.
unfoldable pub merge : Dict ℕ → Warnings → Dict ℕ
merge ws w =
    warn_some (warn_some (warn_some ws "ts_absent" w.ts_absent) "level_unknown" w.level_unknown)
      "unparseable_line" w.unparseable

module _ {S I : Type 0} (d : Deps S I) where
  -- The records that the key may write, and how many others there are.
  abbrev admitted : Tenant → List Record → List Record × ℕ
  admitted t recs = if is_public t then only_events recs else (recs, 0)

  abbrev replay_of : Option (Bool × ℕ) → Option ℕ
  replay_of (some (true, stored)) = some stored
  replay_of _ = none

  -- `none` is that the body is new, or that nothing tells.
  unfoldable pub claimed : Option I → Bytes → ℕ → Option I × Option ℕ
  claimed none body n = (none, none)
  claimed (some i) body n = let (i', found) = d.claim i body n in (some i', replay_of found)

  abbrev log_row : RowEnvelope → String × Bytes
  log_row row = ("logs", d.services.marshal_row row)

  abbrev metric_row : MetricEnvelope → String × Bytes
  metric_row m = ("metrics", d.marshal_metric m)

  -- The rows are pushed and receipted, unless the body came before.
  unfoldable pub settle :
      Option Sampling
      → List RowEnvelope
      → List MetricEnvelope
      → Dict ℕ
      → State S I
      → Option I × Option ℕ
      → Answer × State S I
  settle sampling rows readings ws st (idem, some stored) =
      (replayed stored, record st { idem = idem })
  settle sampling rows readings ws st (idem, none) = (
    received (record {
      accepted = length rows + length readings;
      metrics = length readings;
      warnings = ws;
      sampling = sampling;
    }),
    record st { idem = idem; sent = st.sent ++ (map log_row rows ++ map metric_row readings) },
  )

  -- The warnings before the rows are built.
  unfoldable pub first_warnings : KeyFound → Warnings → ℕ → Dict ℕ
  unfolding merge
  first_warnings kf w refused =
      warn_some (merge (warn_some [] "key_in_body" (if kf.in_body then 1 else 0)) w)
        "public_key_logs_refused" refused

  unfoldable pub write_records :
      Request → KeyFound → Tenant → List Record → Warnings → State S I → Option (Answer × State S I)
  write_records r kf t recs w st = do
    let decision = compute_overload r.spool
    let (kept, refused) = admitted t recs
    let (logs, readings) = split_metrics d.readers t kept
    (rows, shared, ws) ←
        build_rows d.services decision t logs st.shared (first_warnings kf w refused)
    some (
        settle decision.sampling rows readings ws (record st { shared = shared })
          (claimed st.idem r.body (length rows + length readings)))

  -- What follows the gates.
  unfoldable pub ingest : Request → KeyFound → Tenant → State S I → Option (Answer × State S I)
  ingest r kf t st =
      let (recs, _, w) = decode d.codec r.body r.content_type in
      let outcome = write_records r kf t recs w st in
      if (compute_overload r.spool).reject_all then some (spool_full, st) else outcome

  unfoldable pub through :
      Request → KeyFound → Tenant → State S I → Gate → Option (Answer × State S I)
  through r kf t st (passes _) = ingest r kf t st
  through r kf t st gate = some (gated gate, st)

  unfoldable pub authorized :
      Request → KeyFound → State S I → Option Tenant → Option (Answer × State S I)
  authorized r kf st none = some (unauthorized, st)
  authorized r kf st (some t) =
      let (gate, hits) =
        gate_public d.is_bot t.origins r.origin r.agent (d.services.text kf.key) r.ip r.now
          st.hits in
      let gated_run = through r kf t (record st { hits = hits }) gate in
      let free_run = ingest r kf t st in if is_public t then gated_run else free_run

  unfoldable pub handle : Request → State S I → Option (Answer × State S I)
  handle r st =
      let kf = find_key d.codec r in
      let run = authorized r kf st (resolve_key d.resolve kf.key) in
      if r.unread || ltb max_body_bytes (length r.body) then some (body_too_large, st) else run
