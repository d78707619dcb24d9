-- ===== src/Ingest/Rows.antt =====
-- The rows of a batch, buildRows of back/internal/ingest/ingest.go: each record is classified,
-- scrubbed, capped and numbered. json.Marshal, time.Format, FNV-64a and the allocator are
-- parameters.
pub mod Warned
pub mod Built
pub mod Numbered
pub mod Leased
use upcontrol.Prelude.{
  ℕ, ◌+◌, ◌==◌, Bool, true, false, ◌||◌, not, String, str_eq, Option, none, some, List, [], ◌∷◌,
  ◌>>=◌, if◌then◌else◌, ℤ, pos, Dict, get, put,
}
use upcontrol.Prelude.Bytes.{Bytes, codes}
use upcontrol.Ingest.Normalize.{bytes_eq, Event, classify}
use upcontrol.Ingest.Scrub.Scan.{scrub}
use upcontrol.Ingest.Fingerprint.{fingerprint}
use upcontrol.Ingest.Cardinality.{Limiter, add, sentinel}
use upcontrol.Ingest.Decode.Times.{Moment, is_zero_time}
use upcontrol.Ingest.Decode.Records.{Attrs, Record}
use upcontrol.Ingest.Attrs.{cap_attrs, lift_actor, lift_amount}
use upcontrol.Ingest.Overload.{OverloadDecision, is_shed}

pub record Tenant : Type 0 where
  pub tenant_id : ℕ
  pub project_id : ℕ
  pub kind : String
  pub origins : List Bytes

abbrev pub key_kind_public : String
key_kind_public = "public"

pub record RowEnvelope : Type 0 where
  pub tenant_id : ℕ
  pub project_id : ℕ
  pub seq : ℕ
  pub ts : Bytes
  pub level : Bytes
  pub level_raw : Bytes
  pub service : Bytes
  pub host : Bytes
  pub message : Bytes
  pub fingerprint : ℕ
  pub attrs : Attrs
  pub event : Bytes
  pub actor : Bytes
  pub amount_minor : ℤ
  pub currency : Bytes

-- The warnings by their code; a code that is absent counts 0.
abbrev pub or_zero : Option ℕ → ℕ
or_zero none = 0
or_zero (some n) = n

abbrev pub tally : Dict ℕ → String → ℕ
tally ws code = or_zero (get ws code)

unfoldable pub warn : Dict ℕ → String → ℕ → Dict ℕ
warn ws code n = put ws code (tally ws code + n)

-- The same where the code asks for a positive count first.
unfoldable pub warn_some : Dict ℕ → String → ℕ → Dict ℕ
warn_some ws code n = if n == 0 then ws else warn ws code n

unfoldable pub sum_counts : Dict ℕ → ℕ
sum_counts [] = 0
sum_counts ((_, n) ∷ m) = n + sum_counts m

pub record Lifted : Type 0 where
  pub actor : Bytes
  pub amount : ℤ
  pub currency : Bytes
  pub attrs : Attrs

abbrev pub paid : Tenant → Option (ℤ × Bytes) → ℤ × Bytes
paid t none = (pos 0, [])
paid t (some m) = if str_eq t.kind key_kind_public then (pos 0, []) else m

-- Only a row that names an event has an actor, and only a secret key's has an amount.
unfoldable pub lift : Tenant → Event → Attrs → Lifted
unfolding lift_actor lift_amount
lift t ev attrs =
    let (actor, rest) = lift_actor attrs in
    let (money, kept) = lift_amount rest in
    let (amount, currency) = paid t money in
    if bytes_eq ev.name []
    then record { actor = []; amount = pos 0; currency = []; attrs = attrs }
    else record { actor = actor; amount = amount; currency = currency; attrs = kept }

-- A text with its secrets redacted: their number is positive exactly when there are any.
unfoldable pub scrub_text : Bool → Bytes → Dict ℕ → Option (Bytes × Dict ℕ)
scrub_text true s ws = some (s, ws)
scrub_text false s ws = elim (scrub s) [
  | none ↦ none
  | some r ↦ some (r.cleaned, warn_some ws "scrubbed" (sum_counts r.counts))
]

unfoldable pub scrub_attrs : Bool → Attrs → Dict ℕ → Option (Attrs × Dict ℕ)
scrub_attrs off [] ws = some ([], ws)
scrub_attrs off ((k, v) ∷ m) ws = do
  (v', ws') ← scrub_text off v ws
  (m', last) ← scrub_attrs off m ws'
  some ((k, v') ∷ m', last)

-- What a request shares with the others: the limiter and the allocator, each of which may be
-- missing.
pub record Shared (S : Type 0) : Type 0 where
  pub card : Option Limiter
  pub seq : Option S

pub record Services (S : Type 0) : Type 0 where
  -- SeqAllocator.Next with the project; `none` is its error.
  pub next : S → ℕ → S × Option ℕ
  pub marshal_row : RowEnvelope → Bytes
  -- The milliseconds of RFC 3339 in UTC.
  pub format_time : Moment → Bytes
  pub fnv : Bytes → ℕ
  -- The key of the limiter's map that a text is.
  pub text : Bytes → String
  pub scrub_off : Bool

-- The cap on the distinct hosts and services. Only a capped host is told.
unfoldable pub cap_labels :
    (Bytes → String) → Option Limiter → RowEnvelope → Dict ℕ → Option Limiter × RowEnvelope × Dict ℕ
cap_labels text none env ws = (none, env, ws)
cap_labels text (some l) env ws =
    let (l1, host, _) = add l "host" (text env.host) in
    let (l2, service, _) = add l1 "service" (text env.service) in
    (
      some l2,
      record env { host = codes host; service = codes service },
      warn_some ws "cardinality_capped" (if str_eq host sentinel then 1 else 0),
    )

-- One result of the allocator: without a number the row keeps 0.
abbrev pub numbered : {S : Type 0} → RowEnvelope → S × Option ℕ → RowEnvelope × Option S
numbered env (s, none) = (env, some s)
numbered env (s, some n) = (record env { seq = n }, some s)

module _ {S : Type 0} (c : Services S) where
  unfoldable pub number : Tenant → Option S → RowEnvelope → RowEnvelope × Option S
  number t none env = (env, none)
  number t (some s) env = numbered env (c.next s t.project_id)

  -- The row before its cardinality, its level and its number are looked at.
  unfoldable pub envelope : Tenant → Record → Event → Lifted → Bytes → Attrs → ℕ → RowEnvelope
  unfolding bytes_eq
  envelope t rec ev lifted message attrs template = record {
    tenant_id = t.tenant_id;
    project_id = t.project_id;
    seq = 0;
    ts = if is_zero_time rec.time then [] else c.format_time rec.time;
    level = rec.level;
    level_raw = rec.level_raw;
    service = rec.service;
    host = rec.host;
    message = message;
    fingerprint = template;
    attrs = attrs;
    event = ev.name;
    actor = lifted.actor;
    amount_minor = lifted.amount;
    currency = lifted.currency;
  }

  -- The steps of the loop's body up to the shed mask: `none` means that a scan ran out of fuel.
  unfoldable pub prepare :
      Tenant → Record → Option Limiter → Dict ℕ → Option (Option Limiter × RowEnvelope × Dict ℕ)
  unfolding lift scrub_text scrub_attrs
  prepare t rec card ws = do
    let ev = classify rec.message rec.named
    let lifted = lift t ev rec.attrs
    let ws0 = warn_some ws "reserved_prefix" (if ev.reserved then 1 else 0)
    (message, ws1) ← scrub_text c.scrub_off rec.message ws0
    (attrs, ws2) ← scrub_attrs c.scrub_off lifted.attrs ws1
    template ← fingerprint c.fnv message
    let capped = cap_attrs attrs
    let ws3 = warn_some ws2 "attr_key_capped" capped.keys_capped
    let ws4 = warn_some ws3 "field_cap_exceeded" capped.vals_capped
    some (cap_labels c.text card (envelope t rec ev lifted message capped.out template) ws4)

  -- One round of the loop: the row, or `none` where the mask sheds it.
  unfoldable pub build_row :
      OverloadDecision
      → Tenant
      → Record
      → Shared S
      → Dict ℕ
      → Option (Option RowEnvelope × Shared S × Dict ℕ)
  unfolding number
  build_row d t rec sh ws = do
    (card, env, told) ← prepare t rec sh.card ws
    let (row, seq) = number t sh.seq env
    some (
        if is_shed d env.level
        then (none, record sh { card = card }, warn told "class_shed" 1)
        else (some row, record { card = card; seq = seq }, told))

  abbrev also : Option RowEnvelope → List RowEnvelope → List RowEnvelope
  also none rows = rows
  also (some row) rows = row ∷ rows

  unfoldable pub build_rows :
      OverloadDecision
      → Tenant
      → List Record
      → Shared S
      → Dict ℕ
      → Option (List RowEnvelope × Shared S × Dict ℕ)
  unfolding build_row
  build_rows d t [] sh ws = some ([], sh, ws)
  build_rows d t (rec ∷ recs) sh ws = do
    (row, sh', ws') ← build_row d t rec sh ws
    (rows, last, told) ← build_rows d t recs sh' ws'
    some (also row rows, last, told)
