-- ===== src/Incident/Store.antt =====
-- The tables that the incident lifecycle reads and writes, and its queries on them
-- (back/internal/storage/pg/queries/incident.sql, detect.sql, delivery.sql). Rows stand latest first.
use upcontrol.Prelude.{
  ℕ, ◌+◌, String, Bool, true, false, ◌&&◌, not, List, [], ◌∷◌, Option, none, some, ℤ, ◌==◌, is_some,
  if◌then◌else◌,
}
use upcontrol.Channel.Settings.{Settings}
use upcontrol.Incident.Seats
use upcontrol.Incident.Seats.{Channel, Entitlement}

pub data IncidentStatus : Type 0 where
  down check ok : IncidentStatus

pub data CloseReason : Type 0 where
  recovered monitor_deleted by_human plan_paused : CloseReason

pub record Incident : Type 0 where
  pub id : ℕ
  pub tenant_id : ℕ
  pub project_id : ℕ
  pub monitor_id : Option ℕ
  pub detector : String
  pub fingerprint : ℤ
  pub title : String
  pub status : IncidentStatus
  pub resolved : Bool
  pub close_reason : Option CloseReason
  pub notified : Bool
  pub effective_interval_sec : Option ℕ

pub data UpdateKind : Type 0 where
  opened resolved : UpdateKind

pub record Update : Type 0 where
  pub incident_id : ℕ
  pub kind : UpdateKind
  pub text : String

-- A line of the evidence that is frozen with an incident.
pub record SliceLine : Type 0 where
  pub incident_id : ℕ
  pub seq : ℕ
  pub level : String
  pub service : String
  pub message : String

pub data Class : Type 0 where
  page followup ticket test : Class

abbrev pub same_class : Class → Class → Bool
same_class page page = true
same_class followup followup = true
same_class ticket ticket = true
same_class test test = true
same_class _ _ = false

-- The idempotency key "incident:<id>:channel:<id>:opened" or "…:followup" is the incident, the
-- channel and the class.
pub record Delivery : Type 0 where
  pub incident_id : ℕ
  pub channel_id : ℕ
  pub class : Class

pub record Db : Type 0 where
  pub next_id : ℕ
  pub incidents : List Incident
  pub updates : List Update
  pub slice : List SliceLine
  pub queue : List Delivery

-- The rows of the other tables.
pub record Monitor : Type 0 where
  pub tenant_id : ℕ
  pub project_id : ℕ
  pub name : String
  pub target : String
  pub kind : String

pub record AlertChannel : Type 0 where
  pub channel : Channel
  pub notify : Settings

pub record Tables : Type 0 where
  pub monitors : ℕ → Option Monitor
  pub frozen : ℕ → Bool
  pub channels : ℕ → List AlertChannel
  pub plans : ℕ → Option String
  pub entitlements : String → Option Entitlement

-- Which queries of an operation fail.
pub record Faults : Type 0 where
  pub lookup : Bool
  pub monitor : Bool
  pub insert : Bool
  pub interval : Bool
  pub update : Bool
  pub frozen : Bool
  pub channels : Bool
  pub plan : Bool
  pub entitlement : Bool
  pub enqueue : Bool
  pub enqueue_at : Bool
  pub mark : Bool
  pub close : Bool

abbrev pub no_faults : Faults
no_faults = record {
  lookup = false;
  monitor = false;
  insert = false;
  interval = false;
  update = false;
  frozen = false;
  channels = false;
  plan = false;
  entitlement = false;
  enqueue = false;
  enqueue_at = false;
  mark = false;
  close = false;
}

abbrev pub is_monitor : ℕ → Incident → Bool
is_monitor m i = elim i.monitor_id [ none ↦ false | some n ↦ n == m ]

-- `resolved_at IS NULL` on a row of the monitor.
abbrev pub open_for : ℕ → Incident → Bool
open_for m i = is_monitor m i && not i.resolved

abbrev pub same_ℤ : ℤ → ℤ → Bool
same_ℤ = Seats.same

abbrev pub open_key : ℕ → ℤ → Incident → Bool
open_key tenant fp i = (i.tenant_id == tenant) && (same_ℤ i.fingerprint fp && not i.resolved)

unfoldable pub find {ℓ} : {A : Type ℓ} → (A → Bool) → List A → Option A
find p [] = none
find p (x ∷ xs) = if p x then some x else find p xs

-- Every row that fits is changed.
unfoldable pub update_where {ℓ} : {A : Type ℓ} → (A → Bool) → (A → A) → List A → List A
update_where p f [] = []
update_where p f (x ∷ xs) = (if p x then f x else x) ∷ update_where p f xs

abbrev pub resolve_with : CloseReason → Incident → Incident
resolve_with reason i = record i { resolved = true; status = ok; close_reason = some reason }

unfoldable pub get_open_incident : Db → ℕ → Option Incident
unfolding find
get_open_incident db m = find (open_for m) db.incidents

unfoldable pub get_open_incident_by_fingerprint : Db → ℕ → ℤ → Option Incident
unfolding find
get_open_incident_by_fingerprint db tenant fp = find (open_key tenant fp) db.incidents

unfoldable pub close_incident : Db → CloseReason → ℕ → Db
unfolding update_where
close_incident db reason m = record db {
  incidents = update_where (open_for m) (resolve_with reason) db.incidents;
}

unfoldable pub close_incident_by_fingerprint : Db → CloseReason → ℕ → ℤ → Db
unfolding update_where
close_incident_by_fingerprint db reason tenant fp = record db {
  incidents = update_where (open_key tenant fp) (resolve_with reason) db.incidents;
}

-- The row gets the next id.
unfoldable pub open_incident : Db → Incident → Db
open_incident db i = record db {
  next_id = db.next_id + 1;
  incidents = record i { id = db.next_id } ∷ db.incidents;
}

unfoldable pub set_incident_effective_interval : Db → ℕ → ℕ → Db
unfolding update_where
set_incident_effective_interval db id secs = record db {
  incidents =
      update_where (λ i. i.id == id) (λ i. record i { effective_interval_sec = some secs })
        db.incidents;
}

unfoldable pub add_incident_update : Db → ℕ → UpdateKind → String → Db
add_incident_update db id kind text = record db {
  updates = record { incident_id = id; kind = kind; text = text } ∷ db.updates;
}

unfoldable pub touch_incident_notified : Db → ℕ → Db
unfolding update_where
touch_incident_notified db id = record db {
  incidents =
      update_where (λ i. i.id == id && not i.notified) (λ i. record i { notified = true })
        db.incidents;
}

abbrev pub same_delivery : Delivery → Delivery → Bool
same_delivery a b =
    (a.incident_id == b.incident_id)
    && ((a.channel_id == b.channel_id) && same_class a.class b.class)

-- `ON CONFLICT (idem_key) DO NOTHING`
unfoldable pub enqueue_delivery : Db → Delivery → Db
unfolding find
enqueue_delivery db d =
    if is_some (find (same_delivery d) db.queue) then db else record db { queue = d ∷ db.queue }

abbrev same_line : SliceLine → SliceLine → Bool
same_line a b = (a.incident_id == b.incident_id) && (a.seq == b.seq)

-- `ON CONFLICT (incident_id, seq) DO NOTHING`
unfoldable pub add_incident_slice_line : Db → SliceLine → Db
unfolding find
add_incident_slice_line db l =
    if is_some (find (same_line l) db.slice) then db else record db { slice = l ∷ db.slice }
