-- ===== src/Incident/Lifecycle.antt =====
-- Open and close of an incident, back/internal/incident/incident.go.
pub mod Quiet
pub mod Single
pub mod Branches
pub mod Opening
pub mod Counts
pub mod Closing
pub mod Sweeps
pub mod Promise
pub mod Refinement
use Prim.Native.String.{◌++◌ as concat}
use upcontrol.Prelude.{
  ℕ, zero, suc, ◌+◌, String, str_eq, Bool, true, false, ◌&&◌, not, List, [], ◌∷◌, Option, none,
  some, ℤ, ◌==◌, if◌then◌else◌,
}
use upcontrol.Channel.Settings.{Settings}
use upcontrol.Incident.Store.{
  Incident, IncidentStatus, down, check, CloseReason, recovered, monitor_deleted, by_human,
  plan_paused, UpdateKind, opened, resolved, SliceLine, Db, Monitor, Tables, Faults,
  get_open_incident, get_open_incident_by_fingerprint, close_incident,
  close_incident_by_fingerprint, open_incident, set_incident_effective_interval,
  add_incident_update, add_incident_slice_line,
}
use upcontrol.Incident.Notify.{NotifySpec, notify_channels}

pub data LifecycleError : Type 0 where
  monitor_unknown lookup_failed insert_failed close_failed : LifecycleError

pub data Result {ℓ} (A : Type ℓ) : Type ℓ where
  ok : A → Result A
  err : LifecycleError → Result A

-- The evidence query: no telemetry store, a failed query, or its rows.
pub data Evidence : Type 0 where
  no_store query_failed : Evidence
  rows : List SliceLine → Evidence

pub add_lines : ℕ → List SliceLine → Db → Db
add_lines id [] db = db
add_lines id (l ∷ ls) db =
    add_lines id ls (add_incident_slice_line db (record l { incident_id = id }))

pub freeze_slice : Evidence → ℕ → Db → Db
unfolding add_lines
freeze_slice (rows ls) id db = add_lines id ls db
freeze_slice _ id db = db

pub add_update : Faults → ℕ → UpdateKind → String → Db → Db
add_update faults id kind text db =
    if faults.update then db else add_incident_update db id kind text

-- `effectiveIntervalSec` is written when it is positive.
pub set_interval : Faults → ℕ → ℕ → Db → Db
set_interval faults id zero db = db
set_interval faults id secs db =
    if faults.interval then db else set_incident_effective_interval db id secs

pub opened_text : Monitor → String
opened_text mon =
    if str_eq mon.kind "heartbeat"
    then concat mon.name " has not checked in"
    else concat mon.target " stopped responding"

abbrev pub down_spec : ℕ → NotifySpec
down_spec id = record { incident_id = id; wants = λ s. s.website_down; has_followup = true }

-- An operation's inputs besides the database: the other tables, the faults, the evidence.
pub record World : Type 0 where
  pub tables : Tables
  pub faults : Faults
  pub evidence : Evidence

-- `fingerprint(monitorID, "availability")` is a parameter, FNV-1a.
abbrev availability_row : (ℕ → ℤ) → Monitor → ℕ → String → Incident
availability_row fnv mon m title = record {
  id = 0;
  tenant_id = mon.tenant_id;
  project_id = mon.project_id;
  monitor_id = some m;
  detector = "availability";
  fingerprint = fnv m;
  title = title;
  status = down;
  resolved = false;
  close_reason = none;
  notified = false;
  effective_interval_sec = none;
}

-- What `open` does once the row is in: `id` is its id.
pub after_insert : World → Monitor → ℕ → ℕ → Bool → Db → Db
unfolding set_interval add_update opened_text freeze_slice
after_insert w mon id secs freeze db =
    let a = set_interval w.faults id secs db in
    let b = add_update w.faults id opened (opened_text mon) a in
    let c = if freeze then freeze_slice w.evidence id b else b in
    notify_channels w.tables w.faults mon.tenant_id mon.project_id (down_spec id) c

pub insert_for :
    (ℕ → ℤ) → World → ℕ → String → ℕ → Bool → Option Monitor → Db → Result (ℕ × Bool) × Db
unfolding after_insert
insert_for fnv w m title secs freeze none db = (err monitor_unknown, db)
insert_for fnv w m title secs freeze (some mon) db =
    if w.faults.monitor
    then (err monitor_unknown, db)
    else if w.faults.insert
    then (err insert_failed, db)
    else (
      ok (db.next_id, true),
      after_insert w mon db.next_id secs freeze
          (open_incident db (availability_row fnv mon m title)),
    )

-- A failed lookup reads as "no open incident".
abbrev pub found_open : World → Db → ℕ → Option Incident
found_open w db m = if w.faults.lookup then none else get_open_incident db m

pub open_or :
    (ℕ → ℤ) → World → ℕ → String → ℕ → Bool → Option Incident → Db → Result (ℕ × Bool) × Db
unfolding insert_for
open_or fnv w m title secs freeze (some existing) db = (ok (existing.id, false), db)
open_or fnv w m title secs freeze none db =
    insert_for fnv w m title secs freeze (w.tables.monitors m) db

unfoldable pub open_with : (ℕ → ℤ) → World → ℕ → String → ℕ → Bool → Db → Result (ℕ × Bool) × Db
unfolding open_or get_open_incident open_incident
open_with fnv w m title secs freeze db = open_or fnv w m title secs freeze (found_open w db m) db

abbrev pub open_on_pool : (ℕ → ℤ) → World → ℕ → String → ℕ → Db → Result (ℕ × Bool) × Db
open_on_pool fnv w m title secs db = open_with fnv w m title secs true db

abbrev pub open_on_tx : (ℕ → ℤ) → World → ℕ → String → ℕ → Db → Result (ℕ × Bool) × Db
open_on_tx fnv w m title secs db = open_with fnv w m title secs false db

pub closed_text : CloseReason → String
closed_text recovered = "Checks are passing again"
closed_text monitor_deleted = "Monitor deleted"
closed_text plan_paused = "Paused by the plan's check limit"
closed_text by_human = "Closed: by_human"

pub close_found : World → ℕ → CloseReason → Option Incident → Db → Option LifecycleError × Db
unfolding closed_text add_update
close_found w m reason none db = (none, db)
close_found w m reason (some existing) db = if w.faults.close then (some close_failed, db) else (
  none,
  add_update w.faults existing.id resolved (closed_text reason) (close_incident db reason m),
)

unfoldable pub close : World → ℕ → CloseReason → Db → Option LifecycleError × Db
unfolding close_found get_open_incident close_incident
close w m reason db = close_found w m reason (found_open w db m) db

-- A detector's incident: DetectOpen without the text of the alert.
pub record DetectOpen : Type 0 where
  pub tenant_id : ℕ
  pub project_id : ℕ
  pub monitor_id : Option ℕ
  pub detector : String
  pub fingerprint : ℤ
  pub title : String
  pub opened_text : String

abbrev detect_row : DetectOpen → Incident
detect_row p = record {
  id = 0;
  tenant_id = p.tenant_id;
  project_id = p.project_id;
  monitor_id = p.monitor_id;
  detector = p.detector;
  fingerprint = p.fingerprint;
  title = p.title;
  status = check;
  resolved = false;
  close_reason = none;
  notified = false;
  effective_interval_sec = none;
}

abbrev pub detect_spec : ℕ → NotifySpec
detect_spec id = record {
  incident_id = id;
  wants = λ s. if s.error_logs then true else s.repeating_error_logs;
  has_followup = false;
}

after_detect_insert : World → DetectOpen → ℕ → Db → Db
unfolding add_update freeze_slice
after_detect_insert w p id db =
    let a = add_update w.faults id opened p.opened_text db in
    let b = freeze_slice w.evidence id a in
    notify_channels w.tables w.faults p.tenant_id p.project_id (detect_spec id) b

open_detect_or : World → DetectOpen → Option Incident → Db → Result (ℕ × Bool) × Db
unfolding after_detect_insert
open_detect_or w p (some existing) db = (ok (existing.id, false), db)
open_detect_or w p none db = if w.faults.insert then (err insert_failed, db) else (
  ok (db.next_id, true),
  after_detect_insert w p db.next_id (open_incident db (detect_row p)),
)

unfoldable pub open_detect : World → DetectOpen → Db → Result (ℕ × Bool) × Db
unfolding open_detect_or get_open_incident_by_fingerprint open_incident
open_detect w p db =
    if w.faults.lookup
    then (err lookup_failed, db)
    else open_detect_or w p (get_open_incident_by_fingerprint db p.tenant_id p.fingerprint) db

close_key_found :
    World → ℕ → ℤ → CloseReason → String → Option Incident → Db → Option LifecycleError × Db
unfolding add_update
close_key_found w tenant fp reason text none db = (none, db)
close_key_found w tenant fp reason text (some existing) db =
    if w.faults.close then (some close_failed, db) else (
      none,
      add_update w.faults existing.id resolved text
          (close_incident_by_fingerprint db reason tenant fp),
    )

unfoldable pub close_by_fingerprint :
    World → ℕ → ℤ → CloseReason → String → Db → Option LifecycleError × Db
unfolding close_key_found get_open_incident_by_fingerprint close_incident_by_fingerprint
close_by_fingerprint w tenant fp reason text db =
    if w.faults.lookup
    then (some lookup_failed, db)
    else close_key_found w tenant fp reason text (get_open_incident_by_fingerprint db tenant fp) db
