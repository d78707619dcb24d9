-- ===== src/Heartbeat.antt =====
-- Cron monitors that ping in, back/internal/heartbeat/heartbeat.go, with the queries of
-- back/internal/storage/pg/queries/schedule.sql and monitor.sql.
pub mod Agreement
use Prim.Native.String.{◌++◌ as concat}
use upcontrol.Prelude.{
  ℕ, ◌+◌, String, Bool, true, false, ◌&&◌, not, List, [], ◌∷◌, Option, none, some, ℤ, pos, ◌==◌,
  leb, if◌then◌else◌,
}
use upcontrol.Detect.Availability
use upcontrol.Detect.Availability.{
  State, Outcome, pass, fail, unmeasured, nodata, Status, Transition, new, process,
}
use upcontrol.Incident.Store.{Db, recovered}
use upcontrol.Incident.Lifecycle.{World, open_on_pool, open_with, close}

-- The columns of a heartbeat monitor's row that the two callers read.
pub record Row : Type 0 where
  pub id : ℕ
  pub target_id : ℕ
  pub name : String
  pub interval_sec : ℕ
  pub grace_sec : ℕ
  pub paused : Bool

pub record CheckRow : Type 0 where
  pub target_id : ℕ
  pub interval_sec : ℕ
  pub ts : ℕ
  pub passed : Bool
  pub error_class : String

-- target_facts, target_schedule.next_due_at in seconds, the check rows, the incidents.
pub record System : Type 0 where
  pub facts : ℕ → Option State
  pub next_due : ℕ → ℕ
  pub checks : List CheckRow
  pub db : Db

-- Which queries fail, and whether there is a telemetry store that takes rows.
pub record Faults : Type 0 where
  pub facts : Bool
  pub upsert : Bool
  pub due : Bool
  pub stores_checks : Bool

pub data Lookup : Type 0 where
  unknown_token lookup_broken : Lookup
  found : Row → Lookup

pub data PingResult : Type 0 where
  not_found failed answered : PingResult

-- Threshold 1.
abbrev pub threshold : ℕ
threshold = new (pos 1)

abbrev pub set_at {ℓ} : {A : Type ℓ} → ℕ → A → (ℕ → A) → ℕ → A
set_at k v f j = if j == k then v else f j

abbrev pub is_pass : Outcome → Bool
is_pass pass = true
is_pass _ = false

abbrev pub check_of : Row → Outcome → ℕ → CheckRow
check_of row outcome now = record {
  target_id = row.target_id;
  interval_sec = row.interval_sec;
  ts = now;
  passed = is_pass outcome;
  error_class = elim outcome [ fail ↦ "missed" | _ ↦ "" ];
}

-- The incident's part of a result: what the transition opens and closes; their errors are dropped.
unfoldable pub report : (ℕ → ℤ) → World → Row → Transition → Db → Db
unfolding open_with close
report fnv w row t db =
    let opened =
      if t.opens
      then (open_on_pool fnv w row.id (concat row.name " has not checked in") row.interval_sec db).1
      else db in
    if t.closes then (close w row.id recovered opened).1 else opened

-- False is an error: the facts could not be written, and nothing else is done.
unfoldable pub apply : (ℕ → ℤ) → World → Faults → Row → State → Outcome → ℕ → System → Bool × System
unfolding report process new
apply fnv w f row st outcome now sys =
    if f.upsert
    then (false, sys)
    else (let (st', t) = process threshold st outcome now in
        (
          true,
          record {
            facts = set_at row.target_id (some st') sys.facts;
            next_due = sys.next_due;
            checks = if f.stores_checks then check_of row outcome now ∷ sys.checks else sys.checks;
            db = report fnv w row t sys.db;
          },
        ))

-- The state that a ping starts from: no row reads as `nodata`.
abbrev pub state_of : Option State → State
state_of none = record {
  status = nodata;
  consecutive_failures = 0;
  consecutive_unmeasured = 0;
  last_check_at = 0;
}
state_of (some s) = record s { last_check_at = 0 }

abbrev pub set_due : ℕ → ℕ → ℕ → System → System
set_due target secs now sys = record sys { next_due = set_at target (now + secs) sys.next_due }

unfoldable pub pushed : Faults → Row → ℕ → Bool × System → PingResult × System
pushed f row now (false, sys) = (failed, sys)
pushed f row now (true, sys) =
    if f.due
    then (failed, sys)
    else (answered, set_due row.target_id (row.interval_sec + row.grace_sec) now sys)

unfoldable pub ping : (ℕ → ℤ) → World → Faults → Lookup → ℕ → System → PingResult × System
unfolding apply pushed
ping fnv w f unknown_token now sys = (not_found, sys)
ping fnv w f lookup_broken now sys = (failed, sys)
ping fnv w f (found row) now sys =
    if row.paused
    then (answered, sys)
    else if f.facts
    then (failed, sys)
    else pushed f row now (apply fnv w f row (state_of (sys.facts row.target_id)) pass now sys)

-- The status code of ServeHTTP.
abbrev pub http_status : PingResult → ℕ
http_status failed = 500
http_status not_found = 404
http_status answered = 200

-- A row of ListMissedHeartbeats carries the status and the failures, not the unmeasured streak.
abbrev pub missed_state : Option State → State
missed_state none = record {
  status = nodata;
  consecutive_failures = 0;
  consecutive_unmeasured = 0;
  last_check_at = 0;
}
missed_state (some s) = record s { consecutive_unmeasured = 0; last_check_at = 0 }

unfoldable pub miss : (ℕ → ℤ) → World → Faults → ℕ → Row × State → System → System
unfolding apply
miss fnv w f now (row, st) sys =
    let (done, sys') = apply fnv w f row st fail now sys in
    if done && not f.due then set_due row.target_id row.interval_sec now sys' else sys'

unfoldable pub sweep : (ℕ → ℤ) → World → Faults → ℕ → List (Row × State) → System → System
unfolding miss
sweep fnv w f now [] sys = sys
sweep fnv w f now (r ∷ rs) sys = sweep fnv w f now rs (miss fnv w f now r sys)

-- The rows of ListMissedHeartbeats, of the given monitors in the order of their deadlines.
unfoldable pub missed_rows : ℕ → (ℕ → ℕ) → (ℕ → Option State) → List Row → List (Row × State)
missed_rows now due facts [] = []
missed_rows now due facts (r ∷ rs) =
    let rest = missed_rows now due facts rs in
    if not r.paused && leb (due r.target_id) now
    then (r, missed_state (facts r.target_id)) ∷ rest
    else rest

-- Tick: none is a failed read. `monitors` are the heartbeats of projects that are not frozen, in the
-- order of their deadlines, 500 at most.
unfoldable pub tick : (ℕ → ℤ) → World → Faults → ℕ → Option (List Row) → System → System
unfolding sweep missed_rows
tick fnv w f now none sys = sys
tick fnv w f now (some monitors) sys =
    sweep fnv w f now (missed_rows now sys.next_due sys.facts monitors) sys
