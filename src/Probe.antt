-- ===== src/Probe.antt =====
-- The probe fleet's results, back/internal/rpc/probeservice.go, with the queries of
-- back/internal/storage/pg/queries/schedule.sql. Times are nanoseconds since Go's zero time.
pub mod Fanout
pub mod Backoff
pub mod Guard
use upcontrol.Prelude.{
  ℕ, zero, suc, ◌+◌, ◌*◌, ◌^◌, String, Bool, true, false, ◌&&◌, ◌||◌, not, List, [], ◌∷◌, Option,
  none, some, ℤ, pos, negsuc, ◌==◌, leb, ltb, min, is_some, second, hour, if◌then◌else◌,
}
use upcontrol.Detect.Availability
use upcontrol.Detect.Availability.{
  State, Outcome, pass, fail, Transition, Status, process, is_unmeasured, is_down,
}
use upcontrol.Incident.Store.{Db, recovered}
use upcontrol.Incident.Lifecycle.{World, open_on_pool, open_with, close}

-- A row of target_facts.
pub record Facts : Type 0 where
  pub status : Status
  pub consecutive_failures : ℕ
  pub consecutive_unmeasured : ℕ
  pub consecutive_refusals : ℕ
  pub backoff_until : Option ℕ

abbrev pub no_facts : Facts
no_facts = record {
  status = Availability.unset;
  consecutive_failures = 0;
  consecutive_unmeasured = 0;
  consecutive_refusals = 0;
  backoff_until = none;
}

-- A row of target_schedule.
pub record Slot : Type 0 where
  pub leased_by : Option String
  pub lease_until : Option ℕ
  pub next_due_at : ℕ

pub record CheckRow : Type 0 where
  pub target_id : ℕ
  pub interval_sec : ℕ
  pub ts : ℕ
  pub passed : Bool
  pub status_code : ℕ
  pub error_class : String

pub record System : Type 0 where
  pub facts : ℕ → Option Facts
  pub slots : ℕ → Slot
  pub first_ok_at : ℕ → Option ℕ
  pub checks : List CheckRow
  pub db : Db

-- A CheckResult, with the fields that decide.
pub record CheckResult : Type 0 where
  pub target_id : ℕ
  pub passed : Bool
  pub status_code : ℕ
  pub error_class : String
  pub retry_after_sec : ℕ

-- The reads about a target: a failed facts query, the effective interval, the subscriptions that are
-- not paused and all of them (none: the query fails), and the titles of their incidents.
pub record Reads : Type 0 where
  pub facts_fail : Bool
  pub interval : Option ℕ
  pub active : Option (List ℕ)
  pub all : Option (List ℕ)
  pub title : ℕ → String

abbrev pub day : ℕ
day = 24 * hour

-- `1 << shift`, with the shift at 6 at most.
unfoldable pub refusal_delay : ℕ → ℕ → ℕ → ℕ
refusal_delay refusals interval_sec retry_after_sec =
    let delay = min (interval_sec * second * 2 ^ min refusals 6) day in
    if ltb delay (retry_after_sec * second) then retry_after_sec * second else delay

unfoldable pub backoff_for : Bool → ℕ → ℕ → ℕ → ℕ → ℕ × Option ℕ
unfolding refusal_delay
backoff_for unmeasured prev_refusals interval_sec retry_after_sec now =
    if not unmeasured then (0, none) else (
      prev_refusals + 1,
      some (now + refusal_delay (prev_refusals + 1) interval_sec retry_after_sec),
    )

abbrev pub set_at {ℓ} : {A : Type ℓ} → ℕ → A → (ℕ → A) → ℕ → A
set_at k v f j = if j == k then v else f j

abbrev pub facts_of : Option Facts → Facts
facts_of none = no_facts
facts_of (some f) = f

abbrev pub state_of : Facts → State
state_of f = record {
  status = f.status;
  consecutive_failures = f.consecutive_failures;
  consecutive_unmeasured = f.consecutive_unmeasured;
  last_check_at = 0;
}

abbrev pub unmeasured : CheckResult → Bool
unmeasured r = is_unmeasured r.error_class r.status_code

abbrev pub outcome_of : CheckResult → Outcome
outcome_of r = if r.passed then pass else if unmeasured r then Availability.unmeasured else fail

-- Every subscription's incident is opened; an error is logged.
unfoldable pub open_each : (ℕ → ℤ) → World → (ℕ → String) → ℕ → List ℕ → Db → Db
unfolding open_with
open_each fnv w title secs [] db = db
open_each fnv w title secs (m ∷ ms) db =
    open_each fnv w title secs ms (open_on_pool fnv w m (title m) secs db).1

unfoldable pub recover_each : World → List ℕ → Db → Db
unfolding close
recover_each w [] db = db
recover_each w (m ∷ ms) db = recover_each w ms (close w m recovered db).1

abbrev pub listing : Option (List ℕ) → List ℕ
listing none = []
listing (some ms) = ms

-- The incidents of a measured result: by the set of subscriptions while the target is down, and at
-- its recovery.
unfoldable pub fan_out : (ℕ → ℤ) → World → Reads → ℕ → Status → Transition → Db → Db
unfolding open_each recover_each
fan_out fnv w reads secs status t db =
    let opened =
      if is_down status then open_each fnv w reads.title secs (listing reads.active) db else db in
    if t.closes then recover_each w (listing reads.all) opened else opened

abbrev pub threshold : ℕ
threshold = Availability.default_threshold

abbrev pub interval_of : Reads → ℕ
interval_of reads = elim reads.interval [ none ↦ 900 | some n ↦ n ]

abbrev pub check_of : CheckResult → ℕ → ℕ → CheckRow
check_of r secs now = record {
  target_id = r.target_id;
  interval_sec = secs;
  ts = now;
  passed = r.passed;
  status_code = r.status_code;
  error_class = r.error_class;
}

abbrev pub stamped : Bool → ℕ → Option ℕ → Option ℕ
stamped passed now old = if passed && not (is_some old) then some now else old

-- The row of a result that is accepted.
unfoldable pub record_result : (ℕ → ℤ) → World → Reads → ℕ → CheckResult → System → System
unfolding process backoff_for fan_out
record_result fnv w reads now r sys =
    let old = facts_of (sys.facts r.target_id) in
    let secs = interval_of reads in
    let (st, t) = process threshold (state_of old) (outcome_of r) now in
    let (refusals, until) =
      backoff_for (unmeasured r) old.consecutive_refusals secs r.retry_after_sec now in
    record {
      facts =
          set_at r.target_id
            (some (record {
              status = st.status;
              consecutive_failures = st.consecutive_failures;
              consecutive_unmeasured = st.consecutive_unmeasured;
              consecutive_refusals = refusals;
              backoff_until = until;
            }))
            sys.facts;
      slots =
          set_at r.target_id
            (record { leased_by = none; lease_until = none; next_due_at = now + secs * second })
            sys.slots;
      first_ok_at =
          set_at r.target_id (stamped r.passed now (sys.first_ok_at r.target_id)) sys.first_ok_at;
      checks = check_of r secs now ∷ sys.checks;
      db = if unmeasured r then sys.db else fan_out fnv w reads secs st.status t sys.db;
    }

-- One round of SubmitResults; the number counts the accepted results.
unfoldable pub submit_one :
    (ℕ → ℤ) → World → (ℕ → Reads) → ℕ → CheckResult → ℕ × System → ℕ × System
unfolding record_result
submit_one fnv w reads now r (accepted, sys) =
    if r.target_id == 0
    then (accepted, sys)
    else if (reads r.target_id).facts_fail
    then (accepted, sys)
    else (accepted + 1, record_result fnv w (reads r.target_id) now r sys)

unfoldable pub submit_results :
    (ℕ → ℤ) → World → (ℕ → Reads) → ℕ → List CheckResult → ℕ × System → ℕ × System
unfolding submit_one
submit_results fnv w reads now [] acc = acc
submit_results fnv w reads now (r ∷ rs) acc =
    submit_results fnv w reads now rs (submit_one fnv w reads now r acc)
