-- ===== src/Detect/Scan.antt =====
-- The error-rate scan of a project, back/internal/detect/detect.go. The times are nanoseconds since
-- Go's zero time.
pub mod Outcomes
use Prim.Native.String.{◌++◌ as concat}
use upcontrol.Prelude.{
  ℕ, ◌+◌, ◌-◌, ◌*◌, ◌%◌, String, Bool, true, false, ◌&&◌, not, List, [], ◌∷◌, Option, none, some, ℤ,
  ◌==◌, ltb, is_some, minute, if◌then◌else◌,
}
use upcontrol.Detect.Suppression.{Input, SuppressionDecision, evaluate}
use upcontrol.Incident.Store.{Db, recovered, get_open_incident_by_fingerprint}
use upcontrol.Incident.Lifecycle.{
  World, Result, ok, err, LifecycleError, DetectOpen, open_detect, close_by_fingerprint,
}

abbrev pub scan_window : ℕ
scan_window = 5 * minute

-- now.Truncate(time.Minute) is the last whole minute since the zero time.
unfoldable pub window_bounds : ℕ → ℕ × ℕ
window_bounds now = let to = now - now % minute in (to - scan_window, to)

abbrev pub week : ℕ
week = 7 * 24 * 60 * minute

unfoldable pub baseline_bounds : ℕ → ℕ × ℕ
unfolding window_bounds
baseline_bounds now = let (from, to) = window_bounds now in (from - week, from)

-- detector.Decision: whether it fires, and why.
pub record Decision : Type 0 where
  pub fire : Bool
  pub reason : String

abbrev pub no_fire : Decision
no_fire = record { fire = false; reason = "" }

pub data Action : Type 0 where
  act_none act_open act_close : Action

unfoldable pub decide : Decision → Bool → Bool → Action
decide dec suppressed has_open =
    if dec.fire && not suppressed
    then act_open
    else if not dec.fire && has_open
    then act_close
    else act_none

pub record Project : Type 0 where
  pub id : ℕ
  pub tenant_id : ℕ
  pub domain : String

-- The telemetry store's answers, by the window asked for, and the detector over floating-point
-- numbers, `error_rate errs total median mad`, with its baseline as the store returns it.
pub record Telemetry (Baseline : Type 0) : Type 0 where
  pub error_window : ℕ × ℕ → Option (ℕ × ℕ)
  pub error_rate_baseline : ℕ × ℕ → Option Baseline
  pub last_deploy_at : Option ℕ
  pub error_rate : ℕ → ℕ → Baseline → Decision

-- The incidents, and when an alert last fired for a project.
pub record System : Type 0 where
  pub db : Db
  pub last_fire : ℕ → Option ℕ

pub record Faults : Type 0 where
  pub open_lookup : Bool
  pub state_lookup : Bool
  pub state_write : Bool

pub data ScanError : Type 0 where
  error_window open_lookup baseline state_lookup last_deploy open_failed close_failed state_write :
      ScanError

pub data Verdict (A : Type 0) : Type 0 where
  good : A → Verdict A
  bad : ScanError → Verdict A

abbrev pub floor : ℕ
floor = 10

module _ {Baseline : Type 0} where
  -- The detector's decision; below the floor it is not asked.
  unfoldable pub score : Telemetry Baseline → ℕ → ℕ → ℕ → Verdict Decision
  unfolding baseline_bounds
  score t now errs total =
      if ltb total floor then good no_fire else elim (t.error_rate_baseline (baseline_bounds now)) [
        | none ↦ bad baseline
        | some b ↦ good (t.error_rate errs total b)
      ]

  -- Whether a fire is suppressed.
  unfoldable pub suppression :
      Telemetry Baseline → Faults → ℕ → ℤ → Option ℕ → Bool → Decision → Verdict Bool
  unfolding evaluate
  suppression t f now fp last_fire is_open dec =
      if not dec.fire
      then good false
      else if f.state_lookup
      then bad state_lookup
      else elim t.last_deploy_at [
        | none ↦ bad last_deploy
        | some deploy ↦
            let input : Input = record {
              fingerprint = fp;
              last_fire_at = elim last_fire [ none ↦ 0 | some at ↦ at ];
              has_open_incident = is_open;
              in_maintenance = false;
              last_deploy_at = deploy;
              now = now;
            } in
            good (evaluate input).suppress
      ]

abbrev pub detect_open : Project → ℤ → Decision → DetectOpen
detect_open proj fp dec = record {
  tenant_id = proj.tenant_id;
  project_id = proj.id;
  monitor_id = none;
  detector = "errorrate";
  fingerprint = fp;
  title = concat "Error rate spike on " proj.domain;
  opened_text = dec.reason;
}

abbrev pub fired_at : ℕ → ℕ → (ℕ → Option ℕ) → ℕ → Option ℕ
fired_at id now last_fire j = if j == id then some now else last_fire j

unfoldable pub opened_result :
    Faults → Project → ℕ → System → Result (ℕ × Bool) × Db → Option ScanError × System
opened_result f proj now sys (err e, db) = (some open_failed, record sys { db = db })
opened_result f proj now sys (ok (id, false), db) = (none, record sys { db = db })
opened_result f proj now sys (ok (id, true), db) =
    if f.state_write
    then (some state_write, record sys { db = db })
    else (none, record { db = db; last_fire = fired_at proj.id now sys.last_fire })

unfoldable pub closed_result : System → Option LifecycleError × Db → Option ScanError × System
closed_result sys (none, db) = (none, record sys { db = db })
closed_result sys (some e, db) = (some close_failed, record sys { db = db })

unfoldable pub act :
    World → Faults → Project → ℤ → ℕ → Decision → System → Action → Option ScanError × System
unfolding open_detect close_by_fingerprint opened_result closed_result
act w f proj fp now dec sys act_none = (none, sys)
act w f proj fp now dec sys act_open =
    opened_result f proj now sys (open_detect w (detect_open proj fp dec) sys.db)
act w f proj fp now dec sys act_close =
    closed_result sys
      (close_by_fingerprint w proj.tenant_id fp recovered "Error rate back to normal" sys.db)

abbrev pub has_open : Project → ℤ → Db → Bool
has_open proj fp db = is_some (get_open_incident_by_fingerprint db proj.tenant_id fp)

unfoldable pub act_on :
    World → Faults → Project → ℤ → ℕ → System → Decision → Verdict Bool → Option ScanError × System
unfolding act decide get_open_incident_by_fingerprint
act_on w f proj fp now sys dec (bad e) = (some e, sys)
act_on w f proj fp now sys dec (good suppressed) =
    act w f proj fp now dec sys (decide dec suppressed (has_open proj fp sys.db))

module _ {Baseline : Type 0} where
  unfoldable pub decided :
      Telemetry Baseline
      → World
      → Faults
      → Project
      → ℤ
      → ℕ
      → System
      → Verdict Decision
      → Option ScanError × System
  unfolding act_on suppression get_open_incident_by_fingerprint
  decided t w f proj fp now sys (bad e) = (some e, sys)
  decided t w f proj fp now sys (good dec) =
      act_on w f proj fp now sys dec
        (suppression t f now fp (sys.last_fire proj.id) (has_open proj fp sys.db) dec)

  -- `fp` is KeyFingerprint of the project's key, FNV-1a.
  unfoldable pub scan_project :
      Telemetry Baseline → World → Faults → Project → ℤ → ℕ → System → Option ScanError × System
  unfolding decided score window_bounds
  scan_project t w f proj fp now sys = elim (t.error_window (window_bounds now)) [
    | none ↦ (some ScanError.error_window, sys)
    | some (errs, total) ↦
        if f.open_lookup
        then (some open_lookup, sys)
        else decided t w f proj fp now sys (score t now errs total)
  ]

  -- One pass over the projects; a scan that fails is logged and passed over.
  unfoldable pub tick :
      (Project → Telemetry Baseline)
      → World
      → Faults
      → (Project → ℤ)
      → (Project → ℕ)
      → List Project
      → System
      → System
  unfolding scan_project
  tick t w f fp clock [] sys = sys
  tick t w f fp clock (p ∷ ps) sys =
      tick t w f fp clock ps (scan_project (t p) w f p (fp p) (clock p) sys).1
