-- ===== src/Detect/Suppression.antt =====
-- The four rules that silence a detector's fire, back/internal/detect/suppression/suppression.go.
use upcontrol.Prelude.{
  ℕ, ◌+◌, ◌<◌, ◌≤◌, String, ◌≡◌, ◌↔◌, ◌⊎◌, Bool, true, false, ◌&&◌, not, arith, ℤ, pos, leb_ℤ,
  is_zero, sub, sub_le, if◌then◌else◌,
}

pub record SuppressionDecision : Type 0 where
  pub suppress : Bool
  pub reason : String

abbrev pub allow : SuppressionDecision
allow = record { suppress = false; reason = "" }

abbrev pub suppressed : String → SuppressionDecision
suppressed reason = record { suppress = true; reason = reason }

pub record Input : Type 0 where
  pub fingerprint : ℤ
  pub last_fire_at : ℕ
  pub has_open_incident : Bool
  pub in_maintenance : Bool
  pub last_deploy_at : ℕ
  pub now : ℕ

abbrev pub cooldown_period : ℕ
cooldown_period = 1800000000000

abbrev pub post_deploy_window : ℕ
post_deploy_window = 90000000000

within : ℕ → ℕ → ℕ → Bool
within now t d = not (is_zero t) && leb_ℤ (sub now t) (pos d)

unfoldable pub evaluate : Input → SuppressionDecision
unfolding within
evaluate i =
    if within i.now i.last_deploy_at post_deploy_window
    then suppressed "post_deploy_blip"
    else if i.in_maintenance
    then suppressed "maintenance_window"
    else if i.has_open_incident
    then suppressed "duplicate_open_incident"
    else if within i.now i.last_fire_at cooldown_period
    then suppressed "cooldown"
    else allow

-- The time is unset, or more than `d` before `now`.
abbrev pub IsPast : ℕ → ℕ → ℕ → Type 0
IsPast now t d = (t ≡ 0) ⊎ (t + d < now)

-- A fire goes through exactly when no deploy lies in the last 90 seconds, there is no maintenance,
-- no open incident, and no fire of the fingerprint in the last 30 minutes. A deploy or a fire
-- stamped later than `now` silences too.
pub evaluate_iff :
    (i : Input)
    → ((evaluate i).suppress ≡ false) ↔ (
        IsPast i.now i.last_deploy_at post_deploy_window
        × (i.in_maintenance ≡ false)
        × (i.has_open_incident ≡ false)
        × IsPast i.now i.last_fire_at cooldown_period)
unfolding evaluate
evaluate_iff i = ground (
  arith,
  sub_le i.now i.last_deploy_at post_deploy_window (omega arith),
  sub_le i.now i.last_fire_at cooldown_period (omega arith),
)

-- Silence ends by the clock alone: what goes through now goes through at every later moment, as
-- long as nothing else has happened.
pub evaluate_later :
    (i : Input) (later : ℕ)
    → i.now ≤ later
    → (evaluate i).suppress ≡ false
    → (evaluate (record i { now = later })).suppress ≡ false
evaluate_later i later h a =
    let p = (evaluate_iff i).0 a in (evaluate_iff (record i { now = later })).1 (ground arith)
