-- ===== src/Tests/Detection.antt =====
-- The detector and the suppression rules at concrete inputs.
use upcontrol.Prelude.{
  ℕ, ◌+◌, ◌≤◌, ◌≡◌, refl, ◌↔◌, List, [], ◌∷◌, true, false, arith, pos, sub, if◌then◌else◌,
}
use upcontrol.Detect.Availability.{
  Outcome, fail, unmeasured, down, is_down, process, is_unmeasured, new,
}
use upcontrol.Detect.Availability.History.{
  after, failing, opened, closed, after-down_iff, opened-closed, process-opens_iff,
}
use upcontrol.Detect.Suppression.{Input, evaluate}

abbrev outage : List (Outcome × ℕ)
outage = (fail, 4) ∷ (unmeasured, 3) ∷ (fail, 2) ∷ (fail, 1) ∷ []

outage_down : (after 3 outage).status ≡ down
unfolding process
outage_down = refl

default_new : new (pos 0) ≡ 3
unfolding new
default_new = refl

refused : is_unmeasured "status" 429 ≡ true
unfolding is_unmeasured
refused = refl

after-down_iff_example : ((after 3 outage).status ≡ down) ↔ (3 ≤ failing outage)
after-down_iff_example = after-down_iff 3 outage (omega arith)

opened-closed_example :
    opened 3 outage ≡ closed 3 outage + (if is_down (after 3 outage).status then 1 else 0)
opened-closed_example = opened-closed 3 outage

process-opens_iff_example :
    ((process 3 (after 3 outage) fail 5).1.opens ≡ true)
    ↔ (◌≡◌ {A = Outcome} fail fail × (failing outage + 1 ≡ 3))
process-opens_iff_example = process-opens_iff 3 outage fail 5 (omega arith)

abbrev quiet : Input
quiet = record {
  fingerprint = pos 7;
  last_fire_at = 0;
  has_open_incident = false;
  in_maintenance = false;
  last_deploy_at = 10;
  now = 90000000011;
}

quiet_allowed : (evaluate quiet).suppress ≡ false
unfolding evaluate sub
quiet_allowed = refl
