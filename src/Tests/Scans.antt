-- ===== src/Tests/Scans.antt =====
-- A scan at a concrete input.
use upcontrol.Prelude.{ℕ, ◌+◌, ◌*◌, refl, true, false, [], none, some, arith, pos, minute}
use upcontrol.Incident.Store.{Tables, no_faults}
use upcontrol.Incident.Lifecycle.{World, no_store}
use upcontrol.Detect.Scan.{Telemetry, Project, System, Faults, scan_project}
use upcontrol.Detect.Scan.Outcomes.{IsUnopened, scan_project-IsUnopened}

abbrev tables : Tables
tables = record {
  monitors = λ m. none;
  frozen = λ p. false;
  channels = λ p. [];
  plans = λ t. none;
  entitlements = λ p. none;
}

abbrev world : World
world = record { tables = tables; faults = no_faults; evidence = no_store }

-- Forty error lines of a hundred: it fires.
abbrev telemetry : Telemetry ℕ
telemetry = record {
  error_window = λ b. some (40, 100);
  error_rate_baseline = λ b. some 1;
  last_deploy_at = some 0;
  error_rate = λ e t b. record { fire = true; reason = "40 of 100" };
}

abbrev shop : Project
shop = record { id = 4; tenant_id = 1; domain = "shop.example" }

abbrev fired : ℕ
fired = 1000 * minute

abbrev system : System
system = record {
  db = record { next_id = 1; incidents = []; updates = []; slice = []; queue = [] };
  last_fire = λ p. some fired;
}

abbrev faults : Faults
faults = record { open_lookup = false; state_lookup = false; state_write = false }

abbrev now : ℕ
now = fired + 20 * minute

scan_project-IsUnopened_example :
    IsUnopened world shop
      (pos 77)
      system
      (scan_project telemetry world faults shop (pos 77) now system)
scan_project-IsUnopened_example =
    scan_project-IsUnopened telemetry world faults shop (pos 77) now fired system refl (omega arith)
      (omega arith)
