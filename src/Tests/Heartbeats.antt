-- ===== src/Tests/Heartbeats.antt =====
-- Heartbeats at concrete inputs.
use upcontrol.Prelude.{ℕ, ◌≡◌, refl, true, false, [], none, some, ℤ, pos, ◌==◌, if◌then◌else◌}
use upcontrol.Detect.Availability
use upcontrol.Detect.Availability.{State}
use upcontrol.Incident.Store.{Monitor, Tables, no_faults}
use upcontrol.Incident.Lifecycle.{World, no_store}
use upcontrol.Incident.Lifecycle.Single.{count_open}
use upcontrol.Heartbeat
use upcontrol.Heartbeat.{Row, System, found, ping, miss, missed_state}
use upcontrol.Heartbeat.Agreement.{IsAgreed, IsWorking, miss-IsAgreed, ping-IsAgreed, miss_down}

abbrev job : Row
job = record {
  id = 5;
  target_id = 8;
  name = "backup";
  interval_sec = 3600;
  grace_sec = 600;
  paused = false;
}

abbrev monitor : Monitor
monitor = record { tenant_id = 1; project_id = 4; name = "backup"; target = ""; kind = "heartbeat" }

abbrev tables : Tables
tables = record {
  monitors = λ m. if m == 5 then some monitor else none;
  frozen = λ p. false;
  channels = λ p. [];
  plans = λ t. none;
  entitlements = λ p. none;
}

abbrev world : World
world = record { tables = tables; faults = no_faults; evidence = no_store }

abbrev no_fault : Heartbeat.Faults
no_fault = record { facts = false; upsert = false; due = false; stores_checks = true }

abbrev quiet : System
quiet = record {
  facts = λ t. none;
  next_due = λ t. 100;
  checks = [];
  db = record { next_id = 1; incidents = []; updates = []; slice = []; queue = [] };
}

abbrev fnv : ℕ → ℤ
fnv m = pos m

works : IsWorking world job
works = record {
  lookup = refl;
  monitor = refl;
  insert = refl;
  close = refl;
  mon = monitor;
  known = refl;
}

agreed : IsAgreed job quiet
unfolding count_open
agreed = refl

abbrev missed : System
missed = miss fnv world no_fault 200 (job, missed_state none) quiet

miss-IsAgreed_example : IsAgreed job missed
miss-IsAgreed_example = miss-IsAgreed fnv world job works no_fault 200 quiet agreed

-- The miss opened an incident, and the ping closes it.
missed-IsAgreed : IsAgreed job missed
missed-IsAgreed = miss-IsAgreed fnv world job works no_fault 200 quiet agreed

ping-IsAgreed_example : IsAgreed job (ping fnv world no_fault (found job) 300 missed).1
ping-IsAgreed_example = ping-IsAgreed fnv world job works no_fault 300 missed missed-IsAgreed

abbrev known_down : State
known_down = record {
  status = Availability.down;
  consecutive_failures = 1;
  consecutive_unmeasured = 0;
  last_check_at = 0;
}

miss_down_example : (miss fnv world no_fault 200 (job, known_down) quiet).db ≡ quiet.db
miss_down_example = miss_down fnv world job no_fault 200 known_down quiet refl
