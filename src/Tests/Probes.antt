-- ===== src/Tests/Probes.antt =====
-- Results of the probe fleet at concrete inputs.
use upcontrol.Prelude.{ℕ, ◌≡◌, refl, false, ◌&&◌, [], ◌∷◌, none, some, arith, ℤ, pos, if◌then◌else◌}
use upcontrol.Detect.Availability
use upcontrol.Detect.Availability.{process, is_down}
use upcontrol.Incident.Store.{Monitor, Tables, no_faults}
use upcontrol.Incident.Lifecycle.{World, no_store}
use upcontrol.Incident.Lifecycle.Single.{count_open, IsSingle}
use upcontrol.Incident.Lifecycle.Sweeps.{listed}
use upcontrol.Probe.{
  Facts, System, CheckResult, Reads, refusal_delay, threshold, facts_of, state_of, outcome_of,
  unmeasured, listing, record_result,
}
use upcontrol.Probe.Fanout.{IsWorking, record_result-count}

abbrev shop : Monitor
shop = record {
  tenant_id = 1;
  project_id = 4;
  name = "Shop";
  target = "https://shop.example";
  kind = "website";
}

abbrev tables : Tables
tables = record {
  monitors = λ m. some shop;
  frozen = λ p. false;
  channels = λ p. [];
  plans = λ t. none;
  entitlements = λ p. none;
}

abbrev world : World
world = record { tables = tables; faults = no_faults; evidence = no_store }

-- Two failures are on record, and 5 and 6 subscribe; 6 is paused.
abbrev failing : Facts
failing = record {
  status = Availability.check;
  consecutive_failures = 2;
  consecutive_unmeasured = 0;
  consecutive_refusals = 0;
  backoff_until = none;
}

abbrev reads : Reads
reads = record {
  facts_fail = false;
  interval = some 60;
  active = some (5 ∷ []);
  all = some (5 ∷ 6 ∷ []);
  title = λ m. "Shop is down";
}

abbrev system : System
system = record {
  facts = λ t. some failing;
  slots = λ t. record { leased_by = some "node-1"; lease_until = some 100; next_due_at = 50 };
  first_ok_at = λ t. none;
  checks = [];
  db = record { next_id = 1; incidents = []; updates = []; slice = []; queue = [] };
}

abbrev timeout : CheckResult
timeout = record {
  target_id = 8;
  passed = false;
  status_code = 0;
  error_class = "timeout";
  retry_after_sec = 0;
}

abbrev fnv : ℕ → ℤ
fnv m = pos m

works : IsWorking world
works = record { lookup = refl; monitor = refl; insert = refl; close = refl }

measured : unmeasured timeout ≡ false
unfolding Availability.is_unmeasured
measured = refl

none_open : IsSingle system.db
unfolding count_open
none_open m = omega arith

record_result-count_example :
    let (st, t) =
      process threshold (state_of (facts_of (system.facts 8))) (outcome_of timeout) 70 in
    count_open 5 (record_result fnv world reads 70 timeout system).db.incidents ≡ (
      if t.closes && listed 5 (listing reads.all)
      then 0
      else if is_down st.status && listed 5 (listing reads.active)
      then 1
      else count_open 5 system.db.incidents)
record_result-count_example =
    record_result-count fnv world works reads 70 timeout system measured none_open (refl, tt) 5

abbrev delay : ℕ
delay = refusal_delay 9 60 7200
