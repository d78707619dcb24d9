-- ===== src/Probe/Fanout.antt =====
-- The incidents after a result: SubmitResults, back/internal/rpc/probeservice.go.
use upcontrol.Prelude.{
  ℕ, ◌≡◌, refl, ◌∙◌, ap, inl, inr, String, Bool, true, false, ◌&&◌, List, [], ◌∷◌, arith, ℤ,
  is_some, Bool-cases, if◌then◌else◌,
}
use upcontrol.Detect.Availability.{Transition, Status, process, is_down}
use upcontrol.Incident.Store.{Db, recovered}
use upcontrol.Incident.Lifecycle.{World, open_on_pool, close}
use upcontrol.Incident.Lifecycle.Single.{count_open, IsSingle}
use upcontrol.Incident.Lifecycle.Opening.{open_with-IsSingle}
use upcontrol.Incident.Lifecycle.Counts.{open_with-count}
use upcontrol.Incident.Lifecycle.Closing.{close-IsEnded}
use upcontrol.Incident.Lifecycle.Sweeps.{listed}
use upcontrol.Probe.{
  Reads, System, CheckResult, threshold, interval_of, facts_of, state_of, unmeasured, outcome_of,
  open_each, recover_each, listing, fan_out, record_result,
}

-- The incidents' queries that count succeed.
pub record IsWorking (w : World) : Type 0 where
  pub lookup : w.faults.lookup ≡ false
  pub monitor : w.faults.monitor ≡ false
  pub insert : w.faults.insert ≡ false
  pub close : w.faults.close ≡ false

-- Every subscription's monitor has its row.
abbrev pub IsKnown : World → List ℕ → Type 0
IsKnown w [] = Unit
IsKnown w (m ∷ ms) = (is_some (w.tables.monitors m) ≡ true) × IsKnown w ms

module _ (fnv : ℕ → ℤ) (w : World) (works : IsWorking w) where
  open_each-IsSingle :
      (title : ℕ → String) (secs : ℕ) (ms : List ℕ) (db : Db)
      → IsSingle db
      → IsSingle (open_each fnv w title secs ms db)
  unfolding open_each
  open_each-IsSingle title secs [] db s = s
  open_each-IsSingle title secs (m ∷ ms) db s =
      open_each-IsSingle title secs ms _
        (open_with-IsSingle fnv w m secs (title m) true db works.lookup s)

  open_each-count :
      (title : ℕ → String) (secs : ℕ) (ms : List ℕ) (db : Db)
      → IsSingle db
      → IsKnown w ms
      → (n : ℕ)
      → count_open n (open_each fnv w title secs ms db).incidents
        ≡ (if listed n ms then 1 else count_open n db.incidents)
  unfolding open_each
  open_each-count title secs [] db s k n = refl
  open_each-count title secs (m ∷ ms) db s (here, k) n =
      let next = (open_on_pool fnv w m (title m) secs db).1 in
      let single = open_with-IsSingle fnv w m secs (title m) true db works.lookup s in
      let first =
        open_with-count fnv w m secs (title m) true db works.lookup works.monitor works.insert here
          (s m) n in
      open_each-count title secs ms next single k n ∙ ground (arith, first)

  recover_each-count :
      (ms : List ℕ) (db : Db) (n : ℕ)
      → count_open n (recover_each w ms db).incidents
        ≡ (if listed n ms then 0 else count_open n db.incidents)
  unfolding recover_each
  recover_each-count [] db n = refl
  recover_each-count (m ∷ ms) db n =
      let (fine, counts) = close-IsEnded w m recovered db works.lookup works.close in
      recover_each-count ms (close w m recovered db).1 n ∙ ground (arith, counts n)

  fan_out-count :
      (reads : Reads) (secs : ℕ) (status : Status) (t : Transition) (db : Db)
      → IsSingle db
      → IsKnown w (listing reads.active)
      → (n : ℕ)
      → count_open n (fan_out fnv w reads secs status t db).incidents ≡ (
          if t.closes && listed n (listing reads.all)
          then 0
          else if is_down status && listed n (listing reads.active)
          then 1
          else count_open n db.incidents)
  unfolding fan_out
  fan_out-count reads secs status t db s k n = closing t.closes
    where
      opened : Db
      opened =
          if is_down status then open_each fnv w reads.title secs (listing reads.active) db else db

      opened-count : count_open n opened.incidents ≡ (
          if is_down status && listed n (listing reads.active)
          then 1
          else count_open n db.incidents)
      opened-count = elim (Bool-cases (is_down status)) [
        | inl d ↦ rw d (open_each-count reads.title secs (listing reads.active) db s k n)
        | inr d ↦ rw d refl
      ]

      closing :
          (b : Bool)
          → count_open n (if b then recover_each w (listing reads.all) opened else opened).incidents
            ≡ (if b && listed n (listing reads.all)
                then 0
                else if is_down status && listed n (listing reads.active)
                then 1
                else count_open n db.incidents)
      closing false = opened-count
      closing true =
          recover_each-count (listing reads.all) opened n
          ∙ ap (λ c. if listed n (listing reads.all) then 0 else c) opened-count

  -- Where the incidents' queries succeed and no monitor has two open incidents, after a measured
  -- result every subscription of a target that has recovered has none open, every subscription of a
  -- target that is down and is not paused has exactly one, and the other monitors have what they had.
  pub record_result-count :
      (reads : Reads) (now : ℕ) (r : CheckResult) (sys : System)
      → unmeasured r ≡ false
      → IsSingle sys.db
      → IsKnown w (listing reads.active)
      → (n : ℕ)
      → let (st, t) =
          process threshold (state_of (facts_of (sys.facts r.target_id))) (outcome_of r) now in
        count_open n (record_result fnv w reads now r sys).db.incidents ≡ (
          if t.closes && listed n (listing reads.all)
          then 0
          else if is_down st.status && listed n (listing reads.active)
          then 1
          else count_open n sys.db.incidents)
  unfolding record_result
  record_result-count reads now r sys measured s k n =
      let done =
        process threshold (state_of (facts_of (sys.facts r.target_id))) (outcome_of r) now in
      let after = fan_out fnv w reads (interval_of reads) done.0.status done.1 sys.db in
      ap (λ (b : Bool). count_open n (if b then sys.db else after).incidents) measured
      ∙ fan_out-count reads (interval_of reads) done.0.status done.1 sys.db s k n
