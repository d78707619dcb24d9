-- ===== src/Heartbeat/Agreement.antt =====
-- The detector's verdict beside the incidents: Ping, Tick and apply,
-- back/internal/heartbeat/heartbeat.go.
use upcontrol.Prelude.{
  ℕ, ◌+◌, ◌≡◌, refl, sym, ◌∙◌, ap, inl, inr, Bool, true, false, ◌&&◌, not, ◌∷◌, Option, none, some,
  arith, ℤ, ◌==◌, leb, Bool-cases, if◌then◌else◌,
}
use upcontrol.Detect.Availability
use upcontrol.Detect.Availability.{State, Outcome, pass, fail, Transition, process, is_down}
use upcontrol.Incident.Store.{Db, Monitor, recovered}
use upcontrol.Incident.Lifecycle.{World}
use upcontrol.Incident.Lifecycle.Single.{count_open, one_if}
use upcontrol.Incident.Lifecycle.Counts.{open_with-fresh}
use upcontrol.Incident.Lifecycle.Closing.{close-IsEnded}
use upcontrol.Heartbeat.{
  Row, System, Faults, found, PingResult, threshold, set_at, report, apply, state_of, check_of,
  set_due, pushed, ping, missed_state, miss,
}

abbrev pub down_of : Option State → Bool
down_of none = false
down_of (some s) = is_down s.status

-- The monitor has an open incident exactly while its facts say `down`, and then one.
abbrev pub IsAgreed : Row → System → Type 0
IsAgreed row sys = count_open row.id sys.db.incidents ≡ one_if (down_of (sys.facts row.target_id))

-- The incident's queries that count succeed, and the monitor's row is there.
pub record IsWorking (w : World) (row : Row) : Type 0 where
  pub lookup : w.faults.lookup ≡ false
  pub monitor : w.faults.monitor ≡ false
  pub insert : w.faults.insert ≡ false
  pub close : w.faults.close ≡ false
  pub mon : Monitor
  pub known : w.tables.monitors row.id ≡ some mon

module _ (fnv : ℕ → ℤ) (w : World) (row : Row) (works : IsWorking w row) where
  own : (n : ℕ) → (if row.id == row.id then 0 else n) ≡ 0
  own n = ground arith

  report-pass :
      (st : State) (now : ℕ) (db : Db)
      → count_open row.id db.incidents ≡ one_if (is_down st.status)
      → count_open row.id (report fnv w row (process threshold st pass now).1 db).incidents ≡ 0
  unfolding report process
  report-pass st now db e = elim (Bool-cases (is_down st.status)) [
    | inl d ↦ rw d (
        (close-IsEnded w row.id recovered db works.lookup works.close).1 row.id
        ∙ own (count_open row.id db.incidents))
    | inr d ↦ rw d (e ∙ ap one_if d)
  ]

  one_more : {n : ℕ} {b : Bool} → n ≡ one_if b → b ≡ false → one_if (row.id == row.id) + n ≡ 1
  one_more e d = ground (arith, e, d)

  report-fail :
      (st : State) (now : ℕ) (db : Db)
      → count_open row.id db.incidents ≡ one_if (is_down st.status)
      → count_open row.id (report fnv w row (process threshold st fail now).1 db).incidents ≡ 1
  unfolding report process Availability.new
  report-fail st now db e = elim (Bool-cases (is_down st.status)) [
    | inl d ↦ rw d (e ∙ ap one_if d)
    | inr d ↦
        let reached : leb 1 (st.consecutive_failures + 1) ≡ true = ground arith in
        rw d (
          rw reached (
            open_with-fresh fnv w works.mon row.id _ _ true db works.lookup works.monitor
              works.insert works.known (e ∙ ap one_if d) row.id
            ∙ one_more e d))
  ]

  down-process-pass :
      (st : State) (now : ℕ) → is_down (process threshold st pass now).0.status ≡ false
  unfolding process
  down-process-pass st now = ground arith

  down-process-fail :
      (st : State) (now : ℕ) → is_down (process threshold st fail now).0.status ≡ true
  unfolding process Availability.new
  down-process-fail st now = ground arith

  -- A result that is not an unmeasured one.
  abbrev IsResult : Outcome → Type 0
  IsResult pass = Unit
  IsResult fail = Unit
  IsResult Availability.unmeasured = ⊥

  reported :
      (st : State) (o : Outcome) (now : ℕ) (db : Db)
      → IsResult o
      → count_open row.id db.incidents ≡ one_if (is_down st.status)
      → count_open row.id (report fnv w row (process threshold st o now).1 db).incidents
        ≡ one_if (is_down (process threshold st o now).0.status)
  reported st pass now db r e = report-pass st now db e ∙ sym (ap one_if (down-process-pass st now))
  reported st fail now db r e = report-fail st now db e ∙ sym (ap one_if (down-process-fail st now))
  reported st Availability.unmeasured now db r e = absurd r

  set_at_self : {A : Type 0} (k : ℕ) (v : A) (g : ℕ → A) → set_at k v g k ≡ v
  set_at_self k v g = ground arith

  apply-IsAgreed :
      (f : Faults) (st : State) (o : Outcome) (now : ℕ) (sys : System)
      → IsResult o
      → is_down st.status ≡ down_of (sys.facts row.target_id)
      → IsAgreed row sys
      → IsAgreed row (apply fnv w f row st o now sys).1
  unfolding apply
  apply-IsAgreed f st o now sys r same agreed = branch f.upsert
    where
      st' : State
      st' = (process threshold st o now).0

      written : System
      written = record {
        facts = set_at row.target_id (some st') sys.facts;
        next_due = sys.next_due;
        checks = if f.stores_checks then check_of row o now ∷ sys.checks else sys.checks;
        db = report fnv w row (process threshold st o now).1 sys.db;
      }

      branch :
          (b : Bool)
          → IsAgreed row (if◌then◌else◌ {A = Bool × System} b (false, sys) (true, written)).1
      branch true = agreed
      branch false =
          reported st o now sys.db r (agreed ∙ sym (ap one_if same))
          ∙ sym (ap (λ x. one_if (down_of x)) (set_at_self row.target_id (some st') sys.facts))

  due-IsAgreed :
      (target secs now : ℕ) (sys : System)
      → IsAgreed row sys
      → IsAgreed row (set_due target secs now sys)
  due-IsAgreed target secs now sys a = a

  -- Where the incident's queries succeed, a missed window whose row carries the state of the facts
  -- keeps this: the monitor has one open incident while its facts say `down`, and none otherwise.
  pub miss-IsAgreed :
      (f : Faults) (now : ℕ) (sys : System)
      → IsAgreed row sys
      → IsAgreed row (miss fnv w f now (row, missed_state (sys.facts row.target_id)) sys)
  unfolding miss
  miss-IsAgreed f now sys a = branch (applied.0 && not f.due)
    where
      applied : Bool × System
      applied = apply fnv w f row (missed_state (sys.facts row.target_id)) fail now sys

      same : (o : Option State) → is_down (missed_state o).status ≡ down_of o
      same none = refl
      same (some s) = refl

      kept : IsAgreed row applied.1
      kept =
          apply-IsAgreed f (missed_state (sys.facts row.target_id)) fail now sys tt
            (same (sys.facts row.target_id)) a

      branch :
          (b : Bool)
          → IsAgreed row
              (if b then set_due row.target_id row.interval_sec now applied.1 else applied.1)
      branch true = kept
      branch false = kept

  -- Where the incident's queries succeed, a ping keeps this, whichever of its other queries fail: the
  -- monitor has one open incident while its facts say `down`, and none otherwise.
  pub ping-IsAgreed :
      (f : Faults) (now : ℕ) (sys : System)
      → IsAgreed row sys
      → IsAgreed row (ping fnv w f (found row) now sys).1
  unfolding ping pushed
  ping-IsAgreed f now sys a = paused row.paused
    where
      applied : Bool × System
      applied = apply fnv w f row (state_of (sys.facts row.target_id)) pass now sys

      same : (o : Option State) → is_down (state_of o).status ≡ down_of o
      same none = refl
      same (some s) = refl

      kept : IsAgreed row applied.1
      kept =
          apply-IsAgreed f (state_of (sys.facts row.target_id)) pass now sys tt
            (same (sys.facts row.target_id)) a

      due :
          (p : Bool × System)
          → IsAgreed row p.1
          → (b : Bool) → f.due ≡ b
          → IsAgreed row (pushed f row now p).1
      due (false, s) k b e = k
      due (true, s) k true e = rw e k
      due (true, s) k false e = rw e k

      read :
          (b : Bool)
          → IsAgreed row
              (if◌then◌else◌ {A = PingResult × System} b
                (PingResult.failed, sys)
                (pushed f row now applied)).1
      read true = a
      read false = due applied kept f.due refl

      paused :
          (b : Bool)
          → IsAgreed row
              (if◌then◌else◌ {A = PingResult × System} b
                (PingResult.answered, sys)
                (if f.facts then (PingResult.failed, sys) else pushed f row now applied)).1
      paused true = a
      paused false = read f.facts

report-down :
    (fnv : ℕ → ℤ) (w : World) (row : Row) (now : ℕ) (st : State) (db : Db)
    → is_down st.status ≡ true
    → report fnv w row (process threshold st fail now).1 db ≡ db
unfolding report process
report-down fnv w row now st db d = rw d refl

apply-down :
    (fnv : ℕ → ℤ) (w : World) (row : Row) (f : Faults) (now : ℕ) (st : State) (sys : System)
    → is_down st.status ≡ true
    → (apply fnv w f row st fail now sys).1.db ≡ sys.db
unfolding apply
apply-down fnv w row f now st sys d = elim (Bool-cases f.upsert) [
  | inl e ↦ rw e refl
  | inr e ↦ rw e (report-down fnv w row now st sys.db d)
]

-- A missed window of a heartbeat that its row already calls `down` touches no incident, open or not:
-- an incident whose opening failed is not opened by the misses that follow.
pub miss_down :
    (fnv : ℕ → ℤ) (w : World) (row : Row) (f : Faults) (now : ℕ) (st : State) (sys : System)
    → is_down st.status ≡ true
    → (miss fnv w f now (row, st) sys).db ≡ sys.db
unfolding miss
miss_down fnv w row f now st sys d = branch ((apply fnv w f row st fail now sys).0 && not f.due)
  where
    sys' : System
    sys' = (apply fnv w f row st fail now sys).1

    branch :
        (b : Bool)
        → (if b then set_due row.target_id row.interval_sec now sys' else sys').db ≡ sys.db
    branch true = apply-down fnv w row f now st sys d
    branch false = apply-down fnv w row f now st sys d
