-- ===== src/Detect/Scan/Outcomes.antt =====
-- What a scan does to the incidents and to the cooldown, back/internal/detect/detect.go.
use upcontrol.Prelude.{
  ℕ, ◌+◌, ◌≡◌, ◌↔◌, ◌≢◌, ◌≤◌, ◌<◌, refl, sym, subst, ◌⊎◌, inl, inr, Bool, true, false, not, Option,
  none, some, arith, ℤ, minute, Bool-cases, if◌then◌else◌,
}
use upcontrol.Detect.Suppression.{Input, evaluate, evaluate_iff, cooldown_period}
use upcontrol.Incident.Store.{Db, CloseReason}
use upcontrol.Incident.Lifecycle.{World, LifecycleError, close_by_fingerprint}
use upcontrol.Detect.Scan.{
  Telemetry, Faults, Project, Decision, Action, act_none, act_open, act_close, decide, System,
  ScanError, Verdict, good, bad, scan_window, window_bounds, baseline_bounds, week, act, act_on,
  decided, closed_result, suppression, score, scan_project, has_open,
}

-- Each window is 5 minutes and each baseline a week, the baseline ends where the window begins, and
-- the window ends at a whole minute not after `now` and less than a minute before it.
pub window_bounds_lem :
    (now : ℕ)
    → scan_window + week + minute ≤ now
    → let (from, to) = window_bounds now in
      let (old, until) = baseline_bounds now in
      (from + scan_window ≡ to)
      × (until ≡ from)
      × (old + week ≡ until)
      × (to ≤ now)
      × (now < to + minute)
unfolding window_bounds baseline_bounds
window_bounds_lem now h = (omega arith, refl, omega arith, omega arith, omega arith)

-- An incident is opened for exactly the fires that are not suppressed, and closed exactly where
-- nothing fires while one is open.
pub decide_lem :
    (dec : Decision) (suppressed is_open : Bool)
    → ((decide dec suppressed is_open ≡ act_open) ↔ ((dec.fire ≡ true) × (suppressed ≡ false)))
      × ((decide dec suppressed is_open ≡ act_close) ↔ ((dec.fire ≡ false) × (is_open ≡ true)))
unfolding decide
decide_lem dec suppressed is_open = ground arith

-- A system in which a scan opened nothing: the cooldown is as it was, and the database too, or an
-- incident of the key was closed.
abbrev pub IsUnopened : World → Project → ℤ → System → Option ScanError × System → Type 0
IsUnopened w proj fp sys (e, after) =
    (after.last_fire ≡ sys.last_fire)
    × ((after.db ≡ sys.db)
        ⊎ (after.db
            ≡ (close_by_fingerprint w proj.tenant_id fp CloseReason.recovered
                "Error rate back to normal" sys.db).1))

module _ (w : World) (f : Faults) (proj : Project) (fp : ℤ) (now : ℕ) (sys : System) where
  closed-IsUnopened :
      (r : Option LifecycleError × Db)
      → r.1
        ≡ (close_by_fingerprint w proj.tenant_id fp CloseReason.recovered
            "Error rate back to normal" sys.db).1
      → IsUnopened w proj fp sys (closed_result sys r)
  unfolding closed_result
  closed-IsUnopened (none, db) e = (refl, inr e)
  closed-IsUnopened (some x, db) e = (refl, inr e)

  act-IsUnopened :
      (dec : Decision) (a : Action)
      → a ≢ act_open
      → IsUnopened w proj fp sys (act w f proj fp now dec sys a)
  unfolding act
  act-IsUnopened dec act_none h = (refl, inl refl)
  act-IsUnopened dec act_open h = absurd (h refl)
  act-IsUnopened dec act_close h =
      closed-IsUnopened
        (close_by_fingerprint w proj.tenant_id fp CloseReason.recovered "Error rate back to normal"
          sys.db)
        refl

module _ {Baseline : Type 0} (t : Telemetry Baseline) (w : World) (f : Faults) (proj : Project)
    (fp : ℤ) (now at : ℕ) (sys : System) where
  cooled :
      (i : Input)
      → i.now ≡ now
      → i.last_fire_at ≡ at
      → 0 < at
      → now ≤ at + cooldown_period
      → (evaluate i).suppress ≡ true
  cooled i n l pos h = elim (Bool-cases (evaluate i).suppress) [
    | inl e ↦ e
    | inr e ↦ let (a, b, c, past) = (evaluate_iff i).0 e in ground (arith, past, n, l)
  ]

  -- Where a fire may go through, within a cooldown: nowhere.
  abbrev IsHeld : Decision → Verdict Bool → Type 0
  IsHeld dec (bad e) = Unit
  IsHeld dec (good s) = (dec.fire ≡ true) → s ≡ true

  suppression-IsHeld :
      (is_open : Bool) (dec : Decision)
      → 0 < at
      → now ≤ at + cooldown_period
      → IsHeld dec (suppression t f now fp (some at) is_open dec)
  unfolding suppression
  suppression-IsHeld is_open dec pos h = fires dec.fire refl
    where
      deployed :
          (o : Option ℕ)
          → IsHeld dec (elim o [
            | none ↦ bad ScanError.last_deploy
            | some deploy ↦
                good
                  (evaluate (record {
                    fingerprint = fp;
                    last_fire_at = at;
                    has_open_incident = is_open;
                    in_maintenance = false;
                    last_deploy_at = deploy;
                    now = now;
                  })).suppress
          ])
      deployed none = tt
      deployed (some deploy) = λ fire.
          cooled
            (record {
              fingerprint = fp;
              last_fire_at = at;
              has_open_incident = is_open;
              in_maintenance = false;
              last_deploy_at = deploy;
              now = now;
            })
            refl refl pos h

      looked :
          (b : Bool)
          → IsHeld dec (
              if b then bad ScanError.state_lookup else elim t.last_deploy_at [
                | none ↦ bad ScanError.last_deploy
                | some deploy ↦
                    good
                      (evaluate (record {
                        fingerprint = fp;
                        last_fire_at = at;
                        has_open_incident = is_open;
                        in_maintenance = false;
                        last_deploy_at = deploy;
                        now = now;
                      })).suppress
              ])
      looked true = tt
      looked false = deployed t.last_deploy_at

      fires :
          (b : Bool)
          → dec.fire ≡ b
          → IsHeld dec (
              if not b
              then good false
              else if f.state_lookup
              then bad ScanError.state_lookup
              else elim t.last_deploy_at [
                | none ↦ bad ScanError.last_deploy
                | some deploy ↦
                    good
                      (evaluate (record {
                        fingerprint = fp;
                        last_fire_at = at;
                        has_open_incident = is_open;
                        in_maintenance = false;
                        last_deploy_at = deploy;
                        now = now;
                      })).suppress
              ])
      fires false e = λ fire. ground (arith, fire, e)
      fires true e = looked f.state_lookup

  held-IsUnopened :
      (dec : Decision) (v : Verdict Bool)
      → IsHeld dec v
      → IsUnopened w proj fp sys (act_on w f proj fp now sys dec v)
  unfolding act_on
  held-IsUnopened dec (bad e) h = (refl, inl refl)
  held-IsUnopened dec (good s) h =
      act-IsUnopened w f proj fp now sys dec (decide dec s (has_open proj fp sys.db)) (λ e.
        let (a, b) = (decide_lem dec s (has_open proj fp sys.db)).0.0 e in ground (arith, h a, b))

  decided-IsUnopened :
      (v : Verdict Decision)
      → sys.last_fire proj.id ≡ some at
      → 0 < at
      → now ≤ at + cooldown_period
      → IsUnopened w proj fp sys (decided t w f proj fp now sys v)
  unfolding decided
  decided-IsUnopened (bad e) k pos h = (refl, inl refl)
  decided-IsUnopened (good dec) k pos h = held-IsUnopened dec _ (
      subst (λ o. IsHeld dec (suppression t f now fp o (has_open proj fp sys.db) dec)) (sym k)
        (suppression-IsHeld (has_open proj fp sys.db) dec pos h))

  -- For 30 minutes after a fire, no scan of the project opens an incident or starts a new cooldown,
  -- whatever the telemetry says and whatever fails: it changes nothing, or closes one of its key.
  pub scan_project-IsUnopened :
      sys.last_fire proj.id ≡ some at
      → 0 < at
      → now ≤ at + cooldown_period
      → IsUnopened w proj fp sys (scan_project t w f proj fp now sys)
  unfolding scan_project
  scan_project-IsUnopened k pos h = windowed (t.error_window (window_bounds now))
    where
      looked :
          (errs total : ℕ) (b : Bool)
          → IsUnopened w proj fp sys (
              if b
              then (some ScanError.open_lookup, sys)
              else decided t w f proj fp now sys (score t now errs total))
      looked errs total true = (refl, inl refl)
      looked errs total false = decided-IsUnopened (score t now errs total) k pos h

      windowed :
          (o : Option (ℕ × ℕ))
          → IsUnopened w proj fp sys (elim o [
            | none ↦ (some ScanError.error_window, sys)
            | some (errs, total) ↦
                if f.open_lookup
                then (some ScanError.open_lookup, sys)
                else decided t w f proj fp now sys (score t now errs total)
          ])
      windowed none = (refl, inl refl)
      windowed (some (errs, total)) = looked errs total f.open_lookup
