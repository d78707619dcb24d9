-- ===== src/Incident/Lifecycle/Sweeps.antt =====
-- The operations over many incidents: ClosePlanPaused, NotifyThawed and FreezeOpenIncident,
-- back/internal/incident/incident.go.
use upcontrol.Prelude.{
  ℕ, ◌≡◌, refl, sym, ◌∙◌, subst, Bool, true, false, ◌&&◌, ◌||◌, is_some, not, List, [], ◌∷◌, Option,
  none, some, arith, ◌==◌, if◌then◌else◌,
}
use upcontrol.Incident.Store.{plan_paused, Db, get_open_incident}
use upcontrol.Incident.Notify.{notify_channels}
use upcontrol.Incident.Lifecycle.{World, LifecycleError, found_open, close, freeze_slice, down_spec}
use upcontrol.Incident.Lifecycle.Single.{count_open}
use upcontrol.Incident.Lifecycle.Closing.{close-IsEnded}

-- The closes go on past an error; the errors are joined.
unfoldable pub close_each : World → List ℕ → Db → List LifecycleError × Db
unfolding close
close_each w [] db = ([], db)
close_each w (m ∷ ms) db =
    let (e, db') = close w m plan_paused db in
    let (es, last) = close_each w ms db' in (elim e [ none ↦ es | some x ↦ x ∷ es ], last)

-- `ids` are the paused monitors with an open incident, none when the read fails.
unfoldable pub close_plan_paused : World → Option (List ℕ) → Db → Option (List LifecycleError) × Db
unfolding close_each
close_plan_paused w none db = (none, db)
close_plan_paused w (some ids) db = let (es, db') = close_each w ids db in (some es, db')

-- A row of ListUndeliveredOpenIncidents.
pub record Undelivered : Type 0 where
  pub id : ℕ
  pub tenant_id : ℕ

unfoldable pub notify_each : World → ℕ → List Undelivered → Db → Db
unfolding notify_channels
notify_each w project [] db = db
notify_each w project (r ∷ rs) db =
    notify_each w project rs
      (notify_channels w.tables w.faults r.tenant_id project (down_spec r.id) db)

-- False is a failed read.
unfoldable pub notify_thawed : World → ℕ → Option (List Undelivered) → Db → Bool × Db
unfolding notify_each
notify_thawed w project none db = (false, db)
notify_thawed w project (some rs) db = (true, notify_each w project rs db)

-- The monitor's row is only looked for: its ids are those of the evidence query.
unfoldable pub freeze_open_incident : World → ℕ → Db → Db
unfolding freeze_slice get_open_incident
freeze_open_incident w m db = elim (found_open w db m) [
  | none ↦ db
  | some i ↦
      if not w.faults.monitor && is_some (w.tables.monitors m)
      then freeze_slice w.evidence i.id db
      else db
]

abbrev pub listed : ℕ → List ℕ → Bool
listed n [] = false
listed n (m ∷ ms) = (m == n) || listed n ms

-- Where the queries succeed, the sweep reports no error, ends every incident of the listed
-- monitors, and leaves every other monitor's count as it was.
pub close_each_lem :
    (w : World) (ids : List ℕ) (db : Db)
    → w.faults.lookup ≡ false
    → w.faults.close ≡ false
    → ((close_each w ids db).0 ≡ [])
      × ((n : ℕ)
          → count_open n (close_each w ids db).1.incidents
            ≡ (if listed n ids then 0 else count_open n db.incidents))
unfolding close_each
close_each_lem w [] db l c = (refl, λ n. refl)
close_each_lem w (m ∷ ms) db l c =
    let (fine, counts) = close-IsEnded w m plan_paused db l c in
    let (rest, ends) = close_each_lem w ms (close w m plan_paused db).1 l c in
    (
      subst
          (λ (e : Option LifecycleError).
            elim e [
              | none ↦ (close_each w ms (close w m plan_paused db).1).0
              | some x ↦ x ∷ (close_each w ms (close w m plan_paused db).1).0
            ]
            ≡ [])
          (sym fine) rest,
      λ n. ends n ∙ ground (arith, counts n),
    )
