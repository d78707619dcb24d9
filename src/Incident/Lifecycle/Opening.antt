-- ===== src/Incident/Lifecycle/Opening.antt =====
-- `open` of back/internal/incident/incident.go on every branch.
use upcontrol.Prelude.{
  ℕ, ◌+◌, ◌≤◌, ◌≡◌, refl, sym, ◌∙◌, ap, subst, inl, inr, String, Bool, true, false, some, arith, ℤ,
  ◌==◌, Bool-cases,
}
use upcontrol.Incident.Store.{Incident, Db, Monitor, get_open_incident}
use upcontrol.Incident.Lifecycle.{World, Result, ok, err, open_with}
use upcontrol.Incident.Lifecycle.Single.{count_open, IsSingle, id_of}
use upcontrol.Incident.Lifecycle.Branches.{
  m_is_n, open_with-cases, open_with-inserts, count-after_open, found-after_open, found, none-count,
}

-- What an `open` promises of its result: the incident it names is the monitor's open one, and
-- an error leaves the database.
abbrev pub IsAnswered : ℕ → Db → Result (ℕ × Bool) × Db → Type 0
IsAnswered m db (ok (id, created), after) = id_of (get_open_incident after m) ≡ some id
IsAnswered m db (err e, after) = after ≡ db

module _ (fnv : ℕ → ℤ) (w : World) (m secs : ℕ) (title : String) (freeze : Bool) (db : Db) where
  -- Where the lookup answers, an `open` leaves every monitor at one open incident at most.
  pub open_with-IsSingle :
      w.faults.lookup ≡ false → IsSingle db → IsSingle (open_with fnv w m title secs freeze db).1
  open_with-IsSingle ok_lookup single =
      open_with-cases fnv w m secs title freeze db (λ r. IsSingle r.1) (λ i e. single) (λ e. single)
        (λ e. single)
        (λ mon e k n. elim (Bool-cases (m == n)) [
          | inl t ↦
              subst (λ c. c ≤ 1) (sym (count-after_open fnv w m secs title freeze db mon n))
                (ground
                  (arith, t, none-count fnv w m secs title freeze db ok_lookup e, m_is_n m n t))
          | inr t ↦
              subst (λ c. c ≤ 1) (sym (count-after_open fnv w m secs title freeze db mon n))
                (rw t (ground (arith, single n)))
        ])

  -- Where the lookup answers, a successful `open` returns the id of the incident that is then
  -- open for the monitor, new or not, and a failed one leaves the database as it was.
  pub open_with-IsAnswered :
      w.faults.lookup ≡ false → IsAnswered m db (open_with fnv w m title secs freeze db)
  unfolding get_open_incident id_of
  open_with-IsAnswered ok_lookup =
      open_with-cases fnv w m secs title freeze db (IsAnswered m db)
        (λ i e. ap id_of (sym (found fnv w m secs title freeze db ok_lookup) ∙ e)) (λ e. refl)
        (λ e. refl) (λ mon e k. found-after_open fnv w m secs title freeze db mon)

-- A failed lookup makes `open` insert whatever is open: the monitor's count goes up by one.
pub open_with_blind :
    (fnv : ℕ → ℤ) (w : World) (mon : Monitor) (m secs : ℕ) (title : String) (freeze : Bool)
    (db : Db)
    → w.faults.lookup ≡ true
    → w.faults.monitor ≡ false
    → w.faults.insert ≡ false
    → w.tables.monitors m ≡ some mon
    → count_open m (open_with fnv w m title secs freeze db).1.incidents
      ≡ 1 + count_open m db.incidents
open_with_blind fnv w mon m secs title freeze db l f g k =
    ap (λ r. count_open m r.1.incidents)
      (open_with-inserts fnv w m secs title freeze db mon (rw l refl) k f g)
    ∙ count-after_open fnv w m secs title freeze db mon m
    ∙ ground arith
