-- ===== src/Incident/Lifecycle/Closing.antt =====
-- `Close` of back/internal/incident/incident.go on every branch.
use upcontrol.Prelude.{
  ℕ, ◌≤◌, ◌≡◌, ◌≢◌, refl, sym, ◌∙◌, ap, subst, ◌⊎◌, inl, inr, true, false, Option, none, some,
  arith, is_some, Bool-cases, Option-cases, if◌then◌else◌, List, ◌==◌, ==_iff,
}
use upcontrol.Incident.Store.{
  Incident, CloseReason, resolved, Db, open_for, find, get_open_incident, close_incident,
}
use upcontrol.Incident.Lifecycle.{
  World, LifecycleError, close_failed, add_update, found_open, close, close_found, closed_text,
}
use upcontrol.Incident.Lifecycle.Single.{
  count_open, find-none, find-some, count-resolve, count-other,
}
use upcontrol.Incident.Lifecycle.Branches.{update-incidents}

module _ (w : World) (m : ℕ) (reason : CloseReason) (db : Db) where
  -- The lookup found `i`.
  closed_row : Incident → Db
  closed_row i = add_update w.faults i.id resolved (closed_text reason) (close_incident db reason m)

  close_found-some :
      (i : Incident)
      → w.faults.close ≡ false
      → close_found w m reason (some i) db ≡ (none, closed_row i)
  unfolding close_found closed_row
  close_found-some i c = ap (λ b. if b then (some close_failed, db) else (none, closed_row i)) c

  pub close_found-failed :
      (i : Incident)
      → w.faults.close ≡ true
      → close_found w m reason (some i) db ≡ (some close_failed, db)
  unfolding close_found closed_row
  close_found-failed i c = ap (λ b. if b then (some close_failed, db) else (none, closed_row i)) c

  count-closed_row : (i : Incident) → count_open m (closed_row i).incidents ≡ 0
  unfolding closed_row close_incident
  count-closed_row i =
      ap (count_open m)
        (update-incidents w.faults i.id resolved (closed_text reason) (close_incident db reason m))
      ∙ count-resolve m reason db.incidents

  count-closed_other :
      (i : Incident) (n : ℕ)
      → (m ≢ n)
      → count_open n (closed_row i).incidents ≡ count_open n db.incidents
  unfolding closed_row close_incident
  count-closed_other i n ne =
      ap (count_open n)
        (update-incidents w.faults i.id resolved (closed_text reason) (close_incident db reason m))
      ∙ count-other m n reason db.incidents ne

  -- No error, no open incident of the monitor, and every other monitor counts as before.
  abbrev pub IsEnded : Option LifecycleError × Db → Type 0
  IsEnded r =
      (r.0 ≡ none)
      × ((n : ℕ) → count_open n r.1.incidents ≡ (if m == n then 0 else count_open n db.incidents))

  merged :
      (is : List Incident)
      → count_open m is ≡ 0
      → ((n : ℕ) → (m ≢ n) → count_open n is ≡ count_open n db.incidents)
      → (n : ℕ) → count_open n is ≡ (if m == n then 0 else count_open n db.incidents)
  merged is z rest n = elim (Bool-cases (m == n)) [
    | inl t ↦ let same : m ≡ n = (==_iff m n).0 t in rw t (subst (λ k. count_open k is ≡ 0) same z)
    | inr t ↦ rw t (rest n (λ e. ground (arith, e, t)))
  ]

  ended :
      w.faults.close ≡ false
      → (o : Option Incident) → get_open_incident db m ≡ o
      → IsEnded (close_found w m reason o db)
  unfolding close_found get_open_incident
  ended c none e = (refl, merged db.incidents (find-none m db.incidents e) (λ n ne. refl))
  ended c (some i) e =
      subst IsEnded (sym (close_found-some i c))
        (refl, merged (closed_row i).incidents (count-closed_row i) (count-closed_other i))

  -- Where the lookup and the update of the row succeed, `Close` returns no error, leaves the
  -- monitor with no open incident, and the count of every other monitor as it was.
  pub close-IsEnded :
      w.faults.lookup ≡ false → w.faults.close ≡ false → IsEnded (close w m reason db)
  unfolding close
  close-IsEnded l c =
      subst (λ o. IsEnded (close_found w m reason o db)) (sym lookup)
        (ended c (get_open_incident db m) refl)
    where
      lookup : found_open w db m ≡ get_open_incident db m
      lookup = rw l refl

pub found-count :
    (w : World) (m : ℕ) (db : Db) (i : Incident)
    → found_open w db m ≡ some i
    → 1 ≤ count_open m db.incidents
unfolding get_open_incident
found-count w m db i e = elim (Bool-cases w.faults.lookup) [
  | inl l ↦
      ground (arith, subst (λ b. (if b then none else find (open_for m) db.incidents) ≡ some i) l e)
  | inr l ↦
      let e' = subst (λ b. (if b then none else find (open_for m) db.incidents) ≡ some i) l e in
      find-some m db.incidents (ap is_some e')
]

-- A `Close` with nothing open, or whose update fails, changes no row and no timeline.
pub close_idle :
    (w : World) (m : ℕ) (reason : CloseReason) (db : Db)
    → (count_open m db.incidents ≡ 0) ⊎ (w.faults.close ≡ true)
    → (close w m reason db).1 ≡ db
unfolding close close_found
close_idle w m reason db h = elim (Option-cases (found_open w db m)) [
  | inl e ↦ ap (λ o. (close_found w m reason o db).1) e
  | inr (i, e) ↦ ap (λ o. (close_found w m reason o db).1) e ∙ elim h [
    | inl z ↦ ground (arith, z, found-count w m db i e)
    | inr c ↦ ap (λ (r : Option LifecycleError × Db). r.1) (close_found-failed w m reason db i c)
  ]
]
