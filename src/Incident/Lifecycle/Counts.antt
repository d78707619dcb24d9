-- ===== src/Incident/Lifecycle/Counts.antt =====
-- How many incidents of a monitor are open after an `open`, back/internal/incident/incident.go.
use upcontrol.Prelude.{
  ℕ, ◌+◌, ◌≤◌, ◌≡◌, refl, sym, ◌∙◌, ap, subst, inl, inr, String, Bool, true, false, none, some,
  arith, is_some, ℤ, ◌==◌, Bool-cases, Option-cases, if◌then◌else◌,
}
use upcontrol.Incident.Store.{Incident, Db, Monitor, open_for, find, get_open_incident}
use upcontrol.Incident.Lifecycle.{World, open_or, found_open, open_with}
use upcontrol.Incident.Lifecycle.Single.{find-some, count_open, one_if}
use upcontrol.Incident.Lifecycle.Branches.{m_is_n, open_with-inserts, count-after_open, none-count}

found_open-none :
    (w : World) (m : ℕ) (db : Db)
    → w.faults.lookup ≡ false
    → count_open m db.incidents ≡ 0
    → found_open w db m ≡ none
unfolding get_open_incident
found_open-none w m db l z = elim (Option-cases (found_open w db m)) [
  | inl e ↦ e
  | inr (i, e) ↦
      let e' = subst (λ b. (if b then none else find (open_for m) db.incidents) ≡ some i) l e in
      absurd (omega (arith, z, find-some m db.incidents (ap is_some e')))
]

-- With no open incident and queries that succeed, `open` adds one to the monitor's count and
-- leaves the others'.
pub open_with-fresh :
    (fnv : ℕ → ℤ) (w : World) (mon : Monitor) (m secs : ℕ) (title : String) (freeze : Bool)
    (db : Db)
    → w.faults.lookup ≡ false
    → w.faults.monitor ≡ false
    → w.faults.insert ≡ false
    → w.tables.monitors m ≡ some mon
    → count_open m db.incidents ≡ 0
    → (n : ℕ)
    → count_open n (open_with fnv w m title secs freeze db).1.incidents
      ≡ one_if (m == n) + count_open n db.incidents
open_with-fresh fnv w mon m secs title freeze db l f g k z n =
    ap (λ r. count_open n r.1.incidents)
      (open_with-inserts fnv w m secs title freeze db mon (found_open-none w m db l z) k f g)
    ∙ count-after_open fnv w m secs title freeze db mon n

-- With at most one open incident for each monitor and queries that succeed, the monitor has one
-- after an `open`, and the others' counts are as before.
pub open_with-count :
    (fnv : ℕ → ℤ) (w : World) (m secs : ℕ) (title : String) (freeze : Bool) (db : Db)
    → w.faults.lookup ≡ false
    → w.faults.monitor ≡ false
    → w.faults.insert ≡ false
    → is_some (w.tables.monitors m) ≡ true
    → count_open m db.incidents ≤ 1
    → (n : ℕ)
    → count_open n (open_with fnv w m title secs freeze db).1.incidents
      ≡ (if m == n then 1 else count_open n db.incidents)
unfolding open_with open_or get_open_incident
open_with-count fnv w m secs title freeze db l f g k single n =
    elim (Option-cases (found_open w db m)) [
      | inr (i, e) ↦
          ap (λ o. count_open n (open_or fnv w m title secs freeze o db).1.incidents) e ∙ kept i e
      | inl e ↦ elim (Option-cases (w.tables.monitors m)) [
        | inl q ↦ ground (arith, sym (ap is_some q) ∙ k)
        | inr (mon, q) ↦
            let none_open : count_open m db.incidents ≡ 0 =
              none-count fnv w m secs title freeze db l e in
            open_with-fresh fnv w mon m secs title freeze db l f g q none_open n ∙ fresh none_open
      ]
    ]
  where
    at_n : (m == n) ≡ true → count_open m db.incidents ≡ count_open n db.incidents
    at_n t = ap (λ k. count_open k db.incidents) (m_is_n m n t)

    kept :
        (i : Incident)
        → found_open w db m ≡ some i
        → count_open n db.incidents ≡ (if m == n then 1 else count_open n db.incidents)
    kept i e =
        let e' = subst (λ b. (if b then none else find (open_for m) db.incidents) ≡ some i) l e in
        elim (Bool-cases (m == n)) [
          | inl t ↦ rw t (omega (arith, single, find-some m db.incidents (ap is_some e'), at_n t))
          | inr t ↦ rw t refl
        ]

    fresh :
        count_open m db.incidents ≡ 0
        → one_if (m == n) + count_open n db.incidents
          ≡ (if m == n then 1 else count_open n db.incidents)
    fresh z = elim (Bool-cases (m == n)) [
      | inl t ↦ rw t (omega (arith, z, at_n t))
      | inr t ↦ rw t (omega arith)
    ]
