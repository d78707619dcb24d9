-- ===== src/Incident/Lifecycle/Branches.antt =====
-- The branches of `open`, back/internal/incident/incident.go.
use upcontrol.Prelude.{
  ℕ, ◌+◌, ◌≡◌, refl, sym, ◌∙◌, ap, inl, inr, String, Bool, true, false, ◌∷◌, Option, none, some,
  arith, ℤ, ◌==◌, Bool-cases, Option-cases, if◌then◌else◌,
}
use upcontrol.Incident.Store.{
  Incident, UpdateKind, opened, Db, Monitor, Faults, open_for, find, get_open_incident,
  open_incident, add_incident_update,
}
use upcontrol.Incident.Lifecycle.{
  World, Result, ok, err, insert_failed, monitor_unknown, add_update, set_interval, after_insert,
  insert_for, open_or, found_open, open_with, opened_text, availability_row,
}
use upcontrol.Incident.Lifecycle.Quiet.{
  IsQuiet, IsQuiet-trans, set_interval-IsQuiet, freeze_slice-IsQuiet, notify_channels-IsQuiet,
}
use upcontrol.Incident.Lifecycle.Single.{
  count_open, one_if, quiet-count, quiet-found, id_of, find-none,
}

update-IsQuiet :
    (f : Faults) (id : ℕ) (kind : UpdateKind) (text : String) {a b : Db}
    → IsQuiet a b
    → IsQuiet (add_update f id kind text a) (add_update f id kind text b)
unfolding add_update add_incident_update
update-IsQuiet f id kind text q = elim (Bool-cases f.update) [
  | inl e ↦ rw e q
  | inr e ↦ rw e (record {
    incidents = q.incidents;
    updates = ap (λ us. record { incident_id = id; kind = kind; text = text } ∷ us) q.updates;
  })
]

-- But for the update, what follows the insert is quiet.
after_insert-IsQuiet :
    (w : World) (mon : Monitor) (id secs : ℕ) (freeze : Bool) (db : Db)
    → IsQuiet
        (add_update w.faults id opened (opened_text mon) db)
        (after_insert w mon id secs freeze db)
unfolding after_insert
after_insert-IsQuiet w mon id secs freeze db =
    let a = set_interval w.faults id secs db in
    let b = add_update w.faults id opened (opened_text mon) a in
    IsQuiet-trans
      (update-IsQuiet w.faults id opened (opened_text mon)
        (set_interval-IsQuiet w.faults id secs db))
      (elim (Bool-cases freeze) [
        | inl e ↦ rw e (
            IsQuiet-trans (freeze_slice-IsQuiet w.evidence id b)
              (notify_channels-IsQuiet _ _ _ _ _ _))
        | inr e ↦ rw e (notify_channels-IsQuiet _ _ _ _ _ _)
      ])

pub update-incidents :
    (f : Faults) (id : ℕ) (kind : UpdateKind) (text : String) (db : Db)
    → (add_update f id kind text db).incidents ≡ db.incidents
unfolding add_update add_incident_update
update-incidents f id kind text db = elim (Bool-cases f.update) [
  | inl e ↦ rw e refl
  | inr e ↦ rw e refl
]

pub m_is_n : (m n : ℕ) → (m == n) ≡ true → m ≡ n
m_is_n m n t = ground arith

module _ (fnv : ℕ → ℤ) (w : World) (m secs : ℕ) (title : String) (freeze : Bool) (db : Db) where
  unfoldable pub after_open : Monitor → Db
  after_open mon =
      after_insert w mon db.next_id secs freeze
        (open_incident db (availability_row fnv mon m title))

  -- An `open` ends in one of these ways.
  pub open_with-cases {ℓ} :
      (P : Result (ℕ × Bool) × Db → Type ℓ)
      → ((i : Incident) → found_open w db m ≡ some i → P (ok (i.id, false), db))
      → (found_open w db m ≡ none → P (err monitor_unknown, db))
      → (found_open w db m ≡ none → P (err insert_failed, db))
      → ((mon : Monitor)
          → found_open w db m ≡ none
          → w.tables.monitors m ≡ some mon
          → P (ok (db.next_id, true), after_open mon))
      → P (open_with fnv w m title secs freeze db)
  unfolding open_with open_or insert_for after_open
  open_with-cases P existed unknown refused inserted = elim (Option-cases (found_open w db m)) [
    | inr (i, e) ↦ rw (e, open_or) (existed i e)
    | inl e ↦ rw (e, open_or) (monitor_row e (w.tables.monitors m) refl)
  ]
    where
      -- with the row, the two queries' faults
      branch :
          (mon : Monitor)
          → found_open w db m ≡ none
          → w.tables.monitors m ≡ some mon
          → (a b : Bool)
          → P (
              if a
              then (err monitor_unknown, db)
              else if b
              then (err insert_failed, db)
              else (ok (db.next_id, true), after_open mon))
      branch mon e k true b = unknown e
      branch mon e k false true = refused e
      branch mon e k false false = inserted mon e k

      monitor_row :
          found_open w db m ≡ none
          → (o : Option Monitor) → w.tables.monitors m ≡ o
          → P (insert_for fnv w m title secs freeze o db)
      monitor_row e none k = unknown e
      monitor_row e (some mon) k = branch mon e k w.faults.monitor w.faults.insert

  pub open_with-inserts :
      (mon : Monitor)
      → found_open w db m ≡ none
      → w.tables.monitors m ≡ some mon
      → w.faults.monitor ≡ false
      → w.faults.insert ≡ false
      → open_with fnv w m title secs freeze db ≡ (ok (db.next_id, true), after_open mon)
  unfolding open_with open_or insert_for after_open
  open_with-inserts mon e k f g =
      let done : Result (ℕ × Bool) × Db = (ok (db.next_id, true), after_open mon) in
      ap (λ o. open_or fnv w m title secs freeze o db) e
      ∙ ap (λ o. insert_for fnv w m title secs freeze o db) k
      ∙ ap
          (λ b.
            if b
            then (err monitor_unknown, db)
            else if w.faults.insert
            then (err insert_failed, db)
            else done)
          f
      ∙ ap (λ b. if b then (err insert_failed, db) else done) g

  pub count-after_open :
      (mon : Monitor) (n : ℕ)
      → count_open n (after_open mon).incidents ≡ one_if (m == n) + count_open n db.incidents
  unfolding after_open count_open open_incident
  count-after_open mon n =
      quiet-count n (after_insert-IsQuiet w mon db.next_id secs freeze _)
      ∙ ap (count_open n) (update-incidents w.faults db.next_id opened (opened_text mon) _)
      ∙ ground arith

  pub found-after_open :
      (mon : Monitor) → id_of (get_open_incident (after_open mon) m) ≡ some db.next_id
  unfolding after_open open_incident get_open_incident find id_of
  found-after_open mon =
      quiet-found m (after_insert-IsQuiet w mon db.next_id secs freeze _)
      ∙ ap (λ is. id_of (find (open_for m) is))
          (update-incidents w.faults db.next_id opened (opened_text mon) _)
      ∙ ground arith

  pub found : w.faults.lookup ≡ false → found_open w db m ≡ get_open_incident db m
  found ok_lookup = rw ok_lookup refl

  pub none-count :
      w.faults.lookup ≡ false → found_open w db m ≡ none → count_open m db.incidents ≡ 0
  unfolding get_open_incident
  none-count ok_lookup e = find-none m db.incidents (sym (found ok_lookup) ∙ e)
