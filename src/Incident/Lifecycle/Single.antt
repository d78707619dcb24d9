-- ===== src/Incident/Lifecycle/Single.antt =====
-- How many incidents of a monitor are open, through the operations of
-- back/internal/incident/incident.go.
use upcontrol.Prelude.{
  ℕ, ◌+◌, ◌≤◌, ◌≡◌, ◌≢◌, refl, sym, ◌∙◌, ap, subst, inl, inr, Bool, true, false, ◌&&◌, not, List,
  [], ◌∷◌, map, Option, none, some, arith, ◌==◌, is_some, Bool-cases, if◌then◌else◌,
}
use mathlib.Core.Option.{map as map_option}
use upcontrol.Incident.Store.{
  Incident, CloseReason, Db, open_for, is_monitor, find, update_where, resolve_with,
  get_open_incident,
}
use upcontrol.Incident.Lifecycle.Quiet.{core, IsQuiet}

abbrev pub one_if : Bool → ℕ
one_if b = if b then 1 else 0

-- How many rows of the monitor are not resolved.
unfoldable pub count_open : ℕ → List Incident → ℕ
count_open m [] = 0
count_open m (i ∷ is) = one_if (open_for m i) + count_open m is

-- One open incident of each monitor at most.
abbrev pub IsSingle : Db → Type 0
IsSingle db = (m : ℕ) → count_open m db.incidents ≤ 1

count-core : (m : ℕ) (is : List Incident) → count_open m (map core is) ≡ count_open m is
unfolding count_open
count-core m [] = refl
count-core m (i ∷ is) = ap (λ n. one_if (open_for m i) + n) (count-core m is)

find-core :
    (m : ℕ) (is : List Incident)
    → find (open_for m) (map core is) ≡ map_option core (find (open_for m) is)
unfolding find
find-core m [] = refl
find-core m (i ∷ is) = elim (Bool-cases (open_for m i)) [
  | inl e ↦ rw e refl
  | inr e ↦ rw e (find-core m is)
]

pub quiet-count :
    (m : ℕ) {a b : Db} → IsQuiet a b → count_open m b.incidents ≡ count_open m a.incidents
quiet-count m q = sym (count-core m _) ∙ ap (count_open m) q.incidents ∙ count-core m _

-- The same ids are open.
unfoldable pub id_of : Option Incident → Option ℕ
id_of none = none
id_of (some i) = some i.id

id_of-core : (o : Option Incident) → id_of (map_option core o) ≡ id_of o
unfolding id_of
id_of-core none = refl
id_of-core (some i) = refl

pub quiet-found :
    (m : ℕ) {a b : Db} → IsQuiet a b → id_of (get_open_incident b m) ≡ id_of (get_open_incident a m)
unfolding get_open_incident
quiet-found m {a} {b} q =
    sym (id_of-core (find (open_for m) b.incidents))
    ∙ ap id_of (sym (find-core m b.incidents))
    ∙ ap (λ is. id_of (find (open_for m) is)) q.incidents
    ∙ ap id_of (find-core m a.incidents)
    ∙ id_of-core (find (open_for m) a.incidents)

pub find-none : (m : ℕ) (is : List Incident) → find (open_for m) is ≡ none → count_open m is ≡ 0
unfolding find count_open
find-none m [] e = refl
find-none m (i ∷ is) e = elim (Bool-cases (open_for m i)) [
  | inl t ↦ ground (arith, subst (λ b. (if b then some i else find (open_for m) is) ≡ none) t e)
  | inr t ↦
      let e' = subst (λ b. (if b then some i else find (open_for m) is) ≡ none) t e in
      rw t (ground (arith, find-none m is e'))
]

pub find-some :
    (m : ℕ) (is : List Incident) → is_some (find (open_for m) is) ≡ true → 1 ≤ count_open m is
unfolding find count_open
find-some m [] e = ground (arith, e)
find-some m (i ∷ is) e = elim (Bool-cases (open_for m i)) [
  | inl t ↦ rw t (omega arith)
  | inr t ↦
      let e' = subst (λ b. is_some (if b then some i else find (open_for m) is) ≡ true) t e in
      rw t (ground (arith, find-some m is e'))
]

-- Closing resolves every open row of the monitor,
resolved_shut :
    (m : ℕ) (reason : CloseReason) (i : Incident) → open_for m (resolve_with reason i) ≡ false
resolved_shut m reason i = elim (Bool-cases (is_monitor m i)) [
  | inl k ↦ rw k refl
  | inr k ↦ rw k refl
]

pub count-resolve :
    (m : ℕ) (reason : CloseReason) (is : List Incident)
    → count_open m (update_where (open_for m) (resolve_with reason) is) ≡ 0
unfolding update_where count_open
count-resolve m reason [] = refl
count-resolve m reason (i ∷ is) = elim (Bool-cases (open_for m i)) [
  | inl t ↦ ground (arith, t, resolved_shut m reason i, count-resolve m reason is)
  | inr t ↦ ground (arith, t, count-resolve m reason is)
]

-- and of another monitor's rows nothing changes.
monitor_differs : (m n : ℕ) (i : Incident) → (m ≢ n) → open_for m i ≡ true → is_monitor n i ≡ false
monitor_differs m n i ne e = go i.monitor_id e
  where
    go :
        (o : Option ℕ)
        → (elim o [ none ↦ false | some k ↦ k == m ] && not i.resolved) ≡ true
        → elim o [ none ↦ false | some k ↦ k == n ] ≡ false
    go none e = refl
    go (some k) e = ground (arith, ne, e)

pub count-other :
    (m n : ℕ) (reason : CloseReason) (is : List Incident)
    → (m ≢ n)
    → count_open n (update_where (open_for m) (resolve_with reason) is) ≡ count_open n is
unfolding update_where count_open
count-other m n reason [] ne = refl
count-other m n reason (i ∷ is) ne = elim (Bool-cases (open_for m i)) [
  | inl t ↦ rw t (rw (monitor_differs m n i ne t) (ground (arith, count-other m n reason is ne)))
  | inr t ↦ rw t (ap (λ k. one_if (open_for n i) + k) (count-other m n reason is ne))
]
