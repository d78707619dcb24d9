-- ===== src/Incident/Lifecycle/Refinement.antt =====
-- The incident lifecycle of back/internal/incident/incident.go keeps its promise.
use upcontrol.Prelude.{
  ℕ, ◌+◌, ◌≤◌, ◌≡◌, sym, ◌∙◌, ap, subst, inl, inr, String, Bool, true, false, ◌&&◌, ◌||◌, not,
  Option, none, some, List, [], ◌∷◌, arith, ℤ, ◌==◌, Bool-cases, Option-cases, if◌then◌else◌, All,
}
use upcontrol.Incident.Store.{Incident, Db, Monitor, CloseReason}
use upcontrol.Incident.Lifecycle.{
  World, Result, LifecycleError, close_failed, open_with, close, close_found, found_open, open_or,
}
use upcontrol.Incident.Lifecycle.Single.{count_open, one_if}
use upcontrol.Incident.Lifecycle.Branches.{
  m_is_n, open_with-cases, open_with-inserts, count-after_open, none-count, after_open,
}
use upcontrol.Incident.Lifecycle.Closing.{close-IsEnded, close_found-failed, found-count}
use upcontrol.Incident.Lifecycle.Promise.{
  Call, open_call, close_call, Answer, opened, open_answer, close_answer, perform, perform_all,
  MayFail, Promised, puts_in, takes_out, leaves, AllPromised, end, then_rest, Shows, Answers,
}

-- What a call did, seen through the set.
abbrev Kept : (ℕ → Bool) → Call → Answer × Db → Type 0
Kept down c r = (next : ℕ → Bool) × Promised down c r.0 next × Shows r.1 next

module _ (down : ℕ → Bool) (db : Db) (shows : Shows db down) where
  holds : (m : ℕ) → 1 ≤ count_open m db.incidents → down m ≡ true
  unfolding Shows
  holds m h = elim (Bool-cases (down m)) [
    | inl e ↦ e
    | inr e ↦ absurd (omega (arith, shows m, ap one_if e))
  ]

  out : (m : ℕ) → count_open m db.incidents ≡ 0 → down m ≡ false
  unfolding Shows
  out m h = elim (Bool-cases (down m)) [
    | inl e ↦ absurd (omega (arith, shows m, ap one_if e))
    | inr e ↦ e
  ]

  in_already : (m n : ℕ) → down m ≡ true → down n ≡ (m == n || down n)
  in_already m n known = elim (Bool-cases (m == n)) [
    | inl e ↦ rw (e, sym (m_is_n m n e)) known
    | inr e ↦ rw e
  ]

  joined :
      (m n : ℕ) → down m ≡ false → one_if (m == n) + one_if (down n) ≡ one_if (m == n || down n)
  joined m n fresh = elim (Bool-cases (m == n)) [
    | inl e ↦ rw (e, sym (m_is_n m n e), fresh) (omega arith)
    | inr e ↦ rw e (omega arith)
  ]

  without : ℕ → ℕ → Bool
  without m n = not (m == n) && down n

  removed : (m n : ℕ) → (if m == n then 0 else count_open n db.incidents) ≡ one_if (without m n)
  unfolding Shows without
  removed m n = elim (Bool-cases (m == n)) [ inl e ↦ rw e | inr e ↦ rw e (shows n) ]

  absent : (m n : ℕ) → down m ≡ false → down n ≡ without m n
  unfolding without
  absent m n gone = elim (Bool-cases (m == n)) [
    | inl e ↦ rw (e, sym (m_is_n m n e)) gone
    | inr e ↦ rw e
  ]

  close_none :
      (w : World) (m : ℕ) (reason : CloseReason)
      → found_open w db m ≡ none
      → close w m reason db ≡ (none, db)
  unfolding close close_found
  close_none w m reason e = ap (λ o. close_found w m reason o db) e

  close_refused :
      (w : World) (m : ℕ) (reason : CloseReason) (i : Incident)
      → found_open w db m ≡ some i
      → w.faults.close ≡ true
      → close w m reason db ≡ (some close_failed, db)
  unfolding close
  close_refused w m reason i e f =
      ap (λ o. close_found w m reason o db) e ∙ close_found-failed w m reason db i f

  module _ (fnv : ℕ → ℤ) (w : World) (m secs : ℕ) (title : String) (freeze : Bool) where
    Done : Answer × Db → Type 0
    Done r = Kept down (open_call w m secs title freeze) r

    open_existing : (i : Incident) → found_open w db m ≡ some i → Done (opened false, db)
    unfolding Done Shows
    open_existing i e =
        let known : down m ≡ true = holds m (found-count w m db i e) in
        (
          λ n. m == n || down n,
          puts_in w m secs title freeze false (rw known),
          λ n. shows n ∙ ap one_if (in_already m n known),
        )

    open_new :
        (mon : Monitor)
        → w.faults.lookup ≡ false
        → found_open w db m ≡ none
        → Done (opened true, after_open fnv w m secs title freeze db mon)
    unfolding Done Shows
    open_new mon l e =
        let fresh : down m ≡ false = out m (none-count fnv w m secs title freeze db l e) in
        (
          λ n. m == n || down n,
          puts_in w m secs title freeze true (rw fresh),
          λ n.
              count-after_open fnv w m secs title freeze db mon n
              ∙ (ap (λ k. one_if (m == n) + k) (shows n) ∙ joined m n fresh),
        )

    open_faulty :
        w.faults.lookup ≡ false
        → MayFail (open_call w m secs title freeze)
        → Done (perform fnv (open_call w m secs title freeze) db)
    unfolding perform Done
    open_faulty l may =
        open_with-cases fnv w m secs title freeze db (λ r. Done (open_answer r.0, r.1))
          open_existing (λ e. (down, leaves (open_call w m secs title freeze) may, shows))
          (λ e. (down, leaves (open_call w m secs title freeze) may, shows))
          (λ mon e k. open_new mon l e)

    open_sound :
        (mon : Monitor)
        → w.faults.lookup ≡ false
        → w.tables.monitors m ≡ some mon
        → w.faults.monitor ≡ false
        → w.faults.insert ≡ false
        → Done (perform fnv (open_call w m secs title freeze) db)
    unfolding perform open_with open_or
    open_sound mon l k f g = elim (Option-cases (found_open w db m)) [
      | inl e ↦
          subst (λ (r : Result (ℕ × Bool) × Db). Done (open_answer r.0, r.1))
            (sym (open_with-inserts fnv w m secs title freeze db mon e k f g)) (open_new mon l e)
      | inr (i, e) ↦
          subst (λ (r : Result (ℕ × Bool) × Db). Done (open_answer r.0, r.1))
            (sym (ap (λ o. open_or fnv w m title secs freeze o db) e)) (open_existing i e)
    ]

    perform_open : w.faults.lookup ≡ false → Done (perform fnv (open_call w m secs title freeze) db)
    perform_open l = elim (Option-cases (w.tables.monitors m)) [
      | inl k ↦ open_faulty l (inl k)
      | inr (mon, k) ↦ elim (Bool-cases w.faults.monitor) [
        | inl f ↦ open_faulty l (inr (inl f))
        | inr f ↦ elim (Bool-cases w.faults.insert) [
          | inl g ↦ open_faulty l (inr (inr g))
          | inr g ↦ open_sound mon l k f g
        ]
      ]
    ]

  perform_close :
      (fnv : ℕ → ℤ) (w : World) (m : ℕ) (reason : CloseReason)
      → w.faults.lookup ≡ false
      → Kept down (close_call w m reason) (perform fnv (close_call w m reason) db)
  unfolding perform Shows without
  perform_close fnv w m reason l = elim (Bool-cases w.faults.close) [
    | inr f ↦
        let (done, counts) = close-IsEnded w m reason db l f in
        (
          without m,
          subst (λ o. Promised down (close_call w m reason) (close_answer o) (without m)) (sym done)
              (takes_out w m reason),
          λ n. counts n ∙ removed m n,
        )
    | inl f ↦ elim (Option-cases (found_open w db m)) [
      | inl e ↦
          let idle = close_none w m reason e in
          let gone : down m ≡ false = out m (none-count fnv w m 0 "" false db l e) in
          (
            without m,
            subst
                (λ (r : Option LifecycleError × Db).
                  Promised down (close_call w m reason) (close_answer r.0) (without m))
                (sym idle) (takes_out w m reason),
            λ n.
                subst
                  (λ (r : Option LifecycleError × Db).
                    count_open n r.1.incidents ≡ one_if (without m n))
                  (sym idle) (shows n ∙ ap one_if (absent m n gone)),
          )
      | inr (i, e) ↦
          let refused = close_refused w m reason i e f in
          (
            down,
            subst
                (λ (r : Option LifecycleError × Db).
                  Promised down (close_call w m reason) (close_answer r.0) down)
                (sym refused) (leaves (close_call w m reason) f),
            λ n.
                subst
                  (λ (r : Option LifecycleError × Db). count_open n r.1.incidents ≡ one_if (down n))
                  (sym refused) (shows n),
          )
    ]
  ]

  perform-Kept : (fnv : ℕ → ℤ) (c : Call) → Answers c → Kept down c (perform fnv c db)
  unfolding Done
  perform-Kept fnv (open_call w m secs title freeze) l = perform_open fnv w m secs title freeze l
  perform-Kept fnv (close_call w m reason) l = perform_close fnv w m reason l

-- Every history of opens and closes, whichever of their other queries fail, does to the rows what it
-- does to the set of monitors that are down: an `open` that answers puts its monitor in, and says
-- that the incident is new exactly if the monitor was out; a `close` that answers takes it out; a call
-- that fails leaves the set. At each point a monitor in the set has one open incident, and one outside
-- has none.
pub perform_all-Refines :
    (fnv : ℕ → ℤ) (cs : List Call) (down : ℕ → Bool) (db : Db)
    → Shows db down
    → All Answers cs
    → (last : ℕ → Bool) × AllPromised down cs (perform_all fnv cs db).0 last
      × Shows (perform_all fnv cs db).1 last
unfolding perform_all
perform_all-Refines fnv [] down db shows l = (down, end, shows)
perform_all-Refines fnv (c ∷ cs) down db shows l =
    let (mid, kept, shown) = perform-Kept down db shows fnv c l.0 in
    let (last, rest, at_end) = perform_all-Refines fnv cs mid (perform fnv c db).1 shown l.1 in
    (last, then_rest mid kept rest, at_end)
