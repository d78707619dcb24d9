-- ===== src/Incident/Lifecycle/Promise.antt =====
-- What the incident lifecycle of back/internal/incident/incident.go promises: a set of the monitors
-- that are down.
use upcontrol.Prelude.{
  ℕ, ◌≡◌, ◌⊎◌, String, Bool, true, false, ◌&&◌, ◌||◌, not, Option, none, some, List, [], ◌∷◌, ℤ,
  ◌==◌,
}
use upcontrol.Incident.Store.{Db, CloseReason}
use upcontrol.Incident.Lifecycle.{World, Result, ok, err, LifecycleError, open_with, close}
use upcontrol.Incident.Lifecycle.Single.{count_open, one_if}

-- A call, with what the tables hold and which queries fail while it runs.
pub data Call : Type 0 where
  open_call : World → ℕ → ℕ → String → Bool → Call
  close_call : World → ℕ → CloseReason → Call

-- What the caller learns; `opened` says whether the incident is new.
pub data Answer : Type 0 where
  opened : Bool → Answer
  closed failed : Answer

abbrev pub open_answer : Result (ℕ × Bool) → Answer
open_answer (ok (id, created)) = opened created
open_answer (err e) = failed

abbrev pub close_answer : Option LifecycleError → Answer
close_answer none = closed
close_answer (some e) = failed

module _ (fnv : ℕ → ℤ) where
  unfoldable pub perform : Call → Db → Answer × Db
  perform (open_call w m secs title freeze) db =
      let r = open_with fnv w m title secs freeze db in (open_answer r.0, r.1)
  perform (close_call w m reason) db = let r = close w m reason db in (close_answer r.0, r.1)

  unfoldable pub perform_all : List Call → Db → List Answer × Db
  perform_all [] db = ([], db)
  perform_all (c ∷ cs) db =
      let (answer, after) = perform c db in
      let (answers, last) = perform_all cs after in (answer ∷ answers, last)

-- The monitor of an `open` is unknown, or its query or the insert fails; the update of a `close` fails.
abbrev pub MayFail : Call → Type 0
MayFail (open_call w m _ _ _) =
    (w.tables.monitors m ≡ none) ⊎ ((w.faults.monitor ≡ true) ⊎ (w.faults.insert ≡ true))
MayFail (close_call w _ _) = w.faults.close ≡ true

-- The promise: a set of monitors that are down. An `open` that answers puts the monitor in and tells
-- whether it was out, a `close` that answers takes it out, and a call that fails,
-- as it may if one of its queries does, leaves the set.
pub data Promised (down : ℕ → Bool) : Call → Answer → (ℕ → Bool) → Type 0 where
  puts_in :
      (w : World) (m secs : ℕ) (title : String) (freeze created : Bool)
      → created ≡ not (down m)
      → Promised down (open_call w m secs title freeze) (opened created) (λ n. m == n || down n)
  takes_out :
      (w : World) (m : ℕ) (reason : CloseReason)
      → Promised down (close_call w m reason) closed (λ n. not (m == n) && down n)
  leaves : (c : Call) → MayFail c → Promised down c failed down

pub data AllPromised : (ℕ → Bool) → List Call → List Answer → (ℕ → Bool) → Type 0 where
  end : {down : ℕ → Bool} → AllPromised down [] [] down
  then_rest :
      {down : ℕ → Bool} {c : Call} {cs : List Call} {a : Answer} {as' : List Answer}
      (mid : ℕ → Bool) {last : ℕ → Bool}
      → Promised down c a mid
      → AllPromised mid cs as' last
      → AllPromised down (c ∷ cs) (a ∷ as') last

-- The rows show the set: one open incident for a monitor that is in, none for one that is out.
unfoldable pub Shows : Db → (ℕ → Bool) → Type 0
Shows db down = (n : ℕ) → count_open n db.incidents ≡ one_if (down n)

abbrev pub world_of : Call → World
world_of (open_call w _ _ _ _) = w
world_of (close_call w _ _) = w

-- The lookup of the open incident answers.
abbrev pub Answers : Call → Type 0
Answers c = (world_of c).faults.lookup ≡ false
