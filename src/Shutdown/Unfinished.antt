-- ===== src/Shutdown/Unfinished.antt =====
-- Which tasks the error names, back/internal/platform/shutdown/shutdown.go.
use upcontrol.Prelude.{
  ◌≡◌, refl, sym, ◌∙◌, ap, inl, inr, String, str_eq, eq_iff, Bool, true, false, ◌||◌, List, [], ◌∷◌,
  none, some, arith, is_empty, In, IsDistinct, Bool-cases, if◌then◌else◌,
}
use upcontrol.Shutdown.{Reports, drain, finished, unfinished, shut_down}

abbrev pub names_of : Reports → List String
names_of [] = []
names_of ((name, reported) ∷ rs) = name ∷ names_of rs

-- The tasks that have not reported.
abbrev pub late : Reports → List String
late [] = []
late ((name, true) ∷ rs) = late rs
late ((name, false) ∷ rs) = name ∷ late rs

finished-In : (ks : List String) (name : String) → finished ks name ≡ true → In name ks
unfolding finished
finished-In [] name h = ground (arith, h)
finished-In (k ∷ ks) name h = elim (Bool-cases (str_eq k name)) [
  | inl e ↦ inl (sym ((eq_iff k name).0 e))
  | inr e ↦ inr (finished-In ks name (ground (arith, h, e)))
]

In-drain : (rs : Reports) (name : String) → In name (drain rs) → In name (names_of rs)
unfolding drain
In-drain [] name h = h
In-drain ((k, true) ∷ rs) name (inl e) = inl e
In-drain ((k, true) ∷ rs) name (inr h) = inr (In-drain rs name h)
In-drain ((k, false) ∷ rs) name h = inr (In-drain rs name h)

-- A further name that no task of the rest has changes nothing.
unfinished-extra :
    (k : String) (ks : List String) (rs : Reports)
    → ¬ In k (names_of rs)
    → unfinished (k ∷ ks) rs ≡ unfinished ks rs
unfolding unfinished finished
unfinished-extra k ks [] away = refl
unfinished-extra k ks ((name, b) ∷ rs) away = elim (Bool-cases (str_eq k name)) [
  | inl e ↦ absurd (away (inl ((eq_iff k name).0 e)))
  | inr e ↦ rw e (
      ap (λ rest. if finished ks name then rest else name ∷ rest)
        (unfinished-extra k ks rs (λ h. away (inr h))))
]

unfinished-late : (rs : Reports) → IsDistinct (names_of rs) → unfinished (drain rs) rs ≡ late rs
unfolding unfinished drain finished
unfinished-late [] d = refl
unfinished-late ((k, true) ∷ rs) (alone, d) =
    ap
      (λ (b : Bool).
        if b || finished (drain rs) k
        then unfinished (k ∷ drain rs) rs
        else k ∷ unfinished (k ∷ drain rs) rs)
      ((eq_iff k k).1 refl)
    ∙ unfinished-extra k (drain rs) rs alone
    ∙ unfinished-late rs d
unfinished-late ((k, false) ∷ rs) (alone, d) = elim (Bool-cases (finished (drain rs) k)) [
  | inl e ↦ absurd (alone (In-drain rs k (finished-In (drain rs) k e)))
  | inr e ↦ rw e (ap (λ rest. k ∷ rest) (unfinished-late rs d))
]

-- With a name of its own for every task, the error names exactly the tasks that have not reported,
-- in the order of registration, and there is no error where all have.
pub shut_down-late :
    (rs : Reports)
    → IsDistinct (names_of rs)
    → shut_down rs ≡ (if is_empty (late rs) then none else some (late rs))
unfolding shut_down
shut_down-late rs d = ap (λ ns. if is_empty ns then none else some ns) (unfinished-late rs d)
