-- ===== src/Detect/Availability/History.antt =====
-- The detector against the history of results that it has seen.
use upcontrol.Prelude.{
  ℕ, ◌+◌, ◌≤◌, ◌<◌, ◌≡◌, refl, ◌↔◌, List, [], ◌∷◌, arith, Bool, true, if◌then◌else◌,
}
use upcontrol.Detect.Availability.{
  State, Outcome, pass, fail, unmeasured, nodata, down, is_down, process,
}
use upcontrol.Detect.Availability.Invariant.{IsValid, process-IsValid}

-- The state before the first check, and after a history of results, the latest first.
abbrev pub initial : State
initial = record {
  status = nodata;
  consecutive_failures = 0;
  consecutive_unmeasured = 0;
  last_check_at = 0;
}

abbrev pub after : ℕ → List (Outcome × ℕ) → State
after threshold [] = initial
after threshold ((o, at) ∷ h) = (process threshold (after threshold h) o at).0

-- The failures since the last success; readings that could not be taken do not count.
abbrev pub failing : List (Outcome × ℕ) → ℕ
failing [] = 0
failing ((pass, _) ∷ h) = 0
failing ((fail, _) ∷ h) = failing h + 1
failing ((unmeasured, _) ∷ h) = failing h

abbrev one_if : Bool → ℕ
one_if b = if b then 1 else 0

-- How many incidents the detector asked to open, and to close.
abbrev pub opened : ℕ → List (Outcome × ℕ) → ℕ
opened threshold [] = 0
opened threshold ((o, at) ∷ h) =
    opened threshold h + one_if (process threshold (after threshold h) o at).1.opens

abbrev pub closed : ℕ → List (Outcome × ℕ) → ℕ
closed threshold [] = 0
closed threshold ((o, at) ∷ h) =
    closed threshold h + one_if (process threshold (after threshold h) o at).1.closes

after-IsValid : (k : ℕ) (h : List (Outcome × ℕ)) → 0 < k → IsValid k (after k h)
after-IsValid k [] p = ground arith
after-IsValid k ((o, at) ∷ h) p = process-IsValid k (after k h) o at p (after-IsValid k h p)

failures_step :
    (k : ℕ) (s : State) (o : Outcome) (at n : ℕ) (h : List (Outcome × ℕ))
    → s.consecutive_failures ≡ failing h
    → (process k s o at).0.consecutive_failures ≡ failing ((o, at) ∷ h)
unfolding process
failures_step k s pass at n h e = ground arith
failures_step k s fail at n h e = ground arith
failures_step k s unmeasured at n h e = ground arith

after_failures : (k : ℕ) (h : List (Outcome × ℕ)) → (after k h).consecutive_failures ≡ failing h
after_failures k [] = refl
after_failures k ((o, at) ∷ h) = failures_step k (after k h) o at 0 h (after_failures k h)

down_of_streak :
    (k n : ℕ) (s : State) → IsValid k s → s.consecutive_failures ≡ n → k ≤ n → s.status ≡ down
down_of_streak k n s v e h = ground arith

-- The state is down exactly when at least `threshold` failures have come since the last success,
-- whatever unmeasured readings lie between them.
pub after-down_iff :
    (threshold : ℕ) (h : List (Outcome × ℕ))
    → 0 < threshold
    → ((after threshold h).status ≡ down) ↔ (threshold ≤ failing h)
after-down_iff k h p =
    let v = after-IsValid k h p in
    (
      λ d. omega (arith, v.down_confirmed d, after_failures k h),
      λ le. down_of_streak k (failing h) (after k h) v (after_failures k h) le,
    )

balance_step :
    (k : ℕ) (s : State) (o : Outcome) (at a b : ℕ)
    → a ≡ b + one_if (is_down s.status)
    → a + one_if (process k s o at).1.opens
      ≡ b + one_if (process k s o at).1.closes + one_if (is_down (process k s o at).0.status)
unfolding process
balance_step k s pass at a b e = ground arith
balance_step k s fail at a b e = ground arith
balance_step k s unmeasured at a b e = ground arith

-- Over any history the openings and closings alternate: there is one opening more than closings
-- while the state is down, and as many otherwise.
pub opened-closed :
    (threshold : ℕ) (h : List (Outcome × ℕ))
    → opened threshold h
      ≡ closed threshold h + (if is_down (after threshold h).status then 1 else 0)
opened-closed k [] = refl
opened-closed k ((o, at) ∷ h) =
    balance_step k (after k h) o at (opened k h) (closed k h) (opened-closed k h)

opens_step :
    (k n : ℕ) (s : State) (o : Outcome) (at : ℕ)
    → IsValid k s
    → s.consecutive_failures ≡ n
    → ((process k s o at).1.opens ≡ true) ↔ ((o ≡ fail) × (n + 1 ≡ k))
unfolding process
opens_step k n s pass at v e = ground arith
opens_step k n s fail at v e = ground (arith, v.up_below, v.down_confirmed)
opens_step k n s unmeasured at v e = ground arith

-- A result opens an incident exactly when it is the failure that brings the failures since the
-- last success to the threshold: never before, and never again in the same outage.
pub process-opens_iff :
    (threshold : ℕ) (h : List (Outcome × ℕ)) (o : Outcome) (at : ℕ)
    → 0 < threshold
    → ((process threshold (after threshold h) o at).1.opens ≡ true)
      ↔ ((o ≡ fail) × (failing h + 1 ≡ threshold))
process-opens_iff k h o at p =
    opens_step k (failing h) (after k h) o at (after-IsValid k h p) (after_failures k h)
