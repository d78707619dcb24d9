-- ===== src/Detect/Availability/Invariant.antt =====
-- What holds of a detector state between two results.
use upcontrol.Prelude.{ℕ, ◌≤◌, ◌<◌, ◌≡◌, ◌⊎◌, arith, false}
use upcontrol.Detect.Availability.{
  State, Outcome, unset, nodata, ok, check, down, could_not_measure, unmeasured, is_down,
  no_transition, unmeasured_threshold, process,
}

-- The state agrees with its two streaks, for a detector with this threshold.
pub record IsValid (threshold : ℕ) (s : State) : Type 0 where
  pub down_confirmed : s.status ≡ down → threshold ≤ s.consecutive_failures
  pub up_below : is_down s.status ≡ false → s.consecutive_failures < threshold
  pub check_failing : s.status ≡ check → 0 < s.consecutive_failures
  pub clean_unfailed :
      (s.status ≡ ok) ⊎ (s.status ≡ nodata) ⊎ (s.status ≡ unset) → s.consecutive_failures ≡ 0
  pub blind_unmeasured :
      s.status ≡ could_not_measure → unmeasured_threshold ≤ s.consecutive_unmeasured
  pub measured_seen :
      unmeasured_threshold ≤ s.consecutive_unmeasured
      → (s.status ≡ could_not_measure) ⊎ (s.status ≡ down)

-- Every result, in every valid state, leaves a valid state: `down` is held exactly while the
-- failures have reached the threshold, and a long unmeasured streak is always admitted.
pub process-IsValid :
    (threshold : ℕ) (s : State) (o : Outcome) (at : ℕ)
    → 0 < threshold
    → IsValid threshold s
    → IsValid threshold (process threshold s o at).0
unfolding process
process-IsValid threshold s Outcome.pass at pos v = ground arith
process-IsValid threshold s Outcome.fail at pos v = ground arith
process-IsValid threshold s Outcome.unmeasured at pos v = ground arith

-- A reading that could not be taken opens nothing, closes nothing, leaves the failure streak as it
-- was, and changes neither `down` nor the fact of not being down.
pub process-unmeasured_inert :
    (threshold : ℕ) (s : State) (at : ℕ)
    → let (s', t) = process threshold s unmeasured at in
      (t ≡ no_transition)
      × (s'.consecutive_failures ≡ s.consecutive_failures)
      × (is_down s'.status ≡ is_down s.status)
unfolding process
process-unmeasured_inert threshold s at = ground arith
