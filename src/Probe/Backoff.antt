-- ===== src/Probe/Backoff.antt =====
-- How long a target that refuses is left alone: backoffFor, back/internal/rpc/probeservice.go.
use upcontrol.Prelude.{ℕ, ◌*◌, ◌^◌, ◌≤◌, ◌≡◌, ◌⊎◌, arith, min, ltb, second, if◌then◌else◌}
use upcontrol.Probe.{refusal_delay, day}

-- The delay is at least what the target asked for, and at most a day unless the target asked for
-- more; below both it is the interval doubled once for every refusal in a row, six times at most.
pub refusal_delay_bounds :
    (refusals interval_sec retry_after_sec : ℕ)
    → let d = refusal_delay refusals interval_sec retry_after_sec in
      (retry_after_sec * second ≤ d)
      × ((d ≤ day) ⊎ (d ≡ retry_after_sec * second))
      × ((d ≡ retry_after_sec * second)
          ⊎ (d ≡ day)
          ⊎ (d ≡ interval_sec * second * 2 ^ min refusals 6))
unfolding refusal_delay
refusal_delay_bounds refusals interval_sec retry_after_sec =
    go (interval_sec * second * 2 ^ min refusals 6) (retry_after_sec * second)
  where
    go :
        (x r : ℕ)
        → let d = if ltb (min x day) r then r else min x day in
          (r ≤ d) × ((d ≤ day) ⊎ (d ≡ r)) × ((d ≡ r) ⊎ (d ≡ day) ⊎ (d ≡ x))
    go x r = ground arith
