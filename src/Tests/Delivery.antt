-- ===== src/Tests/Delivery.antt =====
-- Retries and the breaker at concrete inputs.
use upcontrol.Prelude.{ℕ, ◌+◌, ◌≤◌, ◌≡◌, ◌↔◌, List, [], ◌∷◌, true, some, arith}
use upcontrol.Deliver.Breaker.{
  Event, success, failure, is_open, after, streak_start, breaker_timeout, after-is_open_iff,
}

abbrev no_jitter : ℕ → ℕ
no_jitter n = 0

abbrev too_many : ℕ
too_many = 429

abbrev events : List Event
events = failure 300000000020 ∷ failure 20 ∷ success ∷ failure 10 ∷ []

after-is_open_iff_example :
    (is_open (after events) 300000000020 ≡ true)
    ↔ ((t : ℕ) × (streak_start events ≡ some t) × (t + breaker_timeout ≤ 300000000020))
after-is_open_iff_example = after-is_open_iff events 300000000020 (omega arith)
