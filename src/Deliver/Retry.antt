-- ===== src/Deliver/Retry.antt =====
-- Outcomes and retries of a delivery, back/internal/deliver/deliver.go.
use upcontrol.Prelude.{
  ℕ, zero, suc, ◌+◌, ◌*◌, ◌/◌, ◌^◌, ◌≤◌, ◌<◌, ◌≡◌, ◌≢◌, ◌↔◌, ◌⊎◌, Bool, true, false, ◌||◌, arith, ℤ,
  pos, negsuc, leb_ℤ, leb, ◌==◌, second, if◌then◌else◌,
}

abbrev pub max_attempts : ℕ
max_attempts = 5

-- `attempt`, with negative ones as 0 and those past 4 as 4.
abbrev capped : ℤ → ℕ
capped (pos n) = if leb 5 n then 4 else n
capped (negsuc _) = 0

-- The delay in nanoseconds. `rand n` is rand.Int64N(n): a number below `n`.
unfoldable pub backoff : (ℕ → ℕ) → ℤ → ℕ
backoff rand attempt = let base = 2 ^ capped attempt * second in base + rand (base / 2)

pub data SendOutcome : Type 0 where
  ok retryable fatal : SendOutcome

unfoldable pub classify_error : ℕ → SendOutcome
classify_error status_code =
    if status_code == 0
    then retryable
    else if status_code == 429
    then retryable
    else if leb 500 status_code
    then retryable
    else if status_code == 403
    then fatal
    else if leb 400 status_code
    then fatal
    else ok

abbrev is_fatal : SendOutcome → Bool
is_fatal fatal = true
is_fatal _ = false

abbrev is_ok : SendOutcome → Bool
is_ok ok = true
is_ok _ = false

-- 0 is the zero time: no further attempt.
unfoldable pub next_try_at : (ℕ → ℕ) → ℤ → SendOutcome → ℕ → ℕ
unfolding backoff
next_try_at rand attempt outcome now =
    if is_fatal outcome || leb_ℤ (pos max_attempts) attempt
    then 0
    else if is_ok outcome
    then 0
    else now + backoff rand attempt

-- A status asks for another attempt exactly when there was none, on 429 and from 500 up; it is
-- final exactly on the other codes from 400 up, and delivered on the rest.
pub classify_error_iff :
    (code : ℕ)
    → ((classify_error code ≡ retryable) ↔ ((code ≡ 0) ⊎ (code ≡ 429) ⊎ (500 ≤ code)))
      × ((classify_error code ≡ fatal) ↔ ((400 ≤ code) × (code < 500) × (code ≢ 429)))
      × ((classify_error code ≡ ok) ↔ ((0 < code) × (code < 400)))
unfolding classify_error
classify_error_iff code = (
  (λ h. ground arith, λ h. ground arith),
  (λ h. ground arith, λ h. ground arith),
  (λ h. ground arith, λ h. ground arith),
)

pow_pos : (n : ℕ) → n < 5 → 1 ≤ 2 ^ n
pow_pos zero h = omega arith
pow_pos (suc zero) h = omega arith
pow_pos (suc (suc zero)) h = omega arith
pow_pos (suc (suc (suc zero))) h = omega arith
pow_pos (suc (suc (suc (suc zero)))) h = omega arith
pow_pos (suc (suc (suc (suc (suc n))))) h = absurd (omega arith)

backoff_bounds :
    (rand : ℕ → ℕ) (n : ℕ)
    → ((k : ℕ) → 0 < k → rand k < k)
    → n < 5
    → (2 ^ n * second ≤ backoff rand (pos n)) × (2 * backoff rand (pos n) < 3 * (2 ^ n * second))
unfolding backoff
backoff_bounds rand n below h =
    let p = pow_pos n h in ground (arith, below (2 ^ n * second / 2) (omega arith))

-- A retry of the n-th attempt, n between 1 and 4, waits at least 2^n seconds and less than half as
-- much again, whatever the random jitter.
pub next_try_at_bounds :
    (rand : ℕ → ℕ) (n now : ℕ)
    → ((k : ℕ) → 0 < k → rand k < k)
    → 1 ≤ n
    → n < max_attempts
    → let t = next_try_at rand (pos n) retryable now in
      (now + 2 ^ n * second ≤ t) × (2 * t < 2 * now + 3 * (2 ^ n * second))
next_try_at_bounds rand n now below low high =
    let b = backoff_bounds rand n below high in unfold next_try_at in ground arith

-- No further attempt is set exactly when the outcome is not retriable or the attempts are used up.
pub next_try_at-eq-zero_iff :
    (rand : ℕ → ℕ) (attempt : ℤ) (o : SendOutcome) (now : ℕ)
    → 0 < now
    → (next_try_at rand attempt o now ≡ 0)
      ↔ ((o ≢ retryable) ⊎ (leb_ℤ (pos max_attempts) attempt ≡ true))
unfolding next_try_at
next_try_at-eq-zero_iff rand attempt ok now h = ground arith
next_try_at-eq-zero_iff rand attempt retryable now h = ground arith
next_try_at-eq-zero_iff rand attempt fatal now h = ground arith
