-- ===== src/Health.antt =====
-- The cached health checks, back/internal/platform/health/health.go. A probe's run, with its timeout
-- and a panic as failures, is a parameter; maps are lists of their entries.
pub mod Fresh
use upcontrol.Prelude.{
  ℕ, ◌*◌, Bool, true, false, ◌&&◌, String, Option, none, some, List, [], ◌∷◌, ℤ, pos, leb_ℤ,
  positive_or, second, sub, if◌then◌else◌, Dict, get, put,
}

pub data Status : Type 0 where
  ok down : Status

-- `failed` is that the error is not nil.
pub record CacheEntry : Type 0 where
  pub at : ℕ
  pub failed : Bool

-- `none` is a nil probe.
pub record Checker (Check : Type 0) : Type 0 where
  pub ttl : ℕ
  pub checks : Dict (Option Check)
  pub cache : Dict CacheEntry

pub record Result : Type 0 where
  pub status : Status
  pub checks : Dict Status

unfoldable pub status_of : CacheEntry → Status
status_of e = if e.failed then down else ok

-- The entry failed and is not older than `ttl`.
unfoldable pub counts : ℕ → ℕ → CacheEntry → Bool
unfolding sub
counts now ttl e = e.failed && leb_ℤ (sub now e.at) (pos ttl)

-- The loop over the cache.
unfoldable pub render : ℕ → ℕ → Dict CacheEntry → Result
render now ttl [] = record { status = ok; checks = [] }
render now ttl ((name, e) ∷ cache) =
    let rest = render now ttl cache in
    record {
      status = if counts now ttl e then down else rest.status;
      checks = (name, status_of e) ∷ rest.checks;
    }

abbrev pub code_of : Status → ℕ
code_of ok = 200
code_of down = 503

module _ {Check : Type 0} where
  unfoldable pub new : ℤ → Checker Check
  new ttl = record { ttl = positive_or ttl (5 * second); checks = []; cache = [] }

  unfoldable pub register : Checker Check → String → Option Check → Checker Check
  register c name fn = record c { checks = put c.checks name fn }

  -- `failing` is what runOne answers for a probe, and `clock` the time when it has.
  abbrev refresh :
      (Check → Bool) → (String → ℕ) → String → Option Check → Dict CacheEntry → Dict CacheEntry
  refresh failing clock name none cache = cache
  refresh failing clock name (some fn) cache =
      put cache name (record { at = clock name; failed = failing fn })

  unfoldable pub run_checks :
      (Check → Bool) → (String → ℕ) → Dict (Option Check) → Dict CacheEntry → Dict CacheEntry
  run_checks failing clock [] cache = cache
  run_checks failing clock ((name, fn) ∷ checks) cache =
      run_checks failing clock checks (refresh failing clock name fn cache)

  unfoldable pub run : (Check → Bool) → (String → ℕ) → Checker Check → Checker Check
  run failing clock c = record c { cache = run_checks failing clock c.checks c.cache }

  unfoldable pub snapshot : ℕ → Checker Check → Result
  snapshot now c = render now c.ttl c.cache

  -- The status code of the endpoint.
  unfoldable pub handler : ℕ → Checker Check → ℕ
  handler now c = code_of (snapshot now c).status
