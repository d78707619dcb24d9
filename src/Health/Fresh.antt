-- ===== src/Health/Fresh.antt =====
-- What the endpoint answers after a run of the probes, back/internal/platform/health/health.go.
use upcontrol.Prelude.{
  ℕ, ◌+◌, ◌≤◌, ◌<◌, ◌≡◌, refl, sym, ◌∙◌, ap, subst, ◌⊎◌, inl, inr, Bool, true, false, ◌||◌, String,
  str_eq, eq_iff, Option, none, some, [], ◌∷◌, arith, max_duration, sub_le, if◌then◌else◌, Dict,
  put, keys, In-keys-put, In, IsDistinct, Bool-cases,
}
use upcontrol.Health.{
  ok, down, CacheEntry, Checker, counts, render, refresh, run_checks, run, snapshot, handler,
  code_of,
}

any_counts : ℕ → ℕ → Dict CacheEntry → Bool
any_counts now ttl [] = false
any_counts now ttl ((_, e) ∷ cache) =
    let rest = any_counts now ttl cache in counts now ttl e || rest

render-status :
    (now ttl : ℕ) (cache : Dict CacheEntry)
    → (render now ttl cache).status ≡ (if any_counts now ttl cache then down else ok)
unfolding render any_counts
render-status now ttl [] = refl
render-status now ttl ((name, e) ∷ cache) = elim (Bool-cases (counts now ttl e)) [
  | inl q ↦ rw q refl
  | inr q ↦ rw q (render-status now ttl cache)
]

any_counts-put :
    (now ttl : ℕ) (cache : Dict CacheEntry) (name : String) (e : CacheEntry)
    → ¬ In name (keys cache)
    → any_counts now ttl (put cache name e) ≡ (any_counts now ttl cache || counts now ttl e)
unfolding any_counts put
any_counts-put now ttl [] name e n = elim (Bool-cases (counts now ttl e)) [
  | inl q ↦ rw q refl
  | inr q ↦ rw q refl
]
any_counts-put now ttl ((j, f) ∷ cache) name e n = elim (Bool-cases (str_eq j name)) [
  | inl q ↦ absurd (n (inl (sym ((eq_iff j name).0 q))))
  | inr q ↦ rw q (elim (Bool-cases (counts now ttl f)) [
    | inl p ↦ rw p refl
    | inr p ↦ rw p (any_counts-put now ttl cache name e (λ i. n (inr i)))
  ])
]

code-if : (b : Bool) → code_of (if b then down else ok) ≡ (if b then 503 else 200)
code-if true = refl
code-if false = refl

or_assoc : (a b c : Bool) → ((a || b) || c) ≡ (a || (b || c))
or_assoc true b c = refl
or_assoc false b c = refl

counts-fresh :
    (now ttl at : ℕ) (failed : Bool)
    → ttl < max_duration
    → now ≤ at + ttl
    → counts now ttl (record { at = at; failed = failed }) ≡ failed
unfolding counts
counts-fresh now ttl at true small l = sub_le now at ttl small ∙ ground arith
counts-fresh now ttl at false small l = refl

module _ {Check : Type 0} (failing : Check → Bool) (clock : String → ℕ) where
  abbrev fails : Option Check → Bool
  fails none = false
  fails (some fn) = failing fn

  abbrev pub any_fails : Dict (Option Check) → Bool
  any_fails [] = false
  any_fails ((_, fn) ∷ checks) = let rest = any_fails checks in fails fn || rest

  any_counts-refresh :
      (now ttl : ℕ) (name : String) (fn : Option Check) (cache : Dict CacheEntry)
      → ttl < max_duration
      → now ≤ clock name + ttl
      → ¬ In name (keys cache)
      → any_counts now ttl (refresh failing clock name fn cache)
        ≡ (any_counts now ttl cache || fails fn)
  any_counts-refresh now ttl name none cache small l n =
      elim (Bool-cases (any_counts now ttl cache)) [ inl q ↦ rw q refl | inr q ↦ rw q refl ]
  any_counts-refresh now ttl name (some fn) cache small l n =
      any_counts-put now ttl cache name _ n
      ∙ ap (λ (b : Bool). any_counts now ttl cache || b)
          (counts-fresh now ttl (clock name) (failing fn) small l)

  In-keys-refresh :
      (name : String) (fn : Option Check) (cache : Dict CacheEntry) (k : String)
      → In k (keys (refresh failing clock name fn cache))
      → (k ≡ name) ⊎ In k (keys cache)
  In-keys-refresh name none cache k i = inr i
  In-keys-refresh name (some fn) cache k i = In-keys-put cache name k _ i

  any_counts-run_checks :
      (now ttl : ℕ) (checks : Dict (Option Check)) (cache : Dict CacheEntry)
      → ttl < max_duration
      → IsDistinct (keys checks)
      → ((k : String) → In k (keys checks) → now ≤ clock k + ttl)
      → ((k : String) → In k (keys checks) → ¬ In k (keys cache))
      → any_counts now ttl (run_checks failing clock checks cache)
        ≡ (any_counts now ttl cache || any_fails checks)
  unfolding run_checks
  any_counts-run_checks now ttl [] cache small d fresh apart =
      elim (Bool-cases (any_counts now ttl cache)) [ inl q ↦ rw q refl | inr q ↦ rw q refl ]
  any_counts-run_checks now ttl ((name, fn) ∷ checks) cache small d fresh apart =
      let next = refresh failing clock name fn cache in
      any_counts-run_checks now ttl checks next small d.1 (λ k i. fresh k (inr i))
        (λ k i j. elim (In-keys-refresh name fn cache k j) [
          | inl e ↦ d.0 (subst (λ (x : String). In x (keys checks)) e i)
          | inr j' ↦ apart k (inr i) j'
        ])
      ∙ ap (λ (b : Bool). b || any_fails checks)
          (any_counts-refresh now ttl name fn cache small (fresh name (inl refl))
            (apart name (inl refl)))
      ∙ or_assoc (any_counts now ttl cache) (fails fn) (any_fails checks)

  -- After the first run of the probes the endpoint answers 503 while any of them failed and 200
  -- otherwise, up to a time when each of them has run at most `ttl` ago. The probes have
  -- different names, nothing was cached, and `ttl` is below the longest duration.
  pub handler-run :
      (c : Checker Check) (now : ℕ)
      → c.cache ≡ []
      → c.ttl < max_duration
      → IsDistinct (keys c.checks)
      → ((k : String) → In k (keys c.checks) → now ≤ clock k + c.ttl)
      → handler now (run failing clock c) ≡ (if any_fails c.checks then 503 else 200)
  unfolding handler snapshot run any_counts
  handler-run c now empty small d fresh =
      let refreshed =
        any_counts-run_checks now c.ttl c.checks c.cache small d fresh
          (λ k i j. subst (λ (m : Dict CacheEntry). In k (keys m)) empty j) in
      let seen =
        refreshed
        ∙ ap (λ (m : Dict CacheEntry). any_counts now c.ttl m || any_fails c.checks) empty in
      ap code_of (render-status now c.ttl (run_checks failing clock c.checks c.cache))
      ∙ ap (λ (b : Bool). code_of (if b then down else ok)) seen
      ∙ code-if (any_fails c.checks)
