-- ===== src/Ingest/Public/Gates.antt =====
-- What a request on a public key has to pass, back/internal/ingest/public.go.
use upcontrol.Prelude.{
  ℕ, ◌≡◌, refl, ◌∙◌, inl, inr, Bool, true, false, ◌&&◌, not, String, Option, List, [], ltb, Dict,
  Bool-cases,
}
use upcontrol.Prelude.Bytes.{Bytes, codes}
use upcontrol.Ingest.Normalize.{bytes_eq}
use upcontrol.Ingest.Public.{
  RateWindow, public_rate_max, Gate, bad_key, bot_dropped, rate_limited, passes, truncate, listed,
  match_origin, allow, address, detected, budget, gate_public,
}
use upcontrol.Ingest.Public.Budget.{Calls, after, asked, Ordered, allow_at_lem}

abbrev pub is_passed : Gate → Bool
is_passed bad_key = false
is_passed (bot_dropped _) = false
is_passed (rate_limited _) = false
is_passed (passes _) = true

-- The origin can be echoed.
abbrev pub is_welcome : Bytes → List Bytes → Bool
is_welcome presented origins =
    not (bytes_eq presented [])
    && (not (bytes_eq presented (codes "null")) && listed presented origins)

empty : bytes_eq [] [] ≡ true
unfolding bytes_eq
empty = refl

matched :
    (presented : Bytes) (origins : List Bytes)
    → bytes_eq (match_origin presented origins) [] ≡ not (is_welcome presented origins)
unfolding match_origin
matched presented origins = elim (Bool-cases (bytes_eq presented [])) [
  | inl e ↦ rw e empty
  | inr e ↦ elim (Bool-cases (bytes_eq presented (codes "null"))) [
    | inl n ↦ rw (e, n) empty
    | inr n ↦ elim (Bool-cases (listed presented origins)) [
      | inl l ↦ rw (e, n, l) e
      | inr l ↦ rw (e, n, l) empty
    ]
  ]
]

budget-passed : (origin : Bytes) (r : Dict RateWindow × Bool) → is_passed (budget origin r).0 ≡ r.1
unfolding budget
budget-passed origin (hits, true) = refl
budget-passed origin (hits, false) = refl

-- A request on a public key passes the gates exactly when its origin is one of the key's, not
-- empty and not "null", its agent is not a bot, and fewer than 120 requests of the key and address
-- came to the limiter before it in the same minute, whatever the other keys did and whenever the
-- map was swept. The windows of the requests so far do not decrease, and none is later than this
-- one's.
pub gate_public-is_passed :
    (is_bot : Option (String → Bool)) (origins : List Bytes) (presented : Bytes)
    (agent key ip : String) (now : ℕ) (calls : Calls)
    → Ordered (truncate now) calls
    → is_passed (gate_public is_bot origins presented agent key ip now (after calls)).0 ≡ (
        is_welcome presented origins
        && (not (detected is_bot agent)
            && ltb (asked (address key ip) (truncate now) calls) public_rate_max))
unfolding gate_public allow
gate_public-is_passed is_bot origins presented agent key ip now calls o =
    rw (matched presented origins) (elim (Bool-cases (is_welcome presented origins)) [
      | inl e ↦ rw e (elim (Bool-cases (detected is_bot agent)) [
        | inl d ↦ rw d refl
        | inr d ↦ rw d (
            budget-passed (match_origin presented origins) _
            ∙ allow_at_lem calls (address key ip) (truncate now) o)
      ])
      | inr e ↦ rw e refl
    ])
