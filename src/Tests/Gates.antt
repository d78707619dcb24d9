-- ===== src/Tests/Gates.antt =====
-- A public key's gates at concrete requests.
use upcontrol.Prelude.{◌≡◌, ◌∷◌, [], refl, true, false, some, none, arith, Dict, get, put}
use upcontrol.Prelude.Bytes.{Bytes, codes}
use upcontrol.Ingest.Normalize.{bytes_eq}
use upcontrol.Ingest.Public.{
  RateWindow, rate_limited, truncate, listed, match_origin, allow_at, allow, address, stamp,
  current, detected, budget, gate_public,
}
use upcontrol.Ingest.Public.Budget.{Calls, after, asked}
use upcontrol.Ingest.Public.Gates.{is_passed, gate_public-is_passed}

abbrev site : Bytes
site = codes "https://a.example"

abbrev two_requests : Calls
two_requests = (address "k" "10.0.0.1", 60000000000) ∷ (address "k" "10.0.0.2", 60000000000) ∷ []

gate_public-is_passed_example :
    is_passed
      (gate_public
        (some (λ a. false))
        (site ∷ [])
        site
        "Mozilla"
        "k"
        "10.0.0.1"
        61000000000
        (after two_requests)).0
    ≡ true
unfolding bytes_eq listed detected asked truncate
gate_public-is_passed_example =
    gate_public-is_passed (some (λ a. false)) (site ∷ []) site "Mozilla" "k" "10.0.0.1" 61000000000
      two_requests (omega arith, (omega arith, tt))

abbrev spent : Dict RateWindow
spent = (address "k" "10.0.0.1", record { window = 60000000000; count = 120 }) ∷ []

spent_refused :
    gate_public none (site ∷ []) site "Mozilla" "k" "10.0.0.1" 61000000000 spent
    ≡ (rate_limited site, spent)
unfolding gate_public match_origin bytes_eq listed detected budget allow allow_at truncate stamp
    current get put
spent_refused = refl
