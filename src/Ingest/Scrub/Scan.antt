-- ===== src/Ingest/Scrub/Scan.antt =====
-- The table of matchers and the scan over a line of back/internal/ingest/scrub/scrub.go.
use upcontrol.Prelude.{
  ℕ, zero, suc, ◌+◌, Bool, ◌||◌, String, Option, none, some, List, [], ◌∷◌, ◌++◌, ◌==◌,
  if◌then◌else◌, Dict, get, put, length,
}
use upcontrol.Prelude.Bytes.{Bytes, codes, drop, get_elem?, itoa}
use upcontrol.Ingest.Scrub.Secrets.{
  is_digit, is_b64, pem_matcher, bearer_matcher, prefix_token_fn, github_any_matcher,
  slack_any_matcher, jwt_matcher, conn_str_matcher, cookie_set_matcher, session_eq_matcher,
}
use upcontrol.Ingest.Scrub.Personal.{card_luhn_matcher, is_email_local, email_matcher}

pub record Result : Type 0 where
  pub cleaned : Bytes
  pub counts : Dict ℕ

-- The match starts where it is found; `len` is end - start.
pub record Match : Type 0 where
  pub kind : String
  pub len : ℕ

pub record Matcher : Type 0 where
  pub name : String
  pub fn : Option ℕ → Bytes → Option ℕ
  pub starts : ℕ → Bool

abbrev pub entry : String → (Option ℕ → Bytes → Option ℕ) → (ℕ → Bool) → Matcher
entry name fn starts = record { name = name; fn = fn; starts = starts }

abbrev pub only : ℕ → ℕ → Bool
only d c = c == d

unfoldable pub matchers : List Matcher
unfolding is_b64 is_digit is_email_local pem_matcher bearer_matcher prefix_token_fn
matchers =
    entry "pem" pem_matcher (only b'-')
    ∷ entry "bearer" bearer_matcher (only b'B')
    ∷ entry "stripe" (prefix_token_fn (codes "sk_live_") 16) (only b's')
    ∷ entry "github" github_any_matcher (only b'g')
    ∷ entry "slack" slack_any_matcher (only b'x')
    ∷ entry "aws" (prefix_token_fn (codes "AKIA") 16) (only b'A')
    ∷ entry "google" (prefix_token_fn (codes "AIza") 32) (only b'A')
    ∷ entry "jwt" jwt_matcher is_b64
    ∷ entry "conn" conn_str_matcher (λ c. c == b'p' || c == b'm' || c == b'r')
    ∷ entry "cookie" cookie_set_matcher (only b'S')
    ∷ entry "session" session_eq_matcher (only b's')
    ∷ entry "card" card_luhn_matcher is_digit
    ∷ entry "email" email_matcher is_email_local
    ∷ []

-- The row of the dispatch table for a first byte, with the matchers in place of their indices.
unfoldable pub row : List Matcher → ℕ → List Matcher
row [] b = []
row (m ∷ ms) b = let rest = row ms b in if m.starts b then m ∷ rest else rest

unfoldable pub dispatch : ℕ → List Matcher
unfolding row matchers
dispatch b = row matchers b

-- The first of the matchers that succeeds.
unfoldable pub first_match : List Matcher → Option ℕ → Bytes → Option Match
first_match [] before s = none
first_match (m ∷ ms) before s = elim (m.fn before s) [
  | none ↦ first_match ms before s
  | some e ↦ some (record { kind = m.name; len = e })
]

-- `c` is s[i], and `s` the bytes after it.
unfoldable pub match_at : Option ℕ → ℕ → Bytes → Option Match
unfolding dispatch first_match
match_at before c s = first_match (dispatch c) before (c ∷ s)

unfoldable pub marker : Match → Bytes
unfolding itoa
marker m = codes "[redacted:" ++ (codes m.kind ++ (b':' ∷ (itoa m.len ++ b']' ∷ [])))

-- `r.Counts[m.kind]++`
unfoldable pub count : Dict ℕ → String → Dict ℕ
unfolding get put
count counts kind = put counts kind (elim (get counts kind) [ none ↦ 1 | some n ↦ n + 1 ])

-- The byte before index `n` of `s`, where `before` stands before `s`.
unfoldable pub byte_before : Option ℕ → Bytes → ℕ → Option ℕ
byte_before before s zero = before
byte_before before s (suc n) = get_elem? s n

-- The loop with the bytes that are left, on fuel: `none` means that the fuel ran out.
unfoldable pub scrub_from : ℕ → Option ℕ → Bytes → Result → Option Result
scrub_from f before [] r = some r
scrub_from zero before (c ∷ s) r = none
scrub_from (suc f) before (c ∷ s) r = elim (match_at before c s) [
  | none ↦ scrub_from f (some c) s (record r { cleaned = r.cleaned ++ c ∷ [] })
  | some m ↦
      scrub_from f (byte_before before (c ∷ s) m.len) (drop m.len (c ∷ s))
        (record r { cleaned = r.cleaned ++ marker m; counts = count r.counts m.kind })
]

-- A line of n bytes takes n rounds at most.
unfoldable pub scrub : Bytes → Option Result
unfolding scrub_from
scrub s = scrub_from (length s) none s (record { cleaned = []; counts = [] })
