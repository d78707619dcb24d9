-- ===== src/Tests/Scrubbing.antt =====
-- The scrubber at concrete lines.
use upcontrol.Prelude.{String, ◌≡◌, refl, Option, none, some, List, ◌∷◌}
use upcontrol.Prelude.Bytes.{Bytes, codes}
use upcontrol.Ingest.Scrub.Scan.{
  Result, scrub, scrub_from, count, byte_before, match_at, marker, dispatch, first_match, matchers,
}
use upcontrol.Ingest.Scrub.Secrets.{
  pem_matcher, bearer_matcher, prefix_token_fn, github_any_matcher, slack_any_matcher, jwt_matcher,
  conn_str_matcher, cookie_set_matcher, session_eq_matcher,
}
use upcontrol.Ingest.Scrub.Rebuild.{Piece, Splits, redacted, counted, secrets_of, scrub-Splits}
use upcontrol.Ingest.Scrub.Dispatch.{match_at-eq-first_match}
use upcontrol.Ingest.Scrub.Personal.{card_luhn_matcher, email_matcher}

abbrev cleaned_of : Option Result → Option Bytes
cleaned_of none = none
cleaned_of (some r) = some r.cleaned

mail :
    cleaned_of (scrub (codes "to a.b@example.com now")) ≡ some (codes "to [redacted:email:15] now")
unfolding scrub scrub_from byte_before count marker match_at dispatch first_match matchers
    pem_matcher bearer_matcher prefix_token_fn github_any_matcher slack_any_matcher jwt_matcher
    conn_str_matcher cookie_set_matcher session_eq_matcher card_luhn_matcher email_matcher
mail = refl

token_then_mail :
    cleaned_of (scrub (codes "sk_live_0123456789abcdef.foo@example.com"))
    ≡ some (codes "[redacted:stripe:24].foo@example.com")
unfolding scrub scrub_from byte_before count marker match_at dispatch first_match matchers
    pem_matcher bearer_matcher prefix_token_fn github_any_matcher slack_any_matcher jwt_matcher
    conn_str_matcher cookie_set_matcher session_eq_matcher card_luhn_matcher email_matcher
token_then_mail = refl

twice :
    cleaned_of (scrub (codes "[redacted:stripe:24].foo@example.com"))
    ≡ some (codes "[redacted:stripe:24][redacted:email:16]")
unfolding scrub scrub_from byte_before count marker match_at dispatch first_match matchers
    pem_matcher bearer_matcher prefix_token_fn github_any_matcher slack_any_matcher jwt_matcher
    conn_str_matcher cookie_set_matcher session_eq_matcher card_luhn_matcher email_matcher
twice = refl

abbrev line : Bytes
line = codes "AKIA0123456789ABCDEF a.b@example.com"

scrub-Splits_example :
    (r : Result) × (pieces : List Piece) × (scrub line ≡ some r)
    × Splits none line pieces
    × (r.cleaned ≡ redacted pieces)
    × ((k : String) → counted r.counts k ≡ secrets_of k pieces)
scrub-Splits_example = scrub-Splits line

match_at-eq-first_match_example :
    match_at none b'A' (codes "KIA0123456789ABCDEF")
    ≡ first_match matchers none (b'A' ∷ codes "KIA0123456789ABCDEF")
match_at-eq-first_match_example = match_at-eq-first_match none b'A' (codes "KIA0123456789ABCDEF")
