-- ===== src/Tests/Messages.antt =====
-- Fingerprints and names of events at concrete messages.
use upcontrol.Prelude.{inl, inr, arith, ℕ, ◌≡◌, refl, true, some, [], ◌++◌, length}
use upcontrol.Prelude.Bytes.{codes, take, drop, span, has_prefix}
use upcontrol.Ingest.Fingerprint.{
  mask, mask_from, round, quote_round, hex_round, is_hex, is_quote, stands, in_quotes, is_id,
  fingerprint,
}
use upcontrol.Ingest.Fingerprint.Ids.{IsId}
use upcontrol.Ingest.Fingerprint.Ids.{fingerprint_shared}
use upcontrol.Ingest.Normalize.{
  classify, classify_clean, trim_lower, trim_end, trim_start, is_space, lower,
}

masked : mask (codes "user 42 not 'here' at 0xdeadbeef") ≡ some (codes "user # not '?' at #x#")
unfolding mask mask_from round is_quote is_hex hex_round drop span quote_round stands in_quotes
    is_id take
masked = refl

id_42 : IsId (codes "42")
id_42 = record { hex = ground arith; varies = inr (b'4', inl refl, omega arith, omega arith) }

id_7 : IsId (codes "7")
id_7 = record { hex = ground arith; varies = inr (b'7', inl refl, omega arith, omega arith) }

fingerprint_shared_example :
    (h : ℕ) × (fingerprint (λ t. length t) (codes "user " ++ (codes "42" ++ codes " not found"))
      ≡ some h)
    × (fingerprint (λ t. length t) (codes "user " ++ (codes "7" ++ codes " not found")) ≡ some h)
fingerprint_shared_example =
    fingerprint_shared (λ t. length t) (codes "user ") (codes "42") (codes "7") (codes " not found")
      id_42 id_7 (λ h. ground arith) (λ h. ground arith)

deploy_claimed : classify (codes "  UC.deploy") true ≡ record { name = []; reserved = true }
unfolding classify classify_clean has_prefix trim_lower trim_end trim_start is_space lower
deploy_claimed = refl
