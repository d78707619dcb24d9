-- ===== src/Ingest/Rows/Warned.antt =====
-- The warnings of a batch and the steps that add to them, back/internal/ingest/ingest.go.
use upcontrol.Prelude.{
  ℕ, ◌+◌, ◌==◌, ◌≡◌, refl, ◌∙◌, ap, inl, inr, Bool, true, false, String, str_eq, Option, none, some,
  [], ◌∷◌, arith, length, Dict, get-put, Bool-cases,
}
use upcontrol.Prelude.Bytes.{Bytes}
use upcontrol.Ingest.Fingerprint.{mask, fingerprint}
use upcontrol.Ingest.Fingerprint.Rounds.{mask_from_total}
use upcontrol.Ingest.Scrub.Rebuild.{scrub-Splits}
use upcontrol.Ingest.Decode.Records.{Attrs}
use upcontrol.Ingest.Rows.{or_zero, tally, warn, warn_some, sum_counts, scrub_text, scrub_attrs}

pub tally-warn_other :
    (ws : Dict ℕ) (code k : String) (n : ℕ)
    → str_eq code k ≡ false
    → tally (warn ws code n) k ≡ tally ws k
unfolding warn
tally-warn_other ws code k n e = ap or_zero (get-put ws code k (tally ws code + n)) ∙ rw e refl

pub tally-warn_same :
    (ws : Dict ℕ) (code : String) (n : ℕ)
    → str_eq code code ≡ true
    → tally (warn ws code n) code ≡ tally ws code + n
unfolding warn
tally-warn_same ws code n e = ap or_zero (get-put ws code code (tally ws code + n)) ∙ rw e refl

pub tally-warn_some_other :
    (ws : Dict ℕ) (code k : String) (n : ℕ)
    → str_eq code k ≡ false
    → tally (warn_some ws code n) k ≡ tally ws k
unfolding warn_some
tally-warn_some_other ws code k n e = elim (Bool-cases (n == 0)) [
  | inl z ↦ rw z refl
  | inr z ↦ rw z (tally-warn_other ws code k n e)
]

-- The scan of a text ends, and adds to no code but its own.
pub scrub_text_total :
    (off : Bool) (s : Bytes) (ws : Dict ℕ)
    → (s' : Bytes) × (ws' : Dict ℕ) × (scrub_text off s ws ≡ some (s', ws'))
      × (tally ws' "class_shed" ≡ tally ws "class_shed")
unfolding scrub_text
scrub_text_total true s ws = (s, ws, refl, refl)
scrub_text_total false s ws =
    let (r, _, e, _, _, _) = scrub-Splits s in
    (
      r.cleaned,
      warn_some ws "scrubbed" (sum_counts r.counts),
      (rw (e, scrub_text) refl),
      tally-warn_some_other ws "scrubbed" "class_shed" (sum_counts r.counts) refl,
    )

pub scrub_attrs_total :
    (off : Bool) (m : Attrs) (ws : Dict ℕ)
    → (m' : Attrs) × (ws' : Dict ℕ) × (scrub_attrs off m ws ≡ some (m', ws'))
      × (tally ws' "class_shed" ≡ tally ws "class_shed")
unfolding scrub_attrs
scrub_attrs_total off [] ws = ([], ws, refl, refl)
scrub_attrs_total off ((k, v) ∷ m) ws =
    let (v', ws1, e1, t1) = scrub_text_total off v ws in
    let (m', ws2, e2, t2) = scrub_attrs_total off m ws1 in
    ((k, v') ∷ m', ws2, (rw (e1, e2) refl), t2 ∙ t1)

abbrev digest : (Bytes → ℕ) → Option Bytes → Option ℕ
digest fnv none = none
digest fnv (some t) = some (fnv t)

pub fingerprint_total : (fnv : Bytes → ℕ) (s : Bytes) → (h : ℕ) × (fingerprint fnv s ≡ some h)
unfolding fingerprint mask
fingerprint_total fnv [] = (0, refl)
fingerprint_total fnv (c ∷ s) =
    let (t, e) = mask_from_total (length (c ∷ s)) (c ∷ s) [] (omega arith) in
    (fnv t, ap (digest fnv) e)
