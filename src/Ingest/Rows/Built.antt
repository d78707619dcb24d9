-- ===== src/Ingest/Rows/Built.antt =====
-- What buildRows makes of a batch, back/internal/ingest/ingest.go.
use upcontrol.Prelude.{
  ℕ, ◌≡◌, refl, ◌∙◌, ap, inl, inr, true, false, String, eq_iff, Option, none, some, List, [], ◌∷◌,
  ℤ, pos, if◌then◌else◌, Dict, Bool-cases,
}
use upcontrol.Prelude.Bytes.{Bytes}
use upcontrol.Ingest.Normalize.{bytes_eq, Event, classify}
use upcontrol.Ingest.Cardinality.{Limiter}
use upcontrol.Ingest.Decode.Records.{Attrs, Record}
use upcontrol.Ingest.Attrs.{cap_attrs, lift_actor, lift_amount}
use upcontrol.Ingest.Attrs.Bounds.{IsCapped, cap_attrs-IsCapped}
use upcontrol.Ingest.Overload.{OverloadDecision, is_shed}
use upcontrol.Ingest.Rows.{
  Tenant, key_kind_public, RowEnvelope, tally, warn_some, paid, lift, Services, cap_labels,
  envelope, prepare,
}
use upcontrol.Ingest.Rows.Warned.{
  tally-warn_some_other, scrub_text_total, scrub_attrs_total, fingerprint_total,
}

-- A row that a key of the tenant may write: a public key writes no money.
abbrev pub IsAllowed : Tenant → RowEnvelope → Type 0
IsAllowed t env = t.kind ≡ key_kind_public → (env.amount_minor ≡ pos 0) × (env.currency ≡ [])

-- What a row has of its record.
pub record IsRowOf (t : Tenant) (rec : Record) (env : RowEnvelope) : Type 0 where
  pub level : env.level ≡ rec.level
  pub event : env.event ≡ (classify rec.message rec.named).name
  pub attrs : IsCapped env.attrs
  pub allowed : IsAllowed t env

paid-public :
    (t : Tenant) (o : Option (ℤ × Bytes)) → t.kind ≡ key_kind_public → paid t o ≡ (pos 0, [])
paid-public t none p = refl
paid-public t (some m) p = rw ((eq_iff t.kind key_kind_public).1 p) refl

lift-amount :
    (t : Tenant) (ev : Event) (attrs : Attrs)
    → t.kind ≡ key_kind_public
    → ((lift t ev attrs).amount ≡ pos 0) × ((lift t ev attrs).currency ≡ [])
unfolding lift
lift-amount t ev attrs p =
    let free = paid-public t (lift_amount (lift_actor attrs).1).0 p in
    elim (Bool-cases (bytes_eq ev.name [])) [
      | inl e ↦ rw e (refl, refl)
      | inr e ↦ rw e (ap (λ (m : ℤ × Bytes). m.0) free, ap (λ (m : ℤ × Bytes). m.1) free)
    ]

cap_labels-IsRowOf :
    (text : Bytes → String) (card : Option Limiter) (t : Tenant) (rec : Record) (env : RowEnvelope)
    (ws : Dict ℕ)
    → IsRowOf t rec env
    → IsRowOf t rec (cap_labels text card env ws).1
      × (tally (cap_labels text card env ws).2 "class_shed" ≡ tally ws "class_shed")
unfolding cap_labels
cap_labels-IsRowOf text none t rec env ws r = (r, refl)
cap_labels-IsRowOf text (some l) t rec env ws r = (
  (record { level = r.level; event = r.event; attrs = r.attrs; allowed = r.allowed }),
  tally-warn_some_other ws "cardinality_capped" "class_shed" _ refl,
)

cap_labels-seq :
    (text : Bytes → String) (card : Option Limiter) (env : RowEnvelope) (ws : Dict ℕ)
    → (cap_labels text card env ws).1.seq ≡ env.seq
unfolding cap_labels
cap_labels-seq text none env ws = refl
cap_labels-seq text (some l) env ws = refl

module _ {S : Type 0} (c : Services S) where
  -- A run of the loop's body.
  pub record Prepared (t : Tenant) (rec : Record) (card : Option Limiter) (ws : Dict ℕ)
      : Type 0 where
    pub result : Option Limiter × RowEnvelope × Dict ℕ
    pub returns : prepare c t rec card ws ≡ some result
    pub is_row : IsRowOf t rec result.1
    pub unnumbered : result.1.seq ≡ 0
    pub unshed : tally result.2 "class_shed" ≡ tally ws "class_shed"

  pub prepare-Prepared :
      (t : Tenant) (rec : Record) (card : Option Limiter) (ws : Dict ℕ) → Prepared t rec card ws
  unfolding prepare envelope
  prepare-Prepared t rec card ws =
      let ev = classify rec.message rec.named in
      let lifted = lift t ev rec.attrs in
      let ws0 = warn_some ws "reserved_prefix" (if ev.reserved then 1 else 0) in
      let (message, ws1, e1, t1) = scrub_text_total c.scrub_off rec.message ws0 in
      let (attrs, ws2, e2, t2) = scrub_attrs_total c.scrub_off lifted.attrs ws1 in
      let (template, e3) = fingerprint_total c.fnv message in
      let capped = cap_attrs attrs in
      let ws3 = warn_some ws2 "attr_key_capped" capped.keys_capped in
      let ws4 = warn_some ws3 "field_cap_exceeded" capped.vals_capped in
      let env = envelope c t rec ev lifted message capped.out template in
      let (is_row, t5) = cap_labels-IsRowOf c.text card t rec env ws4 (record {
        level = refl;
        event = refl;
        attrs = cap_attrs-IsCapped attrs;
        allowed = lift-amount t ev rec.attrs;
      }) in
      record {
        result = cap_labels c.text card env ws4;
        returns = rw (e1, e2, e3) refl;
        is_row = is_row;
        unnumbered = cap_labels-seq c.text card env ws4;
        unshed =
            t5
            ∙ tally-warn_some_other ws3 "field_cap_exceeded" "class_shed" capped.vals_capped refl
            ∙ tally-warn_some_other ws2 "attr_key_capped" "class_shed" capped.keys_capped refl
            ∙ t2
            ∙ t1
            ∙ tally-warn_some_other ws "reserved_prefix" "class_shed" _ refl;
      }

-- The rows that the records of a batch become, in their order: a record of a level that the mask
-- sheds gives none, any other gives one of its own.
pub data AreRowsOf (d : OverloadDecision) (t : Tenant)
    : List Record → List RowEnvelope → Type 0 where
  nil : AreRowsOf d t [] []
  shed :
      {rec : Record} {recs : List Record} {rows : List RowEnvelope}
      → is_shed d rec.level ≡ true
      → AreRowsOf d t recs rows
      → AreRowsOf d t (rec ∷ recs) rows
  kept :
      {rec : Record} {recs : List Record} {env : RowEnvelope} {rows : List RowEnvelope}
      → is_shed d rec.level ≡ false
      → IsRowOf t rec env
      → AreRowsOf d t recs rows
      → AreRowsOf d t (rec ∷ recs) (env ∷ rows)
