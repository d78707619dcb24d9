-- ===== src/Ingest/Overload.antt =====
-- The steps of a filling spool, computeOverload of back/internal/ingest/ingest.go.
use upcontrol.Prelude.{
  ℕ, ◌≡◌, refl, inl, inr, Bool, true, false, Option, none, some, List, [], ◌∷◌, if◌then◌else◌, ℤ,
  pos, leb_ℤ, Bool-cases,
}
use upcontrol.Prelude.Bytes.{Bytes, codes}
use upcontrol.Ingest.Normalize.{bytes_eq}
use upcontrol.Ingest.Decode.Records.{one_of}

-- The fraction to keep, in tenths.
pub record Sampling : Type 0 where
  pub level : Bytes
  pub keep : ℕ

-- `shed` is the levels that the mask drops.
pub record OverloadDecision : Type 0 where
  pub shed : List Bytes
  pub sampling : Option Sampling
  pub reject_all : Bool

abbrev sampled : List Bytes → Bytes → ℕ → OverloadDecision
sampled shed level keep = record {
  shed = shed;
  sampling = some (record { level = level; keep = keep });
  reject_all = false;
}

unfoldable pub compute_overload : ℤ → OverloadDecision
compute_overload fill =
    if leb_ℤ (pos 100) fill
    then record { shed = []; sampling = none; reject_all = true }
    else if leb_ℤ (pos 90) fill
    then sampled (codes "debug" ∷ codes "info" ∷ codes "warn" ∷ []) (codes "warn") 0
    else if leb_ℤ (pos 75) fill
    then sampled (codes "debug" ∷ codes "info" ∷ []) (codes "info") 1
    else if leb_ℤ (pos 60) fill
    then sampled (codes "debug" ∷ []) (codes "debug") 1
    else record { shed = []; sampling = none; reject_all = false }

-- `d.shed[level]`
unfoldable pub is_shed : OverloadDecision → Bytes → Bool
unfolding one_of
is_shed d level = one_of d.shed level

-- Errors are never shed, however full the spool is; only a full one refuses them.
pub is_shed-error : (fill : ℤ) → is_shed (compute_overload fill) (codes "error") ≡ false
unfolding is_shed compute_overload one_of bytes_eq
is_shed-error fill = elim (Bool-cases (leb_ℤ (pos 100) fill)) [
  | inl e ↦ rw e refl
  | inr e ↦ elim (Bool-cases (leb_ℤ (pos 90) fill)) [
    | inl f ↦ rw (e, f) refl
    | inr f ↦ elim (Bool-cases (leb_ℤ (pos 75) fill)) [
      | inl g ↦ rw (e, f, g) refl
      | inr g ↦ elim (Bool-cases (leb_ℤ (pos 60) fill)) [
        | inl h ↦ rw (e, f, g, h) refl
        | inr h ↦ rw (e, f, g, h) refl
      ]
    ]
  ]
]
