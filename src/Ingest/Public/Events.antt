-- ===== src/Ingest/Public/Events.antt =====
-- The records that a public key may write, onlyEvents of back/internal/ingest/public.go.
use upcontrol.Prelude.{
  ◌+◌, ◌≡◌, refl, inl, inr, false, List, [], ◌∷◌, arith, length, All, Bool-cases,
}
use upcontrol.Ingest.Normalize.{bytes_eq, classify}
use upcontrol.Ingest.Decode.Records.{Record}
use upcontrol.Ingest.Public.{only_events}

-- The record names an event.
abbrev pub IsNamed : Record → Type 0
IsNamed rec = bytes_eq (classify rec.message rec.named).name [] ≡ false

pub length-only_events :
    (recs : List Record) → length (only_events recs).0 + (only_events recs).1 ≡ length recs
unfolding only_events
length-only_events [] = refl
length-only_events (rec ∷ recs) =
    let rest = length-only_events recs in
    elim (Bool-cases (bytes_eq (classify rec.message rec.named).name [])) [
      | inl e ↦ rw e (omega (arith, rest))
      | inr e ↦ rw e (omega (arith, rest))
    ]

pub only_events-All : (recs : List Record) → All IsNamed (only_events recs).0
unfolding only_events
only_events-All [] = tt
only_events-All (rec ∷ recs) =
    elim (Bool-cases (bytes_eq (classify rec.message rec.named).name [])) [
      | inl e ↦ rw e (only_events-All recs)
      | inr e ↦ rw e (e, only_events-All recs)
    ]
