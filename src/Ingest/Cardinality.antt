-- ===== src/Ingest/Cardinality.antt =====
-- The cap on distinct values of a field, back/internal/ingest/cardinality/cardinality.go.
pub mod Bounds
use upcontrol.Prelude.{
  ℕ, String, Bool, true, false, ◌||◌, List, [], ◌∷◌, Option, none, some, ℤ, leb, length, str_eq,
  positive_or, Dict, get, put, if◌then◌else◌,
}

abbrev pub sentinel : String
sentinel = "__over__"

abbrev pub default_ceiling : ℕ
default_ceiling = 1000

-- `seen` is the key set of the Go map.
pub record FieldTracker : Type 0 where
  pub seen : List String
  pub full : Bool

pub record Limiter : Type 0 where
  pub ceiling : ℕ
  pub fields : Dict FieldTracker

unfoldable pub new : ℤ → Limiter
new ceiling = record { ceiling = positive_or ceiling default_ceiling; fields = [] }

unfoldable pub contains : List String → String → Bool
contains [] v = false
contains (w ∷ ws) v = str_eq w v || contains ws v

abbrev pub tracker : Option FieldTracker → FieldTracker
tracker none = record { seen = []; full = false }
tracker (some ft) = ft

-- One field's part of `Add`: the tracker, what to store, and the warning.
unfoldable pub track : ℕ → FieldTracker → String → FieldTracker × String × Bool
track ceiling ft value =
    if contains ft.seen value
    then (ft, value, false)
    else if ft.full
    then (ft, sentinel, false)
    else if leb ceiling (length ft.seen)
    then (record ft { full = true }, sentinel, true)
    else (record ft { seen = value ∷ ft.seen }, value, false)

unfoldable pub add : Limiter → String → String → Limiter × String × Bool
add l field value =
    let (ft, store, warned) = track l.ceiling (tracker (get l.fields field)) value in
    (record l { fields = put l.fields field ft }, store, warned)
