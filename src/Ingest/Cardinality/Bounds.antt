-- ===== src/Ingest/Cardinality/Bounds.antt =====
-- The fields over any sequence of calls, back/internal/ingest/cardinality/cardinality.go.
use upcontrol.Prelude.{
  ℕ, ◌+◌, ◌≤◌, ◌≡◌, ◌≢◌, refl, ◌∙◌, sym, subst, ◌⊎◌, inl, inr, String, str_eq, eq_iff, true, false,
  ◌&&◌, List, [], ◌∷◌, arith, length, In, All, IsDistinct, get, get-put, Bool-cases, if◌then◌else◌,
}
use upcontrol.Ingest.Cardinality.{sentinel, FieldTracker, Limiter, contains, tracker, track, add}

-- The values of a field fit the ceiling and are distinct; a full field has used it up.
pub record Fits (ceiling : ℕ) (ft : FieldTracker) : Type 0 where
  pub within : length ft.seen ≤ ceiling
  pub distinct : IsDistinct ft.seen
  pub used_up : ft.full ≡ true → length ft.seen ≡ ceiling

pub record IsValid (l : Limiter) : Type 0 where
  pub at_field : (field : String) → Fits l.ceiling (tracker (get l.fields field))

contains_of_In : (v : String) (ws : List String) → In v ws → contains ws v ≡ true
unfolding contains
contains_of_In v [] m = absurd m
contains_of_In v (w ∷ ws) (inl e) = ground (arith, eq_iff w v)
contains_of_In v (w ∷ ws) (inr m) = ground (arith, contains_of_In v ws m)

In-of_contains : (v : String) (ws : List String) → contains ws v ≡ true → In v ws
unfolding contains
In-of_contains v [] h = cc
In-of_contains v (w ∷ ws) h = elim (Bool-cases (str_eq w v)) [
  | inl e ↦ inl (ground (arith, eq_iff w v))
  | inr e ↦ inr (In-of_contains v ws (ground arith))
]

not-In : (v : String) (ws : List String) → contains ws v ≡ false → ¬ In v ws
not-In v ws h m = cc (contains_of_In v ws m)

track-Fits :
    (ceiling : ℕ) (ft : FieldTracker) (v : String)
    → Fits ceiling ft
    → Fits ceiling (track ceiling ft v).0
unfolding track
track-Fits ceiling ft v h = ground (arith, not-In v ft.seen)

-- A call changes the tracker of its own field only.
tracker-add :
    (l : Limiter) (field v g : String)
    → tracker (get (add l field v).0.fields g) ≡ (
        if str_eq field g
        then (track l.ceiling (tracker (get l.fields field)) v).0
        else tracker (get l.fields g))
unfolding add
tracker-add l field v g =
    rw (get-put l.fields field g (track l.ceiling (tracker (get l.fields field)) v).0)
      (elim (Bool-cases (str_eq field g)) [ inl e ↦ rw e | inr e ↦ rw e ])

ceiling-add : (l : Limiter) (field v : String) → (add l field v).0.ceiling ≡ l.ceiling
unfolding add
ceiling-add l field v = refl

-- Every call, on any field, keeps every field within the ceiling.
pub add-IsValid : (l : Limiter) (field v : String) → IsValid l → IsValid (add l field v).0
add-IsValid l field v h = record {
  at_field = λ g.
      rw (ceiling-add, tracker-add)
        (elim (Bool-cases (str_eq field g)) [
          | inl e ↦ rw e (track-Fits l.ceiling _ v (h.at_field field))
          | inr e ↦ rw e (h.at_field g)
        ]);
}

-- The calls in order, each a field and a value, with what they return.
abbrev pub after : Limiter → List (String × String) → Limiter
after l [] = l
after l ((f, v) ∷ calls) = after (add l f v).0 calls

-- What the calls on `field` stored, and how many of them warned.
abbrev pub stored : String → Limiter → List (String × String) → List String
stored field l [] = []
stored field l ((f, v) ∷ calls) =
    let rest = stored field (add l f v).0 calls in
    if str_eq f field then (add l f v).1 ∷ rest else rest

abbrev pub warnings : String → Limiter → List (String × String) → ℕ
warnings field l [] = 0
warnings field l ((f, v) ∷ calls) =
    (if str_eq f field && (add l f v).2 then 1 else 0) + warnings field (add l f v).0 calls

abbrev pub seen_of : Limiter → String → List String
seen_of l field = (tracker (get l.fields field)).seen

after-IsValid : (l : Limiter) (calls : List (String × String)) → IsValid l → IsValid (after l calls)
after-IsValid l [] h = h
after-IsValid l ((f, v) ∷ calls) h = after-IsValid (add l f v).0 calls (add-IsValid l f v h)

track-keeps : (c : ℕ) (ft : FieldTracker) (v w : String) → In w ft.seen → In w (track c ft v).0.seen
unfolding track
track-keeps c ft v w m = ground arith

add-keeps :
    (l : Limiter) (f v field w : String)
    → In w (seen_of l field)
    → In w (seen_of (add l f v).0 field)
add-keeps l f v field w m =
    subst (λ (t : FieldTracker). In w t.seen) (sym (tracker-add l f v field))
      (elim (Bool-cases (str_eq f field)) [
        | inl e ↦ rw e (
            track-keeps l.ceiling (tracker (get l.fields f)) v w
              (subst (λ (k : String). In w (seen_of l k)) (sym ((eq_iff f field).0 e)) m))
        | inr e ↦ rw e m
      ])

after-keeps :
    (l : Limiter) (calls : List (String × String)) (field w : String)
    → In w (seen_of l field)
    → In w (seen_of (after l calls) field)
after-keeps l [] field w m = m
after-keeps l ((f, v) ∷ calls) field w m =
    after-keeps (add l f v).0 calls field w (add-keeps l f v field w m)

track_listed :
    (c : ℕ) (ft : FieldTracker) (v : String)
    → ((track c ft v).1 ≡ sentinel) ⊎ In (track c ft v).1 (track c ft v).0.seen
unfolding track
track_listed c ft v = elim (Bool-cases (contains ft.seen v)) [
  | inl e ↦ rw e (inr (In-of_contains v ft.seen e))
  | inr e ↦ ground arith
]

-- A value is the sentinel, or among the values of the field in the end.
abbrev pub IsListed : Limiter → List (String × String) → String → String → Type 0
IsListed l calls field x = (x ≡ sentinel) ⊎ In x (seen_of (after l calls) field)

add_listed :
    (l : Limiter) (f v : String)
    → ((add l f v).1 ≡ sentinel) ⊎ In (add l f v).1 (seen_of (add l f v).0 f)
unfolding add
add_listed l f v =
    let ft = tracker (get l.fields f) in
    subst
      (λ (t : FieldTracker).
        ((track l.ceiling ft v).1 ≡ sentinel) ⊎ In (track l.ceiling ft v).1 t.seen)
      (sym (tracker-add l f v f)) (rw ((eq_iff f f).1 refl) (track_listed l.ceiling ft v))

head-IsListed :
    (l : Limiter) (f v field : String) (calls : List (String × String))
    → str_eq f field ≡ true
    → IsListed (add l f v).0 calls field (add l f v).1
head-IsListed l f v field calls e = elim (add_listed l f v) [
  | inl s ↦ inl s
  | inr m ↦ inr (
      after-keeps (add l f v).0 calls field (add l f v).1 (
        subst (λ (k : String). In (add l f v).1 (seen_of (add l f v).0 k)) ((eq_iff f field).0 e)
          m))
]

ceiling-after : (l : Limiter) (calls : List (String × String)) → (after l calls).ceiling ≡ l.ceiling
ceiling-after l [] = refl
ceiling-after l ((f, v) ∷ calls) = ceiling-after (add l f v).0 calls ∙ ceiling-add l f v

stored-IsListed :
    (field : String) (l : Limiter) (calls : List (String × String))
    → All (IsListed l calls field) (stored field l calls)
stored-IsListed field l [] = tt
stored-IsListed field l ((f, v) ∷ calls) =
    let rest = stored-IsListed field (add l f v).0 calls in
    elim (Bool-cases (str_eq f field)) [
      | inl e ↦ rw e (head-IsListed l f v field calls e, rest)
      | inr e ↦ rw e rest
    ]

-- From a valid limiter, over any calls on any fields, what was stored for a field is the sentinel or
-- one of at most `ceiling` distinct values.
pub stored_bounded :
    (field : String) (l : Limiter) (calls : List (String × String))
    → IsValid l
    → let values = seen_of (after l calls) field in
      (length values ≤ l.ceiling)
      × IsDistinct values
      × All (IsListed l calls field) (stored field l calls)
stored_bounded field l calls h =
    let fits = (after-IsValid l calls h).at_field field in
    (
      omega (arith, fits.within, ceiling-after l calls),
      fits.distinct,
      stored-IsListed field l calls,
    )

track-warns :
    (c : ℕ) (ft : FieldTracker) (v : String)
    → (if (track c ft v).2 then 1 else 0) + (if (track c ft v).0.full then 0 else 1)
      ≤ (if ft.full then 0 else 1)
unfolding track
track-warns c ft v = ground arith

may_warn : FieldTracker → ℕ
may_warn ft = if ft.full then 0 else 1

add-warns :
    (field : String) (l : Limiter) (f v : String)
    → (if str_eq f field && (add l f v).2 then 1 else 0)
        + may_warn (tracker (get (add l f v).0.fields field))
      ≤ may_warn (tracker (get l.fields field))
unfolding add may_warn
add-warns field l f v = ground (
  arith,
  tracker-add l f v field,
  eq_iff f field,
  track-warns l.ceiling (tracker (get l.fields f)) v,
)

warnings-le :
    (field : String) (l : Limiter) (calls : List (String × String))
    → warnings field l calls ≤ may_warn (tracker (get l.fields field))
warnings-le field l [] = omega arith
warnings-le field l ((f, v) ∷ calls) =
    omega (arith, add-warns field l f v, warnings-le field (add l f v).0 calls)

-- A field warns once at most, over any calls on any fields.
pub warnings-le-one :
    (field : String) (l : Limiter) (calls : List (String × String)) → warnings field l calls ≤ 1
unfolding may_warn
warnings-le-one field l calls = ground (arith, warnings-le field l calls)

known_passes :
    (c : ℕ) (ft : FieldTracker) (v : String)
    → In v ft.seen
    → ((track c ft v).1 ≡ v) × ((track c ft v).2 ≡ false)
unfolding track
known_passes c ft v m = ground (arith, contains_of_In v ft.seen m)

-- A value that was stored under its own name is stored so for ever, with no warning, whatever comes
-- in between on any field.
pub add_known :
    (l : Limiter) (f v : String) (calls : List (String × String))
    → v ≢ sentinel
    → (add l f v).1 ≡ v
    → let (_, store, warned) = add (after (add l f v).0 calls) f v in (store ≡ v) × (warned ≡ false)
add_known l f v calls real e = elim (add_listed l f v) [
  | inl s ↦ absurd (real (sym e ∙ s))
  | inr m ↦
      let l' = after (add l f v).0 calls in
      unfold add in
      known_passes l'.ceiling (tracker (get l'.fields f)) v (
        after-keeps (add l f v).0 calls f v
          (subst (λ (w : String). In w (seen_of (add l f v).0 f)) e m))
]
