-- ===== src/Ingest/Normalize/Spelling.antt =====
-- Classify of back/internal/ingest/normalize/normalize.go does not depend on how a name is spelled.
use upcontrol.Prelude.{
  ℕ, ◌≡◌, refl, ap, sym, ◌∙◌, Bool, true, false, ◌&&◌, [], ◌∷◌, ◌++◌, map, arith, inl, inr,
  if◌then◌else◌, is_empty, Bool-cases,
}
use upcontrol.Prelude.Bytes.{Bytes, has_prefix}
use upcontrol.Ingest.Normalize.{
  Event, reserved_prefix, is_space, trim_start, trim_end, lower, trim_lower, classify_clean,
  classify,
}

unfoldable pub all_space : Bytes → Bool
all_space [] = true
all_space (c ∷ s) = is_space c && all_space s

lower-is_space : (c : ℕ) → is_space (lower c) ≡ is_space c
unfolding is_space lower
lower-is_space c = ground arith

trim_start-lower : (s : Bytes) → map lower (trim_start s) ≡ trim_start (map lower s)
unfolding trim_start
trim_start-lower [] = refl
trim_start-lower (c ∷ s) = ground (arith, lower-is_space c, trim_start-lower s)

is_empty-map : (s : Bytes) → is_empty (map lower s) ≡ is_empty s
is_empty-map [] = refl
is_empty-map (c ∷ s) = refl

trim_end-lower : (s : Bytes) → map lower (trim_end s) ≡ trim_end (map lower s)
unfolding trim_end
trim_end-lower [] = refl
trim_end-lower (c ∷ s) =
    rw (sym (trim_end-lower s), lower-is_space c, is_empty-map (trim_end s))
      (if-map (is_empty (trim_end s) && is_space c))
  where
    if-map :
        (b : Bool)
        → map lower (if b then [] else c ∷ trim_end s)
          ≡ (if b then [] else lower c ∷ map lower (trim_end s))
    if-map true = refl
    if-map false = refl

trim_start-append : (s t : Bytes) → all_space s ≡ true → trim_start (s ++ t) ≡ trim_start t
unfolding trim_start all_space
trim_start-append [] t h = refl
trim_start-append (c ∷ s) t h = ground (arith, trim_start-append s t)

trim_start_space : (s : Bytes) → all_space s ≡ true → trim_start s ≡ []
unfolding trim_start all_space
trim_start_space [] h = refl
trim_start_space (c ∷ s) h = ground (arith, trim_start_space s)

trim_end_space : (s : Bytes) → all_space s ≡ true → trim_end s ≡ []
unfolding trim_end all_space
trim_end_space [] h = refl
trim_end_space (c ∷ s) h = ground (arith, trim_end_space s)

trim_end-append : (s t : Bytes) → all_space t ≡ true → trim_end (s ++ t) ≡ trim_end s
unfolding trim_end
trim_end-append [] t h = trim_end_space t h
trim_end-append (c ∷ s) t h = ground (arith, trim_end-append s t)

trim-append :
    (s t : Bytes) → all_space t ≡ true → trim_end (trim_start (s ++ t)) ≡ trim_end (trim_start s)
unfolding trim_start
trim-append [] t h = rw (trim_start_space t h)
trim-append (c ∷ s) t h = elim (Bool-cases (is_space c)) [
  | inl e ↦ rw (e, trim_start) (trim-append s t h)
  | inr e ↦ rw (e, trim_start) (trim_end-append (c ∷ s) t h)
]

trim-lower : (s : Bytes) → map lower (trim_end (trim_start s)) ≡ trim_end (trim_start (map lower s))
trim-lower s = trim_end-lower (trim_start s) ∙ ap trim_end (trim_start-lower s)

trim_lower_respelled :
    (before after s t : Bytes)
    → all_space before ≡ true
    → all_space after ≡ true
    → map lower s ≡ map lower t
    → trim_lower (before ++ (s ++ after)) ≡ trim_lower t
unfolding trim_lower
trim_lower_respelled before after s t b a e =
    ap (λ u. map lower (trim_end u)) (trim_start-append before (s ++ after) b)
    ∙ (ap (map lower) (trim-append s after a)
        ∙ (trim-lower s ∙ (ap (λ u. trim_end (trim_start u)) e ∙ sym (trim-lower t))))

-- Spaces around a name and the case of its letters change nothing.
pub classify_respelled :
    (before after s t : Bytes) (named : Bool)
    → all_space before ≡ true
    → all_space after ≡ true
    → map lower s ≡ map lower t
    → classify (before ++ (s ++ after)) named ≡ classify t named
unfolding classify
classify_respelled before after s t named b a e =
    ap (λ n. classify_clean n named) (trim_lower_respelled before after s t b a e)

-- The switch, whatever its tests say.
abbrev IsForeign : Bytes → Event → Type 0
IsForeign n event =
    (has_prefix event.name reserved_prefix ≡ false)
    × (event.reserved ≡ has_prefix n reserved_prefix)

switch-IsForeign :
    (n : Bytes) (r named known : Bool)
    → has_prefix n reserved_prefix ≡ r
    → IsForeign n (
        if r
        then record { name = []; reserved = true }
        else if named
        then record { name = n; reserved = false }
        else if known
        then record { name = n; reserved = false }
        else record { name = []; reserved = false })
unfolding has_prefix
switch-IsForeign n true named known e = (refl, sym e)
switch-IsForeign n false true known e = (e, sym e)
switch-IsForeign n false false true e = (e, sym e)
switch-IsForeign n false false false e = (refl, sym e)

classify_clean-IsForeign : (n : Bytes) (named : Bool) → IsForeign n (classify_clean n named)
unfolding classify_clean
classify_clean-IsForeign n named = switch-IsForeign n (has_prefix n reserved_prefix) named _ refl

-- Whatever a client sends, the name of the event is not in the reserved namespace, and the flag is
-- set for the names that are, in any spelling.
pub classify-IsForeign :
    (name : Bytes) (named : Bool)
    → (has_prefix (classify name named).name reserved_prefix ≡ false)
      × ((classify name named).reserved ≡ has_prefix (trim_lower name) reserved_prefix)
unfolding classify
classify-IsForeign name named = classify_clean-IsForeign (trim_lower name) named
