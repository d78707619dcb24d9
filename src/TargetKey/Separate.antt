-- ===== src/TargetKey/Separate.antt =====
-- Different targets have different keys, back/internal/targetkey/targetkey.go.
use upcontrol.Prelude.{
  ℕ, ◌≡◌, refl, ap, sym, ◌∙◌, ◌↔◌, ◌≢◌, false, Option, List, [], ◌∷◌, ◌++◌, map, inl, inr, ◌==◌,
  if◌then◌else◌, Bool-cases, All,
}
use upcontrol.Prelude.Bytes.{Bytes, codes}
use upcontrol.Ingest.Normalize.{lower}
use upcontrol.TargetKey.{Url, sep, stays, clean, join_clean, join, website, heartbeat, key_url}

-- The parts between the separators.
extend : ℕ → List Bytes → List Bytes
extend c [] = (c ∷ []) ∷ []
extend c (p ∷ ps) = (c ∷ p) ∷ ps

pub split : Bytes → List Bytes
unfolding extend
split [] = [] ∷ []
split (c ∷ s) = let rest = split s in if c == sep then [] ∷ rest else extend c rest

-- No byte of the text is the separator.
NoSep : Bytes → Type 0
NoSep s = All (λ c. (c == sep) ≡ false) s

clean-NoSep : (s : Bytes) → NoSep (clean s)
unfolding NoSep clean stays
clean-NoSep [] = tt
clean-NoSep (c ∷ s) = elim (Bool-cases (c == sep)) [
  | inl e ↦ rw e (clean-NoSep s)
  | inr e ↦ elim (Bool-cases (c == 0)) [
    | inl z ↦ rw (e, z) (clean-NoSep s)
    | inr z ↦ rw (e, z) (e, clean-NoSep s)
  ]
]

split-NoSep : (p : Bytes) → NoSep p → split p ≡ p ∷ []
unfolding NoSep split
split-NoSep [] h = refl
split-NoSep (c ∷ p) h = rw (h.0, split-NoSep p h.1)

split-append : (p s : Bytes) → NoSep p → split (p ++ (sep ∷ s)) ≡ p ∷ split s
unfolding NoSep split
split-append [] s h = refl
split-append (c ∷ p) s h = rw (h.0, split-append p s h.1)

-- The parts of a key, without the bytes that may not stand in it, can be read back from the key.
pub split-join : (p : Bytes) (ps : List Bytes) → split (join (p ∷ ps)) ≡ map clean (p ∷ ps)
unfolding join join_clean
split-join p [] = split-NoSep (clean p) (clean-NoSep p)
split-join p (q ∷ ps) =
    split-append (clean p) (join (q ∷ ps)) (clean-NoSep p) ∙ ap (λ t. clean p ∷ t) (split-join q ps)

same_parts :
    (u u' word word' : Bytes)
    → clean u ≡ clean u'
    → clean word ≡ clean word'
    → join (codes "website" ∷ u ∷ word ∷ []) ≡ join (codes "website" ∷ u' ∷ word' ∷ [])
unfolding join
same_parts u u' word word' h k =
    ap (λ t. join_clean (clean (codes "website") ∷ t ∷ clean word ∷ [])) h
    ∙ ap (λ t. join_clean (clean (codes "website") ∷ clean u' ∷ t ∷ [])) k

-- Two checks of websites have the same key exactly when their URLs, normalized where they can be,
-- and their keywords agree, but for the bytes that may not stand in a key, whatever the URL parser and
-- the conversion of host names return; and none of them has the key of a heartbeat.
pub website_unique :
    (parse : Bytes → Option Url) (to_ascii : Bytes → Option Bytes) (raw raw' word word' id : Bytes)
    → ((website parse to_ascii raw word ≡ website parse to_ascii raw' word') ↔ (
        (clean (key_url parse to_ascii raw) ≡ clean (key_url parse to_ascii raw'))
        × (clean word ≡ clean word')))
      × (website parse to_ascii raw word ≢ heartbeat id)
unfolding website heartbeat
website_unique parse to_ascii raw raw' word word' id =
    let u = key_url parse to_ascii raw in
    let u' = key_url parse to_ascii raw' in
    let w = codes "website" in
    (
      (
        λ e.
            let parts =
              sym (split-join w (u ∷ word ∷ [])) ∙ (ap split e ∙ split-join w (u' ∷ word' ∷ [])) in
            (cc, cc),
        λ h. same_parts u u' word word' h.0 h.1,
      ),
      λ e.
          let parts =
            sym (split-join w (u ∷ word ∷ []))
            ∙ (ap split e ∙ split-join (codes "heartbeat") (map lower id ∷ [])) in
          cc,
    )
