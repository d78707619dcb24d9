-- ===== src/Ingest/Decode/Levels.antt =====
-- The levels and the warnings of the records, back/internal/ingest/decode/decode.go.
use upcontrol.Prelude.{
  ℕ, ◌+◌, ◌≤◌, ◌≡◌, refl, ◌∙◌, ap, inl, inr, Bool, true, false, none, some, List, [], ◌∷◌, arith,
  In, All, ltb, if◌then◌else◌, length, map, Bool-cases, Option-cases,
}
use upcontrol.Prelude.Bytes.{Bytes, codes, trim_space, length-take}
use upcontrol.Ingest.Normalize.{lower, bytes_eq}
use upcontrol.Ingest.Decode.Times.{is_zero_time}
use upcontrol.Ingest.Decode.Records.{
  Record, Warnings, canonical, capped, normalize_level, finish, one_of, info_words, warn_words,
  error_words, add_ts_absent,
}

-- The five levels that a record may have.
abbrev pub levels : List Bytes
levels = codes "info" ∷ codes "warn" ∷ codes "error" ∷ codes "debug" ∷ codes "trace" ∷ []

abbrev pub IsLevelled : Record → Type 0
IsLevelled r = In r.level levels × (length r.level_raw ≤ 32)

-- The level is a word that the source does not know.
abbrev pub is_unknown : Record → Bool
is_unknown r = elim (canonical (map lower (trim_space r.level))) [ none ↦ true | some l ↦ false ]

abbrev one_if : Bool → ℕ
one_if b = if b then 1 else 0

unfoldable pub count_if : (Record → Bool) → List Record → ℕ
count_if p [] = 0
count_if p (r ∷ rs) = (if p r then 1 else 0) + count_if p rs

switch-In :
    (a b c d e : Bool) (l : Bytes)
    → (if a
        then some (codes "info")
        else if b
        then some (codes "warn")
        else if c
        then some (codes "error")
        else if d
        then some (codes "debug")
        else if e
        then some (codes "trace")
        else none)
      ≡ some l
    → In l levels
switch-In true b c d e l h = inl cc
switch-In false true c d e l h = inr (inl cc)
switch-In false false true d e l h = inr (inr (inl cc))
switch-In false false false true e l h = inr (inr (inr (inl cc)))
switch-In false false false false true l h = inr (inr (inr (inr (inl cc))))
switch-In false false false false false l h = cc

canonical-In : (t l : Bytes) → canonical t ≡ some l → In l levels
unfolding canonical
canonical-In t l h =
    switch-In (one_of info_words t) (one_of warn_words t) (one_of error_words t)
      (bytes_eq t (codes "debug")) (bytes_eq t (codes "trace")) l h

capped-le : (t : Bytes) → length (capped t) ≤ 32
unfolding capped
capped-le t = elim (Bool-cases (ltb 32 (length t))) [
  | inl e ↦ rw e (omega (arith, length-take 32 t (ground arith)))
  | inr e ↦ rw e (ground arith)
]

-- What normalizeLevel makes of a record and of the warnings.
record Levelled (r : Record) (ws : Warnings) (out : Record × Warnings) : Type 0 where
  levelled : IsLevelled out.0
  same_time : out.0.time ≡ r.time
  unknowns : out.1.level_unknown ≡ ws.level_unknown + (if is_unknown r then 1 else 0)
  absents : out.1.ts_absent ≡ ws.ts_absent
  unparseables : out.1.unparseable ≡ ws.unparseable

normalize_level-Levelled : (r : Record) (ws : Warnings) → Levelled r ws (normalize_level r ws)
unfolding normalize_level
normalize_level-Levelled r ws = elim (Option-cases (canonical (map lower (trim_space r.level)))) [
  | inl e ↦
      rw (e, normalize_level)
        (record {
          levelled = (inl refl, capped-le r.level);
          same_time = refl;
          unknowns = rw (e, is_unknown);
          absents = refl;
          unparseables = refl;
        })
  | inr (l, e) ↦
      rw (e, normalize_level)
        (record {
          levelled = (canonical-In _ l e, capped-le r.level);
          same_time = refl;
          unknowns = rw (e, is_unknown) (omega arith);
          absents = refl;
          unparseables = refl;
        })
]

abbrev pub is_untimed : Record → Bool
is_untimed r = is_zero_time r.time

-- What the loop over the records makes of them and of the warnings.
pub record Finished (rs : List Record) (ws : Warnings) (out : List Record × Warnings) : Type 0 where
  pub levelled : All IsLevelled out.0
  pub length_kept : length out.0 ≡ length rs
  pub unknowns : out.1.level_unknown ≡ ws.level_unknown + count_if is_unknown rs
  pub absents : out.1.ts_absent ≡ ws.ts_absent + count_if is_untimed rs
  pub untimed : count_if is_untimed out.0 ≡ count_if is_untimed rs
  pub unparseables : out.1.unparseable ≡ ws.unparseable

abbrev stamped : Bool → Warnings → Warnings
stamped b ws = if b then add_ts_absent ws else ws

stamped-Stamped :
    (b : Bool) (ws : Warnings)
    → ((stamped b ws).ts_absent ≡ ws.ts_absent + (if b then 1 else 0))
      × ((stamped b ws).level_unknown ≡ ws.level_unknown)
      × ((stamped b ws).unparseable ≡ ws.unparseable)
stamped-Stamped true ws = (refl, refl, refl)
stamped-Stamped false ws = (omega arith, refl, refl)

pub finish-Finished : (rs : List Record) (ws : Warnings) → Finished rs ws (finish rs ws)
unfolding finish count_if
finish-Finished [] ws = record {
  levelled = tt;
  length_kept = refl;
  unknowns = omega arith;
  absents = omega arith;
  untimed = refl;
  unparseables = refl;
}
finish-Finished (r ∷ rs) ws =
    let first = normalize_level-Levelled r ws in
    let (r', ws') = normalize_level r ws in
    let b = is_zero_time r'.time in
    let rest = finish-Finished rs (stamped b ws') in
    let marked = stamped-Stamped b ws' in
    let same : b ≡ is_zero_time r.time = ap is_zero_time first.same_time in
    record {
      levelled = (first.levelled, rest.levelled);
      length_kept = omega (arith, rest.length_kept);
      unknowns = omega (arith, rest.unknowns, marked.1, first.unknowns);
      absents = omega (arith, rest.absents, marked.0, first.absents, ap one_if same);
      untimed = omega (arith, rest.untimed, ap one_if same);
      unparseables = rest.unparseables ∙ (marked.2 ∙ first.unparseables);
    }
