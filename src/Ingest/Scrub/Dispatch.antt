-- ===== src/Ingest/Scrub/Dispatch.antt =====
-- The dispatch table and matchAt of back/internal/ingest/scrub/scrub.go.
use upcontrol.Prelude.{
  ℕ, ◌≤◌, ◌<◌, ◌≡◌, refl, sym, ◌∙◌, Option, some, List, [], ◌∷◌, arith, inl, inr, length, All,
  Bool-cases, Option-cases,
}
use upcontrol.Prelude.Bytes.{Bytes}
use upcontrol.Ingest.Scrub.Scan.{Match, Matcher, matchers, row, dispatch, first_match, match_at}
use upcontrol.Ingest.Scrub.Lengths.{IsFair, matchers-All}

abbrev AllFair : List Matcher → Type 0
AllFair ms = All (λ m. IsFair m.fn m.starts) ms

first_match-row :
    (ms : List Matcher) (before : Option ℕ) (c : ℕ) (s : Bytes)
    → AllFair ms
    → first_match (row ms c) before (c ∷ s) ≡ first_match ms before (c ∷ s)
unfolding first_match row
first_match-row [] before c s fair = refl
first_match-row (m ∷ ms) before c s fair = elim (Option-cases (m.fn before (c ∷ s))) [
  | inl f ↦ elim (Bool-cases (m.starts c)) [
    | inl y ↦ rw (y, f) (first_match-row ms before c s fair.1)
    | inr n ↦ rw (n, f) (first_match-row ms before c s fair.1)
  ]
  | inr (e, found) ↦ rw ((fair.0 before c s e found).0, found)
]

-- Looking up the first byte in the table loses nothing and keeps the order: the match at a byte is
-- that of the first of all the matchers that succeeds there.
pub match_at-eq-first_match :
    (before : Option ℕ) (c : ℕ) (s : Bytes)
    → match_at before c s ≡ first_match matchers before (c ∷ s)
unfolding match_at dispatch
match_at-eq-first_match before c s = first_match-row matchers before c s matchers-All

first_match_bounds :
    (ms : List Matcher) (before : Option ℕ) (c : ℕ) (s : Bytes) (m : Match)
    → AllFair ms
    → first_match ms before (c ∷ s) ≡ some m
    → (0 < m.len) × (m.len ≤ length (c ∷ s))
unfolding first_match
first_match_bounds [] before c s m fair h = cc
first_match_bounds (n ∷ ms) before c s m fair h = elim (Option-cases (n.fn before (c ∷ s))) [
  | inl f ↦ first_match_bounds ms before c s m fair.1 (rw (f, first_match) at h)
  | inr (e, found) ↦ let (_, some_byte, within) = fair.0 before c s e found in ground arith
]

-- A match takes one byte at least, so that the scan advances, and ends within the line.
pub match_at_bounds :
    (before : Option ℕ) (c : ℕ) (s : Bytes) (m : Match)
    → match_at before c s ≡ some m
    → (0 < m.len) × (m.len ≤ length (c ∷ s))
match_at_bounds before c s m h =
    first_match_bounds matchers before c s m matchers-All
      (sym (match_at-eq-first_match before c s) ∙ h)
