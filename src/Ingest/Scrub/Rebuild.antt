-- ===== src/Ingest/Scrub/Rebuild.antt =====
-- What Scrub of back/internal/ingest/scrub/scrub.go does to a whole line.
use upcontrol.Prelude.{
  ℕ, zero, suc, ◌+◌, ◌≤◌, ◌≡◌, refl, sym, ◌∙◌, String, str_eq, Option, none, some, List, [], ◌∷◌,
  ◌++◌, arith, inl, inr, length, Option-cases, if◌then◌else◌, Dict, get, get-put, eq_iff,
}
use mathlib.Core.List.{append-nil, append_assoc}
use upcontrol.Prelude.Bytes.{Bytes, take, drop, length-take, length-drop}
use upcontrol.Ingest.Scrub.Scan.{
  Result, Match, match_at, marker, count, byte_before, scrub_from, scrub,
}
use upcontrol.Ingest.Scrub.Dispatch.{match_at_bounds}

-- A piece of a line: a byte that stays, or a secret with its kind.
pub data Piece : Type 0 where
  kept : ℕ → Piece
  secret : String → Bytes → Piece

-- The pieces of the line that follows a byte: a secret stands where the matchers find one, and a
-- byte is kept where none of them does.
pub data Splits : Option ℕ → Bytes → List Piece → Type 0 where
  done : {before : Option ℕ} → Splits before [] []
  keep :
      {before : Option ℕ} {c : ℕ} {s : Bytes} {pieces : List Piece}
      → match_at before c s ≡ none
      → Splits (some c) s pieces
      → Splits before (c ∷ s) (kept c ∷ pieces)
  cut :
      {before : Option ℕ} {c : ℕ} {s : Bytes} {pieces : List Piece} (m : Match)
      → match_at before c s ≡ some m
      → Splits (byte_before before (c ∷ s) m.len) (drop m.len (c ∷ s)) pieces
      → Splits before (c ∷ s) (secret m.kind (take m.len (c ∷ s)) ∷ pieces)

-- The line before the scrubbing, and after.
unfoldable pub original : List Piece → Bytes
original [] = []
original (kept c ∷ pieces) = c ∷ original pieces
original (secret k t ∷ pieces) = t ++ original pieces

unfoldable pub redacted : List Piece → Bytes
redacted [] = []
redacted (kept c ∷ pieces) = c ∷ redacted pieces
redacted (secret k t ∷ pieces) = marker (record { kind = k; len = length t }) ++ redacted pieces

unfoldable pub secrets_of : String → List Piece → ℕ
secrets_of k [] = 0
secrets_of k (kept c ∷ pieces) = secrets_of k pieces
secrets_of k (secret j t ∷ pieces) = (if str_eq j k then 1 else 0) + secrets_of k pieces

-- `r.Counts[k]`, with Go's zero for a missing key.
abbrev pub counted : Dict ℕ → String → ℕ
counted counts k = elim (get counts k) [ none ↦ 0 | some n ↦ n ]

counted-count :
    (counts : Dict ℕ) (j k : String)
    → counted (count counts j) k ≡ counted counts k + (if str_eq j k then 1 else 0)
unfolding count
counted-count counts j k = elim (Option-cases (get counts j)) [
  | inl f ↦ ground (arith, get-put counts j k 1, eq_iff j k, f)
  | inr (n, found) ↦ ground (arith, get-put counts j k (n + 1), eq_iff j k, found)
]

-- What is known of a run of the loop that starts with the result `r`.
record Ends (before : Option ℕ) (s : Bytes) (r : Result) (out : Option Result) : Type 0 where
  result : Result
  pieces : List Piece
  returned : out ≡ some result
  splits : Splits before s pieces
  cleaned : result.cleaned ≡ r.cleaned ++ redacted pieces
  counts : (k : String) → counted result.counts k ≡ counted r.counts k + secrets_of k pieces

Ends-keep :
    {before : Option ℕ} {c : ℕ} {s : Bytes} {r : Result} {out : Option Result}
    → match_at before c s ≡ none
    → Ends (some c) s (record r { cleaned = r.cleaned ++ c ∷ [] }) out
    → Ends before (c ∷ s) r out
unfolding redacted secrets_of
Ends-keep {c} {r} e run = record {
  result = run.result;
  pieces = kept c ∷ run.pieces;
  returned = run.returned;
  splits = keep e run.splits;
  cleaned = run.cleaned ∙ append_assoc r.cleaned (c ∷ []) (redacted run.pieces);
  counts = run.counts;
}

Ends-cut :
    {before : Option ℕ} {c : ℕ} {s : Bytes} {r : Result} {out : Option Result} (m : Match)
    → match_at before c s ≡ some m
    → Ends
        (byte_before before (c ∷ s) m.len)
        (drop m.len (c ∷ s))
        (record r { cleaned = r.cleaned ++ marker m; counts = count r.counts m.kind })
        out
    → Ends before (c ∷ s) r out
unfolding redacted secrets_of
Ends-cut {before} {c} {s} {r} m e run = record {
  result = run.result;
  pieces = secret m.kind (take m.len (c ∷ s)) ∷ run.pieces;
  returned = run.returned;
  splits = cut m e run.splits;
  cleaned =
      let (_, within) = match_at_bounds before c s m e in
      rw (length-take m.len (c ∷ s) within)
        (run.cleaned ∙ append_assoc r.cleaned (marker m) (redacted run.pieces));
  counts = λ k. omega (arith, run.counts k, counted-count r.counts m.kind k);
}

scrub_from-Ends :
    (f : ℕ) (before : Option ℕ) (s : Bytes) (r : Result)
    → length s ≤ f
    → Ends before s r (scrub_from f before s r)
unfolding scrub_from redacted secrets_of
scrub_from-Ends f before [] r h = record {
  result = r;
  pieces = [];
  returned = refl;
  splits = done;
  cleaned = sym (append-nil r.cleaned);
  counts = λ k. omega arith;
}
scrub_from-Ends zero before (c ∷ s) r h = absurd (omega arith)
scrub_from-Ends (suc f) before (c ∷ s) r h = elim (Option-cases (match_at before c s)) [
  | inl e ↦ rw (e, scrub_from) (Ends-keep e (scrub_from-Ends f (some c) s _ (omega arith)))
  | inr (m, e) ↦
      rw (e, scrub_from)
        (Ends-cut m e (
          scrub_from-Ends f (byte_before before (c ∷ s) m.len) (drop m.len (c ∷ s)) _
            (omega (arith, match_at_bounds before c s m e, length-drop m.len (c ∷ s)))))
]

-- Scrub returns for every line. It cuts the line into pieces, a secret wherever the table of matchers
-- finds one that starts outside the secrets before it and a kept byte elsewhere; the cleaned line is
-- the pieces with a marker for each secret that tells its kind and length, and Counts has the number
-- of the secrets of each kind.
pub scrub-Splits :
    (s : Bytes)
    → (r : Result) × (pieces : List Piece) × (scrub s ≡ some r)
      × Splits none s pieces
      × (r.cleaned ≡ redacted pieces)
      × ((k : String) → counted r.counts k ≡ secrets_of k pieces)
unfolding scrub get
scrub-Splits s =
    let run =
      scrub_from-Ends (length s) none s (record { cleaned = []; counts = [] }) (omega arith) in
    (
      run.result,
      run.pieces,
      run.returned,
      run.splits,
      run.cleaned,
      λ k. omega (arith, run.counts k),
    )
