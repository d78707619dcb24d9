-- ===== src/Ingest/Fingerprint/Rounds.antt =====
-- The rounds of mask in back/internal/ingest/fingerprint.go: their fuel, and texts with the same start.
use upcontrol.Prelude.{
  ℕ, zero, suc, ◌+◌, ◌≤◌, ◌<◌, ◌≡◌, refl, ap, Bool, true, false, ◌&&◌, not, some, [], ◌∷◌, ◌++◌,
  arith, inl, inr, if◌then◌else◌, length, Bool-cases,
}
use upcontrol.Prelude.Bytes.{Bytes, drop, span, length-drop}
use upcontrol.Prelude.Joins.{
  span-append_stop, span-append_all, drop-append, drop-append_past, take-append_all,
  drop-append_all, take-append, length-drop-le,
}
use upcontrol.Ingest.Fingerprint.{
  is_hex, is_quote, in_quotes, stands, is_id, quote_round, hex_round, round, mask_from,
}

pub round-le-length : (c : ℕ) (s : Bytes) → length (round c s).1 ≤ length s
unfolding round quote_round hex_round span drop
round-le-length c s =
    ground (arith, length-drop-le (span (in_quotes c) s + 1) s, length-drop-le (span is_hex s) s)

pub mask_from-round :
    (f c : ℕ) (s out written left : Bytes)
    → round c s ≡ (written, left)
    → mask_from (suc f) (c ∷ s) out ≡ mask_from f left (out ++ written)
unfolding mask_from
mask_from-round f c s out written left e =
    ap (λ (r : Bytes × Bytes). mask_from f r.1 (out ++ r.0)) e

-- More fuel than the text has bytes changes nothing.
pub mask_from-fuel :
    (f g : ℕ) (s out : Bytes) → length s ≤ f → length s ≤ g → mask_from f s out ≡ mask_from g s out
unfolding mask_from
mask_from-fuel f g [] out p q = refl
mask_from-fuel zero g (c ∷ s) out p q = absurd (omega arith)
mask_from-fuel (suc f) zero (c ∷ s) out p q = absurd (omega arith)
mask_from-fuel (suc f) (suc g) (c ∷ s) out p q =
    mask_from-fuel f g (round c s).1 (out ++ (round c s).0) (omega (arith, round-le-length c s))
      (omega (arith, round-le-length c s))

pub mask_from_total :
    (f : ℕ) (s out : Bytes) → length s ≤ f → (t : Bytes) × (mask_from f s out ≡ some t)
unfolding mask_from
mask_from_total f [] out p = (out, refl)
mask_from_total zero (c ∷ s) out p = absurd (omega arith)
mask_from_total (suc f) (c ∷ s) out p =
    mask_from_total f (round c s).1 (out ++ (round c s).0) (omega (arith, round-le-length c s))

-- The text does not end with a hex byte.
unfoldable pub ends_apart : Bytes → Bool
ends_apart [] = true
ends_apart (c ∷ []) = not (is_hex c)
ends_apart (c ∷ d ∷ s) = ends_apart (d ∷ s)

unfoldable pub starts_apart : Bytes → Bool
starts_apart [] = true
starts_apart (c ∷ s) = not (is_hex c)

unfoldable pub all_hex : Bytes → Bool
all_hex [] = true
all_hex (c ∷ s) = is_hex c && all_hex s

-- A hex run that mask replaces.
pub record Collapses (run : Bytes) : Type 0 where
  pub hex : all_hex run ≡ true
  pub collapses : is_id run ≡ true

pub hex-ne-quote : (c : ℕ) → is_hex c ≡ true → is_quote c ≡ false
unfolding is_hex is_quote
hex-ne-quote c h = ground arith

pub all_hex-head : (c : ℕ) (s : Bytes) → all_hex (c ∷ s) ≡ true → is_hex c ≡ true
unfolding all_hex
all_hex-head c s h = ground arith

pub hex_in_quotes : (c d : ℕ) → is_quote c ≡ true → is_hex d ≡ true → in_quotes c d ≡ true
unfolding is_hex is_quote in_quotes
hex_in_quotes c d q h = ground arith

-- The search for the closing quote passes an id over.
pub span-in_quotes-hex :
    (c : ℕ) (run t : Bytes)
    → is_quote c ≡ true
    → all_hex run ≡ true
    → span (in_quotes c) (run ++ t) ≡ length run + span (in_quotes c) t
unfolding span all_hex
span-in_quotes-hex c [] t q h = omega arith
span-in_quotes-hex c (d ∷ run) t q h =
    ground (arith, hex_in_quotes c d q, span-in_quotes-hex c run t q)

pub all_hex-le-span : (run : Bytes) → all_hex run ≡ true → length run ≤ span is_hex run
unfolding span all_hex
all_hex-le-span [] h = omega arith
all_hex-le-span (d ∷ run) h = ground (arith, all_hex-le-span run)

pub span_apart : (t : Bytes) → starts_apart t ≡ true → span is_hex t ≡ 0
unfolding span starts_apart
span_apart [] h = refl
span_apart (c ∷ t) h = ground arith

pub span-ends_apart :
    (c : ℕ) (s : Bytes) → ends_apart (c ∷ s) ≡ true → span is_hex (c ∷ s) < length (c ∷ s)
unfolding span ends_apart
span-ends_apart c [] h = ground arith
span-ends_apart c (d ∷ s) h = ground (arith, span-ends_apart d s)

pub ends_apart-tail : (c : ℕ) (s : Bytes) → ends_apart (c ∷ s) ≡ true → ends_apart s ≡ true
unfolding ends_apart
ends_apart-tail c [] h = refl
ends_apart-tail c (d ∷ s) h = h

pub ends_apart-drop : (n : ℕ) (s : Bytes) → ends_apart s ≡ true → ends_apart (drop n s) ≡ true
unfolding drop
ends_apart-drop zero s h = h
ends_apart-drop (suc n) [] h = h
ends_apart-drop (suc n) (c ∷ s) h = ends_apart-drop n s (ends_apart-tail c s h)

pub ends_apart-round :
    (c : ℕ) (s : Bytes) → ends_apart (c ∷ s) ≡ true → ends_apart (round c s).1 ≡ true
unfolding round quote_round hex_round
ends_apart-round c s h = ground (
  arith,
  ends_apart-tail c s,
  ends_apart-drop (span (in_quotes c) s + 1) s,
  ends_apart-drop (span is_hex (c ∷ s)) (c ∷ s),
)

-- The whole of an id is one round.
pub round_id :
    (c : ℕ) (run post : Bytes)
    → Collapses (c ∷ run)
    → starts_apart post ≡ true
    → round c (run ++ post) ≡ (b'#' ∷ [], post)
unfolding round hex_round
round_id c run post i apart =
    let hex : is_hex c ≡ true = all_hex-head c run i.hex in
    let n : span is_hex ((c ∷ run) ++ post) ≡ length (c ∷ run) = omega (
      arith,
      span-append_all is_hex (c ∷ run) post (all_hex-le-span (c ∷ run) i.hex),
      span_apart post apart,
    ) in
    rw (
      hex-ne-quote c hex,
      hex,
      n,
      take-append_all (c ∷ run) post,
      drop-append_all (c ∷ run) post,
      i.collapses,
    )

-- The text `x` after `s` does not matter for a round that ends before it.
abbrev pub Same : ℕ → Bytes → Bytes → Type 0
Same c s x = round c (s ++ x) ≡ ((round c s).0, (round c s).1 ++ x)

pub hex_round-append :
    (s x : Bytes)
    → span is_hex s < length s
    → hex_round (s ++ x) ≡ ((hex_round s).0, (hex_round s).1 ++ x)
unfolding hex_round
hex_round-append s x lt = rw (
  span-append_stop is_hex s x lt,
  take-append (span is_hex s) s x (omega arith),
  drop-append (span is_hex s) s x (omega arith),
)

pub round_hex :
    (c : ℕ) (s x : Bytes) → is_hex c ≡ true → span is_hex (c ∷ s) < length (c ∷ s) → Same c s x
unfolding round
round_hex c s x h lt = rw (hex-ne-quote c h, h, hex_round-append (c ∷ s) x lt)

pub round_plain : (c : ℕ) (s x : Bytes) → is_quote c ≡ false → is_hex c ≡ false → Same c s x
unfolding round
round_plain c s x q h = rw (q, h)

pub stands-append : (c : ℕ) (s x : Bytes) → 0 < length s → stands c (s ++ x) ≡ stands c s
unfolding stands
stands-append c [] x h = absurd (omega arith)
stands-append c (d ∷ s) x h = refl

pub quote_round-append :
    (c : ℕ) (s x : Bytes)
    → span (in_quotes c) s < length s
    → quote_round c (s ++ x) ≡ ((quote_round c s).0, (quote_round c s).1 ++ x)
unfolding quote_round
quote_round-append c s x lt =
    let j = span (in_quotes c) s in
    let before = drop-append j s x (omega arith) in
    let after = drop-append (j + 1) s x (omega arith) in
    let there = stands-append c (drop j s) x (omega (arith, length-drop j s (omega arith))) in
    elim (Bool-cases (stands c (drop j s))) [
      | inl e ↦ rw (span-append_stop (in_quotes c) s x lt, before, there, after, e)
      | inr e ↦ rw (span-append_stop (in_quotes c) s x lt, before, there, after, e)
    ]

pub round_quote :
    (c : ℕ) (s x : Bytes) → is_quote c ≡ true → span (in_quotes c) s < length s → Same c s x
unfolding round
round_quote c s x q lt = rw (q, quote_round-append c s x lt)

-- The closing quote is sought beyond an id.
pub quote_round_past :
    (c : ℕ) (s run post : Bytes)
    → is_quote c ≡ true
    → all_hex run ≡ true
    → length s ≤ span (in_quotes c) s
    → quote_round c (s ++ (run ++ post)) ≡ (
        if stands c (drop (span (in_quotes c) post) post)
        then (c ∷ b'?' ∷ c ∷ [], drop (span (in_quotes c) post + 1) post)
        else (c ∷ [], s ++ (run ++ post)))
unfolding quote_round
quote_round_past c s run post q h ge =
    let k = span (in_quotes c) post in
    let j : span (in_quotes c) (s ++ (run ++ post)) ≡ length s + (length run + k) = omega (
      arith,
      span-append_all (in_quotes c) s (run ++ post) ge,
      span-in_quotes-hex c run post q h,
    ) in
    let next : length s + (length run + k) + 1 ≡ length s + (length run + (k + 1)) = omega arith in
    rw (
      j,
      next,
      drop-append_past (length run + k) s (run ++ post),
      drop-append_past k run post,
      drop-append_past (length run + (k + 1)) s (run ++ post),
      drop-append_past (k + 1) run post,
    )
