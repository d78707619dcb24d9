-- ===== src/Ingest/Fingerprint.antt =====
-- The fingerprint of a message, back/internal/ingest/fingerprint.go.
use upcontrol.Prelude.{
  ℕ, suc, ◌+◌, Bool, false, ◌&&◌, ◌||◌, not, Option, none, some, List, [], ◌∷◌, ◌++◌, zero, leb,
  ◌==◌, if◌then◌else◌, length,
}
use upcontrol.Prelude.Bytes.{Bytes, newline, take, drop, span, between}
pub mod Rounds
pub mod Ids

unfoldable pub is_hex : ℕ → Bool
is_hex c = between b'0' b'9' c || between b'a' b'f' c || between b'A' b'F' c

unfoldable pub is_quote : ℕ → Bool
is_quote c = c == b'"' || c == b'\''

-- The bytes that the search for the closing quote `c` passes over.
unfoldable pub in_quotes : ℕ → ℕ → Bool
in_quotes c d = not (d == newline) && not (d == c)

-- `j < len(msg) && msg[j] == c`
unfoldable pub stands : ℕ → Bytes → Bool
stands c [] = false
stands c (d ∷ s) = d == c

unfoldable pub has_digit : Bytes → Bool
has_digit [] = false
has_digit (c ∷ s) = between b'0' b'9' c || has_digit s

-- A hex run that collapses.
unfoldable pub is_id : Bytes → Bool
unfolding has_digit
is_id run = leb 8 (length run) || has_digit run

-- At a quote: a string that the same quote closes on this line is masked.
unfoldable pub quote_round : ℕ → Bytes → Bytes × Bytes
quote_round c s =
    let j = span (in_quotes c) s in
    if stands c (drop j s) then (c ∷ b'?' ∷ c ∷ [], drop (j + 1) s) else (c ∷ [], s)

-- At a hex byte: the text starts with a run of them.
unfoldable pub hex_round : Bytes → Bytes × Bytes
hex_round s = let n = span is_hex s in (if is_id (take n s) then b'#' ∷ [] else take n s, drop n s)

-- One round of the loop at the byte `c`: what it writes, and the bytes that are left.
unfoldable pub round : ℕ → Bytes → Bytes × Bytes
round c s =
    if is_quote c then quote_round c s else if is_hex c then hex_round (c ∷ s) else (c ∷ [], s)

-- The loop with the bytes that are left and the template so far, on fuel: `none` means that the fuel
-- ran out.
unfoldable pub mask_from : ℕ → Bytes → Bytes → Option Bytes
mask_from f [] out = some out
mask_from zero (c ∷ s) out = none
mask_from (suc f) (c ∷ s) out = mask_from f (round c s).1 (out ++ (round c s).0)

-- A message of n bytes takes n rounds at most.
unfoldable pub mask : Bytes → Option Bytes
mask msg = mask_from (length msg) msg []

-- `fnv` is FNV-64a.
unfoldable pub fingerprint : (Bytes → ℕ) → Bytes → Option ℕ
fingerprint fnv [] = some 0
fingerprint fnv (c ∷ s) = elim (mask (c ∷ s)) [ none ↦ none | some t ↦ some (fnv t) ]
