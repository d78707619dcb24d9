-- ===== src/Ingest/Decode/Loki.antt =====
-- The timestamps of a Loki push, back/internal/ingest/decode/decode.go.
use upcontrol.Prelude.{
  ℕ, ◌+◌, ◌-◌, ◌*◌, ◌%◌, ◌^◌, ◌≤◌, ◌<◌, ◌≡◌, ◌≢◌, refl, sym, ◌∙◌, true, Option, some, [], ◌∷◌,
  arith, All,
}
use upcontrol.Prelude.Bytes.{Bytes}
use upcontrol.Ingest.Decode.Times.{
  nanos, seconds, int64, digits_value, by_magnitude, parse_loki_ts, is_digit,
}

-- A text of digits, and the number that it writes.
abbrev pub IsDigits : Bytes → Type 0
IsDigits s = All (λ c. (b'0' ≤ c) × (c ≤ b'9')) s

unfoldable pub value_from : ℕ → Bytes → ℕ
value_from n [] = n
value_from n (c ∷ s) = value_from (n * 10 + (c - b'0')) s

value_from-le : (n : ℕ) (s : Bytes) → n ≤ value_from n s
unfolding value_from
value_from-le n [] = omega arith
value_from-le n (c ∷ s) = omega (arith, value_from-le (n * 10 + (c - b'0')) s)

-- A number below 2^64 is read as it is written.
digits_value-value_from :
    (n : ℕ) (s : Bytes)
    → IsDigits s
    → value_from n s < int64
    → digits_value n s ≡ some (value_from n s)
unfolding digits_value value_from
digits_value-value_from n [] d h = refl
digits_value-value_from n (c ∷ s) d h =
    let digit : is_digit c ≡ true = ground arith in
    let small : (n * 10 + (c - b'0')) % int64 ≡ n * 10 + (c - b'0') =
      omega (arith, value_from-le (n * 10 + (c - b'0')) s) in
    rw (digit, small) (digits_value-value_from (n * 10 + (c - b'0')) s d.1 h)

parse_loki_ts-by_magnitude :
    (layouts : Bytes → Option ℕ) (c : ℕ) (s : Bytes)
    → IsDigits (c ∷ s)
    → value_from 0 (c ∷ s) < int64
    → parse_loki_ts layouts (c ∷ s) ≡ by_magnitude (value_from 0 (c ∷ s))
unfolding parse_loki_ts
parse_loki_ts-by_magnitude layouts c s d h =
    rw (digits_value-value_from 0 (c ∷ s) d h, parse_loki_ts)

nanos_injective : {a b : ℕ} → nanos a ≡ nanos b → a ≡ b
nanos_injective e = cc

by_magnitude_millis :
    (n : ℕ) → 10 ^ 12 < n → n ≤ 10 ^ 15 → by_magnitude n ≡ nanos (n * 10 ^ 9 % 2 ^ 64)
by_magnitude_millis n l u = ground arith

never : (n : ℕ) → 10 ^ 12 < n → n ≤ 10 ^ 15 → n * 10 ^ 9 % 2 ^ 64 ≢ n * 10 ^ 6
never n l u e = omega arith

-- A decimal timestamp of seconds, up to 10^12, or of nanoseconds, above 10^18, gives that time.
pub parse_loki_ts_seconds :
    (layouts : Bytes → Option ℕ) (c : ℕ) (s : Bytes)
    → IsDigits (c ∷ s)
    → value_from 0 (c ∷ s) ≤ 10 ^ 12
    → parse_loki_ts layouts (c ∷ s) ≡ seconds (value_from 0 (c ∷ s))
parse_loki_ts_seconds layouts c s d h =
    parse_loki_ts-by_magnitude layouts c s d (omega arith) ∙ ground arith

-- No timestamp of milliseconds, between 10^12 and 10^15, gives its time, the number times 10^6
-- nanoseconds: it is scaled by 10^9, and wraps around.
pub parse_loki_ts_millis :
    (layouts : Bytes → Option ℕ) (c : ℕ) (s : Bytes)
    → IsDigits (c ∷ s)
    → 10 ^ 12 < value_from 0 (c ∷ s)
    → value_from 0 (c ∷ s) ≤ 10 ^ 15
    → (parse_loki_ts layouts (c ∷ s) ≡ nanos (value_from 0 (c ∷ s) * 10 ^ 9 % 2 ^ 64))
      × (parse_loki_ts layouts (c ∷ s) ≢ nanos (value_from 0 (c ∷ s) * 10 ^ 6))
parse_loki_ts_millis layouts c s d l u =
    let scaled =
      parse_loki_ts-by_magnitude layouts c s d (omega arith)
      ∙ by_magnitude_millis (value_from 0 (c ∷ s)) l u in
    (scaled, λ e. never (value_from 0 (c ∷ s)) l u (nanos_injective (sym scaled ∙ e)))
