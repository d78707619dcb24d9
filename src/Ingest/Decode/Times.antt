-- ===== src/Ingest/Decode/Times.antt =====
-- The timestamps of back/internal/ingest/decode/decode.go. An int64 is its bit pattern, and its
-- arithmetic wraps around.
use upcontrol.Prelude.{
  ℕ, ◌+◌, ◌-◌, ◌*◌, ◌%◌, ◌^◌, Bool, true, false, ◌&&◌, Option, none, some, [], ◌∷◌, ltb, ◌==◌,
  if◌then◌else◌, is_zero,
}
use upcontrol.Prelude.Bytes.{Bytes, between}

-- `date` counts nanoseconds from Go's zero time. `nanos` and `seconds` count from 1970, as the bits of
-- an int64.
pub data Moment : Type 0 where
  absent : Moment
  date : ℕ → Moment
  nanos : ℕ → Moment
  seconds : ℕ → Moment

abbrev pub int64 : ℕ
int64 = 2 ^ 64

-- A positive int64.
abbrev pub is_positive : ℕ → Bool
is_positive n = ltb 0 n && ltb n (2 ^ 63)

-- `n > k` for an int64 and a positive number.
abbrev pub exceeds : ℕ → ℕ → Bool
exceeds n k = ltb n (2 ^ 63) && ltb k n

-- The zero time stands 62135596800 seconds before 1970, out of the reach of an int64 of nanoseconds.
abbrev pub is_zero_time : Moment → Bool
is_zero_time absent = true
is_zero_time (date t) = is_zero t
is_zero_time (nanos n) = false
is_zero_time (seconds n) = n == int64 - 62135596800

-- `layouts` is time.Parse with the first of the layouts that fits.
unfoldable pub parse_time : (Bytes → Option ℕ) → Bytes → Moment
parse_time layouts [] = absent
parse_time layouts (c ∷ s) = elim (layouts (c ∷ s)) [ none ↦ absent | some t ↦ date t ]

abbrev pub is_digit : ℕ → Bool
is_digit c = between b'0' b'9' c

-- The loop over the digits, from the value of those before: `none` where a byte is no digit.
unfoldable pub digits_value : ℕ → Bytes → Option ℕ
digits_value n [] = some n
digits_value n (c ∷ s) =
    let rest = digits_value ((n * 10 + (c - b'0')) % int64) s in if is_digit c then rest else none

abbrev pub by_magnitude : ℕ → Moment
by_magnitude n =
    if exceeds n (10 ^ 18)
    then nanos n
    else if exceeds n (10 ^ 15)
    then nanos (n * 10 ^ 6 % int64)
    else if exceeds n (10 ^ 12)
    then nanos (n * 10 ^ 9 % int64)
    else seconds n

unfoldable pub parse_loki_ts : (Bytes → Option ℕ) → Bytes → Moment
unfolding digits_value parse_time
parse_loki_ts layouts [] = absent
parse_loki_ts layouts (c ∷ s) = elim (digits_value 0 (c ∷ s)) [
  | none ↦ parse_time layouts (c ∷ s)
  | some n ↦ by_magnitude n
]

unfoldable pub parse_unix_nano : Bytes → Moment
unfolding digits_value
parse_unix_nano [] = absent
parse_unix_nano (c ∷ s) = elim (digits_value 0 (c ∷ s)) [ none ↦ absent | some n ↦ nanos n ]
