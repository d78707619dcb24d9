-- ===== src/Ingest/Scrub/Luhn.antt =====
-- The checksum of card numbers of back/internal/ingest/scrub/scrub.go.
use upcontrol.Prelude.{
  ℕ, ◌+◌, ◌-◌, ◌%◌, ◌<◌, ◌≡◌, ◌≢◌, ap, refl, Bool, true, false, not, [], ◌∷◌, ◌++◌, arith,
}
use upcontrol.Prelude.Bytes.{Bytes}
use upcontrol.Ingest.Scrub.Secrets.{is_digit}
use upcontrol.Ingest.Scrub.Personal.{luhn_digit, luhn_from, luhn}

-- Two numbers that differ in one digit differ in the sum by what the digit adds.
luhn_from_swap :
    (xs ys : Bytes) (a b : ℕ)
    → ((luhn_from (xs ++ a ∷ ys)).0 ≡ (luhn_from (xs ++ b ∷ ys)).0)
      × ((luhn_from (xs ++ a ∷ ys)).1 + luhn_digit (luhn_from ys).0 (b - b'0')
          ≡ (luhn_from (xs ++ b ∷ ys)).1 + luhn_digit (luhn_from ys).0 (a - b'0'))
unfolding luhn_from
luhn_from_swap [] ys a b = (refl, omega arith)
luhn_from_swap (x ∷ xs) ys a b =
    let (same, sums) = luhn_from_swap xs ys a b in (ap not same, rw same (omega arith))

luhn_digit_unique :
    (alt : Bool) (d e : ℕ)
    → d < 10
    → e < 10
    → (S : ℕ) (T : ℕ) → S % 10 ≡ 0
    → T % 10 ≡ 0
    → S + luhn_digit alt e ≡ T + luhn_digit alt d
    → d ≡ e
unfolding luhn_digit
luhn_digit_unique true d e p q S T h k same = ground arith
luhn_digit_unique false d e p q S T h k same = omega arith

-- One wrong digit in a number that passes the checksum makes it fail.
pub luhn_wrong_digit :
    (xs ys : Bytes) (a b : ℕ)
    → is_digit a ≡ true
    → is_digit b ≡ true
    → a ≢ b
    → luhn (xs ++ a ∷ ys) ≡ true
    → luhn (xs ++ b ∷ ys) ≡ false
unfolding luhn is_digit
luhn_wrong_digit xs ys a b p q n h =
    let (_, sums) = luhn_from_swap xs ys a b in
    ground (
      arith,
      luhn_digit_unique (luhn_from ys).0 (a - b'0') (b - b'0') (ground arith) (ground arith)
          (luhn_from (xs ++ a ∷ ys)).1 (luhn_from (xs ++ b ∷ ys)).1,
    )
