-- ===== src/Ingest/Scrub/Personal.antt =====
-- The matchers for card numbers and addresses of back/internal/ingest/scrub/scrub.go, in the form
-- of those for secrets.
use upcontrol.Prelude.{
  ℕ, ◌+◌, ◌-◌, ◌*◌, ◌%◌, Bool, false, ◌||◌, not, Option, none, some, [], ◌∷◌, ltb, ◌==◌,
  if◌then◌else◌, length,
}
use upcontrol.Prelude.Bytes.{Bytes, codes, take, drop, contains, span}
use upcontrol.Ingest.Scrub.Secrets.{is_letter, is_digit, starts_with, follows}

-- What a digit adds to the sum, `alt` for every second one from the right.
unfoldable pub luhn_digit : Bool → ℕ → ℕ
luhn_digit alt d = if alt then (if ltb 9 (d * 2) then d * 2 - 9 else d * 2) else d

-- The loop of luhn goes from the last digit to the first: it returns `alt` and the sum.
unfoldable pub luhn_from : Bytes → Bool × ℕ
unfolding luhn_digit
luhn_from [] = (false, 0)
luhn_from (c ∷ digits) =
    let (alt, sum) = luhn_from digits in (not alt, sum + luhn_digit alt (c - b'0'))

unfoldable pub luhn : Bytes → Bool
unfolding luhn_from
luhn digits = (luhn_from digits).1 % 10 == 0

unfoldable pub in_card : ℕ → Bool
unfolding is_digit
in_card c = is_digit c || c == b' ' || c == b'-'

-- The digits of a run.
unfoldable pub digits_of : Bytes → Bytes
unfolding is_digit
digits_of [] = []
digits_of (c ∷ s) = let rest = digits_of s in if is_digit c then c ∷ rest else rest

-- The array holds 20 digits, and those after them are passed over.
unfoldable pub card_luhn_matcher : Option ℕ → Bytes → Option ℕ
unfolding is_digit in_card span take digits_of luhn
card_luhn_matcher before s =
    let j = span in_card s in
    let digits = take 20 (digits_of (take j s)) in
    if not (starts_with is_digit s)
    then none
    else if follows is_digit before
    then none
    else if ltb (length digits) 13 || ltb 19 (length digits)
    then none
    else if not (luhn digits)
    then none
    else some j

unfoldable pub is_email_local : ℕ → Bool
unfolding is_letter is_digit
is_email_local c =
    is_letter c || is_digit c || c == b'.' || c == b'_' || c == b'%' || c == b'+' || c == b'-'

unfoldable pub in_host : ℕ → Bool
unfolding is_email_local
in_host c = is_email_local c || c == b'.'

unfoldable pub email_matcher : Option ℕ → Bytes → Option ℕ
unfolding is_email_local in_host span take drop contains
email_matcher before s =
    let j = span is_email_local s in
    let host = span in_host (drop (j + 1) s) in
    if not (starts_with is_email_local s)
    then none
    else if follows is_email_local before
    then none
    else if not (starts_with (λ c. c == b'@') (drop j s))
    then none
    else if ltb host 5 || not (contains (take host (drop (j + 1) s)) (codes "."))
    then none
    else some (j + 1 + host)
