-- ===== src/Ingest/Attrs.antt =====
-- A record's attributes on their way to a row, capAttrs, liftActor and liftAmount of
-- back/internal/ingest/ingest.go. A map is the list of its entries.
pub mod Bounds
use upcontrol.Prelude.{
  ℕ, zero, suc, ◌+◌, ◌-◌, ◌*◌, ◌^◌, Bool, true, false, ◌&&◌, ◌||◌, not, Option, none, some, List,
  [], ◌∷◌, ltb, leb, ◌==◌, if◌then◌else◌, length, map, ℤ, pos, negsuc,
}
use upcontrol.Prelude.Bytes.{Bytes, codes, take, drop, between, has_prefix, trim_space}
use upcontrol.Ingest.Normalize.{bytes_eq}
use upcontrol.Ingest.Decode.Records.{Attrs, set_attr}

abbrev pub max_attr_keys : ℕ
max_attr_keys = 64

abbrev pub max_attr_key_bytes : ℕ
max_attr_key_bytes = 256

abbrev pub max_attr_val_bytes : ℕ
max_attr_val_bytes = 8192

abbrev pub max_actor_bytes : ℕ
max_actor_bytes = 200

-- Strings compare byte by byte.
unfoldable pub bytes_lt : Bytes → Bytes → Bool
bytes_lt s [] = false
bytes_lt [] (d ∷ t) = true
bytes_lt (c ∷ s) (d ∷ t) = let rest = bytes_lt s t in ltb c d || (c == d && rest)

unfoldable pub insert_attr : Bytes → Bytes → Attrs → Attrs
insert_attr k v [] = (k, v) ∷ []
insert_attr k v ((j, w) ∷ m) =
    let rest = insert_attr k v m in if bytes_lt j k then (j, w) ∷ rest else (k, v) ∷ (j, w) ∷ m

-- The entries in the order of `sort.Strings` of their keys.
unfoldable pub sorted : Attrs → Attrs
sorted [] = []
sorted ((k, v) ∷ m) = insert_attr k v (sorted m)

-- `s[:n]` where `s` is longer, and whether it was.
unfoldable pub cut : ℕ → Bytes → Bytes × ℕ
cut n s = if ltb n (length s) then (take n s, 1) else (s, 0)

pub record Capped : Type 0 where
  pub out : Attrs
  pub keys_capped : ℕ
  pub vals_capped : ℕ

-- One round of the loop over the sorted keys, at index `i`.
unfoldable pub cap_entry : ℕ → Bytes → Bytes → Capped → Capped
unfolding cut
cap_entry i k v c =
    let (k', cut_key) = cut max_attr_key_bytes k in
    let (v', cut_val) = cut max_attr_val_bytes v in
    if leb max_attr_keys i then record c { keys_capped = c.keys_capped + 1 } else record {
      out = set_attr c.out k' v';
      keys_capped = c.keys_capped + cut_key;
      vals_capped = c.vals_capped + cut_val;
    }

unfoldable pub cap_from : ℕ → Attrs → Capped → Capped
cap_from i [] c = c
cap_from i ((k, v) ∷ m) c = cap_from (suc i) m (cap_entry i k v c)

-- A key or a value that is too long.
unfoldable pub has_long : Attrs → Bool
has_long [] = false
has_long ((k, v) ∷ m) =
    ltb max_attr_key_bytes (length k) || (ltb max_attr_val_bytes (length v) || has_long m)

unfoldable pub cap_attrs : Attrs → Capped
unfolding has_long sorted cap_from
cap_attrs attrs =
    if ltb max_attr_keys (length attrs) || has_long attrs
    then cap_from 0 (sorted attrs) (record { out = []; keys_capped = 0; vals_capped = 0 })
    else record { out = attrs; keys_capped = 0; vals_capped = 0 }

-- `attrs[k]`: the empty string where there is none.
unfoldable pub attr : Attrs → Bytes → Bytes
attr [] k = []
attr ((j, v) ∷ m) k = if bytes_eq j k then v else attr m k

unfoldable pub delete : Attrs → Bytes → Attrs
delete [] k = []
delete ((j, v) ∷ m) k = let rest = delete m k in if bytes_eq j k then rest else (j, v) ∷ rest

abbrev pub actor_attr : Bytes
actor_attr = codes "uc.actor"

abbrev pub amount_attr : Bytes
amount_attr = codes "uc.amount"

abbrev pub currency_attr : Bytes
currency_attr = codes "uc.currency"

unfoldable pub lift_actor : Attrs → Bytes × Attrs
unfolding cut attr delete
lift_actor attrs =
    ((cut max_actor_bytes (trim_space (attr attrs actor_attr))).0, delete attrs actor_attr)

-- `strings.TrimPrefix(a, "-")`, and whether it was there.
unfoldable pub sign : Bytes → Bool × Bytes
sign [] = (false, [])
sign (c ∷ s) = if c == b'-' then (true, s) else (false, c ∷ s)

-- The value of decimal digits.
unfoldable pub decimal : ℕ → Bytes → Option ℕ
decimal n [] = some n
decimal n (c ∷ s) =
    let rest = decimal (n * 10 + (c - b'0')) s in if between b'0' b'9' c then rest else none

abbrev pub negated : ℕ → ℤ
negated zero = pos 0
negated (suc n) = negsuc n

-- `strconv.ParseInt(a, 10, 64)` on a text without a plus sign: `none` is its error, for no
-- digits, a byte that is none or a number that an int64 does not hold.
unfoldable pub parse_int : Bytes → Option ℤ
unfolding sign decimal bytes_eq
parse_int a =
    let (minus, digits) = sign a in
    elim (if bytes_eq digits [] then none else decimal 0 digits) [
      | none ↦ none
      | some n ↦
          if minus
          then (if leb n (2 ^ 63) then some (negated n) else none)
          else (if ltb n (2 ^ 63) then some (pos n) else none)
    ]

unfoldable pub all_of : (ℕ → Bool) → Bytes → Bool
all_of p [] = true
all_of p (c ∷ s) = p c && all_of p s

abbrev pub is_letter : ℕ → Bool
is_letter c = between b'a' b'z' c || between b'A' b'Z' c

abbrev pub upper : ℕ → ℕ
upper c = if between b'a' b'z' c then c - 32 else c

abbrev pub is_amount : Bytes → Bool
is_amount digits =
    not (bytes_eq digits []) && (leb (length digits) 15 && all_of (between b'0' b'9') digits)

abbrev pub is_currency : Bytes → Bool
is_currency c = length c == 3 && all_of is_letter c

-- The amount and the currency, or `none` where one is missing or malformed.
unfoldable pub money : Bytes → Bytes → Option (ℤ × Bytes)
unfolding sign all_of bytes_eq
money a c =
    if is_amount (sign a).1
    then (if is_currency c
        then elim (parse_int a) [ none ↦ none | some n ↦ some (n, map upper c) ]
        else none)
    else none

unfoldable pub lift_amount : Attrs → Option (ℤ × Bytes) × Attrs
unfolding attr delete
lift_amount attrs = (
  money (attr attrs amount_attr) (attr attrs currency_attr),
  delete (delete attrs amount_attr) currency_attr,
)
