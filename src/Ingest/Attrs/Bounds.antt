-- ===== src/Ingest/Attrs/Bounds.antt =====
-- What capAttrs lets through, back/internal/ingest/ingest.go.
use upcontrol.Prelude.{
  ℕ, suc, ◌+◌, ◌≤◌, ◌≡◌, refl, inl, inr, Bool, true, false, ◌||◌, [], ◌∷◌, arith, ltb, leb, length,
  All, Bool-cases,
}
use upcontrol.Prelude.Bytes.{Bytes, length-take}
use upcontrol.Ingest.Normalize.{bytes_eq}
use upcontrol.Ingest.Decode.Records.{Attrs, set_attr}
use upcontrol.Ingest.Attrs.{
  max_attr_keys, max_attr_key_bytes, max_attr_val_bytes, cut, Capped, cap_entry, cap_from, sorted,
  has_long, cap_attrs,
}

-- An entry within the caps.
abbrev pub IsShort : Bytes × Bytes → Type 0
IsShort (k, v) = (length k ≤ max_attr_key_bytes) × (length v ≤ max_attr_val_bytes)

pub record IsCapped (m : Attrs) : Type 0 where
  pub keys : length m ≤ max_attr_keys
  pub entries : All IsShort m

length-cut : (n : ℕ) (s : Bytes) → length (cut n s).0 ≤ n
unfolding cut
length-cut n s = elim (Bool-cases (ltb n (length s))) [
  | inl e ↦ rw e (omega (arith, length-take n s (ground arith)))
  | inr e ↦ rw e (ground arith)
]

length-set_attr : (m : Attrs) (k v : Bytes) → length (set_attr m k v) ≤ length m + 1
unfolding set_attr
length-set_attr [] k v = omega arith
length-set_attr ((j, w) ∷ m) k v = ground (arith, length-set_attr m k v)

set_attr-All :
    (P : Bytes × Bytes → Type 0) (m : Attrs) (k v : Bytes)
    → P (k, v)
    → All P m
    → All P (set_attr m k v)
unfolding set_attr
set_attr-All P [] k v p a = (p, tt)
set_attr-All P ((j, w) ∷ m) k v p (a, more) = elim (Bool-cases (bytes_eq j k)) [
  | inl e ↦ rw e (p, more)
  | inr e ↦ rw e (a, set_attr-All P m k v p more)
]

cap_entry-IsCapped :
    (i : ℕ) (k v : Bytes) (c : Capped)
    → length c.out ≤ i
    → IsCapped c.out
    → IsCapped (cap_entry i k v c).out × (length (cap_entry i k v c).out ≤ suc i)
unfolding cap_entry
cap_entry-IsCapped i k v c l p = elim (Bool-cases (leb max_attr_keys i)) [
  | inl e ↦ rw e (p, omega arith)
  | inr e ↦
      let grown = length-set_attr c.out (cut max_attr_key_bytes k).0 (cut max_attr_val_bytes v).0 in
      rw e (
        (record {
          keys = ground (arith, grown);
          entries = set_attr-All IsShort c.out _ _ (length-cut _ k, length-cut _ v) p.entries;
        }),
        omega (arith, grown),
      )
]

cap_from-IsCapped :
    (m : Attrs) (i : ℕ) (c : Capped)
    → length c.out ≤ i
    → IsCapped c.out
    → IsCapped (cap_from i m c).out
unfolding cap_from
cap_from-IsCapped [] i c l p = p
cap_from-IsCapped ((k, v) ∷ m) i c l p =
    let (q, grown) = cap_entry-IsCapped i k v c l p in cap_from-IsCapped m (suc i) _ grown q

or_false : (a b : Bool) → (a || b) ≡ false → (a ≡ false) × (b ≡ false)
or_false false b e = (refl, e)
or_false true b e = ground arith

has_long-All : (m : Attrs) → has_long m ≡ false → All IsShort m
unfolding has_long
has_long-All [] e = tt
has_long-All ((k, v) ∷ m) e =
    let (short_key, rest) =
      or_false (ltb max_attr_key_bytes (length k)) (ltb max_attr_val_bytes (length v) || has_long m)
        e in
    let (short_val, short) = or_false (ltb max_attr_val_bytes (length v)) (has_long m) rest in
    ((ground arith, ground arith), has_long-All m short)

-- A row keeps at most 64 attributes, with keys of at most 256 bytes and values of at most 8192,
-- whatever the record had.
pub cap_attrs-IsCapped : (attrs : Attrs) → IsCapped (cap_attrs attrs).out
unfolding cap_attrs
cap_attrs-IsCapped attrs = elim (Bool-cases (ltb max_attr_keys (length attrs))) [
  | inl e ↦ rw e (
      cap_from-IsCapped (sorted attrs) 0 _ (omega arith)
        (record { keys = omega arith; entries = tt }))
  | inr e ↦ elim (Bool-cases (has_long attrs)) [
    | inl h ↦
        rw (e, h)
          (cap_from-IsCapped (sorted attrs) 0 _ (omega arith)
            (record { keys = omega arith; entries = tt }))
    | inr h ↦ rw (e, h) (record { keys = ground arith; entries = has_long-All attrs h })
  ]
]
