-- ===== src/Ingest/Fingerprint/Ids.antt =====
-- Messages that differ in an id only, for back/internal/ingest/fingerprint.go.
use upcontrol.Prelude.{
  refl, In, All, not, ◌⊎◌, ◌≤◌, true, length, ℕ, zero, suc, ◌≤◌, ◌<◌, ◌≡◌, ap, sym, ◌∙◌, true, some,
  [], ◌∷◌, ◌++◌, arith, inl, inr, length, length-append, Bool-cases,
}
use native.Mathlib.Decide.{dec_lt}
use native.Mathlib.Nat.{le_refl}
use upcontrol.Prelude.Bytes.{Bytes, between, drop, span}
use upcontrol.Ingest.Fingerprint.{
  is_hex, is_quote, in_quotes, stands, has_digit, is_id, round, mask_from, mask, fingerprint,
}
use upcontrol.Ingest.Fingerprint.Rounds.{
  all_hex, round-le-length, mask_from-round, mask_from-fuel, mask_from_total, ends_apart,
  starts_apart, Collapses, span-ends_apart, ends_apart-tail, ends_apart-round, round_id, round_hex,
  round_plain, round_quote, quote_round_past, Same,
}

Collapses-pos : (run : Bytes) → Collapses run → 0 < length run
unfolding is_id has_digit
Collapses-pos [] i = cc i.collapses
Collapses-pos (c ∷ run) i = omega arith

fingerprint_some :
    (fnv : Bytes → ℕ) (s t : Bytes)
    → 0 < length s
    → mask s ≡ some t
    → fingerprint fnv s ≡ some (fnv t)
unfolding fingerprint
fingerprint_some fnv [] t h m = absurd (omega arith)
fingerprint_some fnv (c ∷ s) t h m = rw (m, fingerprint)

module _ (a b post : Bytes) (id_a : Collapses a) (id_b : Collapses b)
    (apart : starts_apart post ≡ true) where
  -- What a round does to the two texts `pre ++ a ++ post` and `pre ++ b ++ post`: it stays in the
  -- common part, or it passes the ids.
  data Rounds (pre : Bytes) : Bytes × Bytes → Bytes × Bytes → Type 0 where
    before :
        (left written : Bytes) {one two : Bytes × Bytes}
        → one ≡ (written, left ++ (a ++ post))
        → two ≡ (written, left ++ (b ++ post))
        → ends_apart left ≡ true
        → length left < length pre
        → Rounds pre one two
    past : {one two : Bytes × Bytes} → one ≡ two → Rounds pre one two

  stays :
      (c : ℕ) (pre : Bytes)
      → ends_apart (c ∷ pre) ≡ true
      → Same c pre (a ++ post)
      → Same c pre (b ++ post)
      → Rounds (c ∷ pre) (round c (pre ++ (a ++ post))) (round c (pre ++ (b ++ post)))
  stays c pre h one two =
      before (round c pre).1 (round c pre).0 one two (ends_apart-round c pre h)
        (omega (arith, round-le-length c pre))

  round_both :
      (c : ℕ) (pre : Bytes)
      → ends_apart (c ∷ pre) ≡ true
      → Rounds (c ∷ pre) (round c (pre ++ (a ++ post))) (round c (pre ++ (b ++ post)))
  unfolding round
  round_both c pre h = elim (Bool-cases (is_quote c)) [
    | inl q ↦ elim (dec_lt (span (in_quotes c) pre) (length pre)) [
      | yes lt ↦
          stays c pre h (round_quote c pre (a ++ post) q lt) (round_quote c pre (b ++ post) q lt)
      | no ge ↦ elim (Bool-cases (stands c (drop (span (in_quotes c) post) post))) [
        | inl closed ↦ past (
            rw (
              q,
              quote_round_past c pre a post q id_a.hex (omega arith),
              quote_round_past c pre b post q id_b.hex (omega arith),
              closed,
            ))
        | inr lone ↦
            before pre (c ∷ [])
              (rw (q, quote_round_past c pre a post q id_a.hex (omega arith), lone))
              (rw (q, quote_round_past c pre b post q id_b.hex (omega arith), lone))
              (ends_apart-tail c pre h) (omega arith)
      ]
    ]
    | inr q ↦ elim (Bool-cases (is_hex c)) [
      | inl x ↦
          let lt = span-ends_apart c pre h in
          stays c pre h (round_hex c pre (a ++ post) x lt) (round_hex c pre (b ++ post) x lt)
      | inr x ↦
          stays c pre h (round_plain c pre (a ++ post) q x) (round_plain c pre (b ++ post) q x)
    ]
  ]

  mask_from_id :
      (f : ℕ) (run out : Bytes)
      → Collapses run
      → length (run ++ post) ≤ f
      → mask_from f (run ++ post) out ≡ mask_from (length post) post (out ++ b'#' ∷ [])
  unfolding is_id has_digit
  mask_from_id f [] out i h = cc i.collapses
  mask_from_id zero (c ∷ run) out i h = absurd (omega arith)
  mask_from_id (suc f) (c ∷ run) out i h =
      mask_from-round f c (run ++ post) out (b'#' ∷ []) post (round_id c run post i apart)
      ∙ (mask_from-fuel f (length post) post (out ++ b'#' ∷ [])
          (omega (arith, length-append run post)) (le_refl _))

  mask_from_both :
      (f g : ℕ) (pre out : Bytes)
      → ends_apart pre ≡ true
      → length (pre ++ (a ++ post)) ≤ f
      → length (pre ++ (b ++ post)) ≤ g
      → mask_from f (pre ++ (a ++ post)) out ≡ mask_from g (pre ++ (b ++ post)) out
  unfolding mask_from
  mask_from_both f g [] out h p q = mask_from_id f a out id_a p ∙ sym (mask_from_id g b out id_b q)
  mask_from_both zero g (c ∷ pre) out h p q = absurd (omega arith)
  mask_from_both (suc f) zero (c ∷ pre) out h p q = absurd (omega arith)
  mask_from_both (suc f) (suc g) (c ∷ pre) out h p q = elim (round_both c pre h) [
    | before left written one two clear shorter ↦
        mask_from-round f c (pre ++ (a ++ post)) out written (left ++ (a ++ post)) one
        ∙ (mask_from_both f g left (out ++ written) clear
              (omega (arith, length-append left (a ++ post), length-append pre (a ++ post)))
              (omega (arith, length-append left (b ++ post), length-append pre (b ++ post)))
            ∙ sym (mask_from-round g c (pre ++ (b ++ post)) out written (left ++ (b ++ post)) two))
    | past e ↦
        let other = round c (pre ++ (b ++ post)) in
        mask_from-round f c (pre ++ (a ++ post)) out other.0 other.1 e
        ∙ mask_from-fuel f g other.1 (out ++ other.0)
            (omega (
              arith,
              ap (λ (r : Bytes × Bytes). length r.1) e,
              round-le-length c (pre ++ (a ++ post)),
            ))
            (omega (arith, round-le-length c (pre ++ (b ++ post))))
  ]

  fingerprint_both :
      (fnv : Bytes → ℕ) (pre : Bytes)
      → ends_apart pre ≡ true
      → (h : ℕ) × (fingerprint fnv (pre ++ (a ++ post)) ≡ some h)
        × (fingerprint fnv (pre ++ (b ++ post)) ≡ some h)
  unfolding mask
  fingerprint_both fnv pre clear =
      let one = pre ++ (a ++ post) in
      let two = pre ++ (b ++ post) in
      let (t, masked) = mask_from_total (length two) two [] (le_refl _) in
      let same = mask_from_both (length one) (length two) pre [] clear (le_refl _) (le_refl _) in
      (
        fnv t,
        fingerprint_some fnv one t
            (omega
              (arith, length-append pre (a ++ post), length-append a post, Collapses-pos a id_a))
            (same ∙ masked),
        fingerprint_some fnv two t
            (omega
              (arith, length-append pre (b ++ post), length-append b post, Collapses-pos b id_b))
            masked,
      )

-- 0 to 9, a to f or A to F.
abbrev pub IsHexByte : ℕ → Type 0
IsHexByte c = ((b'0' ≤ c) × (c ≤ b'9')) ⊎ (((b'a' ≤ c) × (c ≤ b'f')) ⊎ ((b'A' ≤ c) × (c ≤ b'F')))

-- A number or an identifier: hex bytes, eight at least or with a digit among them.
pub record IsId (run : Bytes) : Type 0 where
  pub hex : All IsHexByte run
  pub varies : (8 ≤ length run) ⊎ ((d : ℕ) × In d run × (b'0' ≤ d) × (d ≤ b'9'))

-- No hex byte at the end of a text, and none at the start of one.
abbrev pub EndsApart : Bytes → Type 0
EndsApart [] = Unit
EndsApart (c ∷ []) = ¬ IsHexByte c
EndsApart (c ∷ d ∷ s) = EndsApart (d ∷ s)

abbrev pub StartsApart : Bytes → Type 0
StartsApart [] = Unit
StartsApart (c ∷ s) = ¬ IsHexByte c

IsHexByte-is_hex : (c : ℕ) → IsHexByte c → is_hex c ≡ true
unfolding is_hex
IsHexByte-is_hex c h = ground arith

is_hex-IsHexByte : (c : ℕ) → is_hex c ≡ true → IsHexByte c
unfolding is_hex
is_hex-IsHexByte c h = elim (Bool-cases (between b'0' b'9' c)) [
  | inl e ↦ inl (ground arith)
  | inr e ↦ elim (Bool-cases (between b'a' b'f' c)) [
    | inl f ↦ inr (inl (ground arith))
    | inr f ↦ inr (inr (ground arith))
  ]
]

not_hex : (c : ℕ) → ¬ IsHexByte c → not (is_hex c) ≡ true
not_hex c h = elim (Bool-cases (is_hex c)) [
  | inl e ↦ absurd (h (is_hex-IsHexByte c e))
  | inr e ↦ rw e
]

All-all_hex : (run : Bytes) → All IsHexByte run → all_hex run ≡ true
unfolding all_hex
All-all_hex [] h = refl
All-all_hex (c ∷ run) h = ground (arith, IsHexByte-is_hex c h.0, All-all_hex run h.1)

In-has_digit : (run : Bytes) (d : ℕ) → In d run → b'0' ≤ d → d ≤ b'9' → has_digit run ≡ true
unfolding has_digit
In-has_digit [] d i l u = absurd i
In-has_digit (c ∷ run) d i l u = elim i [
  | inl e ↦ ground arith
  | inr j ↦ ground (arith, In-has_digit run d j l u)
]

IsId-Collapses : (run : Bytes) → IsId run → Collapses run
unfolding is_id
IsId-Collapses run i = record {
  hex = All-all_hex run i.hex;
  collapses = elim i.varies [
    | inl long ↦ ground arith
    | inr (d, found, l, u) ↦ ground (arith, In-has_digit run d found l u)
  ];
}

EndsApart-ends_apart : (s : Bytes) → EndsApart s → ends_apart s ≡ true
unfolding ends_apart
EndsApart-ends_apart [] h = refl
EndsApart-ends_apart (c ∷ []) h = not_hex c h
EndsApart-ends_apart (c ∷ d ∷ s) h = EndsApart-ends_apart (d ∷ s) h

StartsApart-starts_apart : (s : Bytes) → StartsApart s → starts_apart s ≡ true
unfolding starts_apart
StartsApart-starts_apart [] h = refl
StartsApart-starts_apart (c ∷ s) h = not_hex c h

-- Two messages that differ in one number or identifier, with other bytes around it, have the same
-- fingerprint, which is returned for both, whatever the hash function is.
pub fingerprint_shared :
    (fnv : Bytes → ℕ) (pre a b post : Bytes)
    → IsId a
    → IsId b
    → EndsApart pre
    → StartsApart post
    → (h : ℕ) × (fingerprint fnv (pre ++ (a ++ post)) ≡ some h)
      × (fingerprint fnv (pre ++ (b ++ post)) ≡ some h)
fingerprint_shared fnv pre a b post id_a id_b clear apart =
    fingerprint_both a b post (IsId-Collapses a id_a) (IsId-Collapses b id_b)
      (StartsApart-starts_apart post apart) fnv pre (EndsApart-ends_apart pre clear)
