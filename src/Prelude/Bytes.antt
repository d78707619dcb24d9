-- ===== src/Prelude/Bytes.antt =====
-- Go strings as lists of bytes, with the functions of package strings and strconv that the code
-- uses on them. The texts of the source are ASCII, so their code points are their bytes.
use Prim.Native.Nat.{ℕ, zero, suc, ◌+◌, ◌/◌, ◌%◌, ◌≤◌, ◌<◌}
use Prim.Native.Char.{code}
use Prim.Native.String.{String}
use mathlib.Core.Path.{◌≡◌, refl, ap}
use mathlib.Core.Logic.{inl, inr}
use mathlib.Core.Bool.{Bool, true, false, ◌&&◌, ◌||◌}
use mathlib.Core.Option.{Option, none, some}
use mathlib.Core.List.{List, [], ◌∷◌, ◌++◌}
use native.Mathlib.Omega.{arith}
use upcontrol.Prelude.Tests.{Bool-cases, ltb, leb, ◌==◌, if◌then◌else◌, is_some, is_empty}
use upcontrol.Prelude.Lists.{length}

abbrev pub Bytes : Type 0
Bytes = List ℕ

abbrev pub codes : String → Bytes
codes String.[] = []
codes (String.◌∷◌ c s) = code c ∷ codes s

abbrev pub newline : ℕ
newline = 10

module _ {A : Type 0} where
  -- `s[:n]` and `s[n:]`.
  unfoldable pub take : ℕ → List A → List A
  take zero s = []
  take (suc n) [] = []
  take (suc n) (c ∷ s) = c ∷ take n s

  unfoldable pub drop : ℕ → List A → List A
  drop zero s = s
  drop (suc n) [] = []
  drop (suc n) (c ∷ s) = drop n s

  abbrev pub get_elem? : List A → ℕ → Option A
  get_elem? [] i = none
  get_elem? (c ∷ s) zero = some c
  get_elem? (c ∷ s) (suc i) = get_elem? s i

  pub length-drop : (n : ℕ) (s : List A) → n ≤ length s → length (drop n s) + n ≡ length s
  unfolding drop
  length-drop zero s h = omega arith
  length-drop (suc n) [] h = absurd (omega arith)
  length-drop (suc n) (c ∷ s) h = omega (arith, length-drop n s (omega arith))

  pub length-take : (n : ℕ) (s : List A) → n ≤ length s → length (take n s) ≡ n
  unfolding take
  length-take zero s h = refl
  length-take (suc n) [] h = absurd (omega arith)
  length-take (suc n) (c ∷ s) h = omega (arith, length-take n s (omega arith))

  pub take-append-drop : (n : ℕ) (s : List A) → take n s ++ drop n s ≡ s
  unfolding take drop
  take-append-drop zero s = refl
  take-append-drop (suc n) [] = refl
  take-append-drop (suc n) (c ∷ s) = ap (λ t. c ∷ t) (take-append-drop n s)

abbrev pub bump : Option ℕ → Option ℕ
bump none = none
bump (some n) = some (suc n)

-- strings.HasPrefix
unfoldable pub has_prefix : Bytes → Bytes → Bool
has_prefix s [] = true
has_prefix [] (d ∷ p) = false
has_prefix (c ∷ s) (d ∷ p) = c == d && has_prefix s p

-- strings.IndexByte
unfoldable pub index_byte : Bytes → ℕ → Option ℕ
index_byte [] d = none
index_byte (c ∷ s) d = if c == d then some 0 else bump (index_byte s d)

-- strings.Index
unfoldable pub index : Bytes → Bytes → Option ℕ
index [] p = if has_prefix [] p then some 0 else none
index (c ∷ s) p = if has_prefix (c ∷ s) p then some 0 else bump (index s p)

-- strings.Contains
unfoldable pub contains : Bytes → Bytes → Bool
unfolding index
contains s p = is_some (index s p)

-- How far `for j < len(s) && p(s[j]) { j++ }` goes.
unfoldable pub span : (ℕ → Bool) → Bytes → ℕ
span p [] = 0
span p (c ∷ s) = if p c then suc (span p s) else 0

abbrev pub between : ℕ → ℕ → ℕ → Bool
between lo hi c = leb lo c && leb c hi

-- The bytes that strings.TrimSpace takes off both ends.
unfoldable pub is_blank : ℕ → Bool
is_blank c = c == b' ' || between 9 13 c

unfoldable pub trim_left : (ℕ → Bool) → Bytes → Bytes
trim_left p [] = []
trim_left p (c ∷ s) = if p c then trim_left p s else c ∷ s

unfoldable pub trim_right : (ℕ → Bool) → Bytes → Bytes
trim_right p [] = []
trim_right p (c ∷ s) = let rest = trim_right p s in if is_empty rest && p c then [] else c ∷ rest

-- strings.TrimSpace
unfoldable pub trim_space : Bytes → Bytes
unfolding trim_left trim_right is_blank
trim_space s = trim_right is_blank (trim_left is_blank s)

extend : ℕ → List Bytes → List Bytes
extend c [] = (c ∷ []) ∷ []
extend c (p ∷ ps) = (c ∷ p) ∷ ps

-- strings.Split at one byte.
unfoldable pub split_byte : ℕ → Bytes → List Bytes
unfolding extend
split_byte d [] = [] ∷ []
split_byte d (c ∷ s) = let rest = split_byte d s in if c == d then [] ∷ rest else extend c rest

itoa_from : ℕ → ℕ → Bytes → Bytes
itoa_from zero n out = out
itoa_from (suc f) n out =
    let higher = itoa_from f (n / 10) ((b'0' + n % 10) ∷ out) in
    if ltb n 10 then (b'0' + n) ∷ out else higher

-- strconv.Itoa of a number that is not negative. A number has fewer digits than its successor
-- counts.
unfoldable pub itoa : ℕ → Bytes
unfolding itoa_from
itoa n = itoa_from (suc n) n []

pub has_prefix-le-length : (s p : Bytes) → has_prefix s p ≡ true → length p ≤ length s
unfolding has_prefix
has_prefix-le-length s [] h = omega arith
has_prefix-le-length [] (d ∷ p) h = cc
has_prefix-le-length (c ∷ s) (d ∷ p) h = ground (arith, has_prefix-le-length s p)

bump-eq_some : (o : Option ℕ) {k : ℕ} → bump o ≡ some k → (j : ℕ) × (o ≡ some j) × (k ≡ suc j)
bump-eq_some none h = cc
bump-eq_some (some j) h = (j, refl, cc)

pub index_byte-lt-length : (s : Bytes) (d : ℕ) {k : ℕ} → index_byte s d ≡ some k → k < length s
unfolding index_byte
index_byte-lt-length [] d h = cc
index_byte-lt-length (c ∷ s) d h = elim (Bool-cases (c == d)) [
  | inl e ↦ ground arith
  | inr e ↦
      let (j, found, moved) = bump-eq_some (index_byte s d) (rw e at h) in
      omega (arith, index_byte-lt-length s d found)
]

pub index-le-length : (s p : Bytes) {k : ℕ} → index s p ≡ some k → k + length p ≤ length s
unfolding index
index-le-length [] p h = ground (arith, has_prefix-le-length [] p)
index-le-length (c ∷ s) p h = elim (Bool-cases (has_prefix (c ∷ s) p)) [
  | inl e ↦ ground (arith, has_prefix-le-length (c ∷ s) p)
  | inr e ↦
      let (j, found, moved) = bump-eq_some (index s p) (rw e at h) in
      omega (arith, index-le-length s p found)
]

pub span-le-length : (p : ℕ → Bool) (s : Bytes) → span p s ≤ length s
unfolding span
span-le-length p [] = omega arith
span-le-length p (c ∷ s) = ground (arith, span-le-length p s)
