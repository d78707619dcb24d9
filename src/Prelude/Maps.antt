-- ===== src/Prelude/Maps.antt =====
-- A Go map with string keys as an association list: `m[k]`, and `m[k] = v`.
use Prim.Native.String.{String}
use text.Mathlib.Text.{◌==◌ as str_eq}
use text.Mathlib.TextEquality.{eq_iff}
use mathlib.Core.Path.{◌≡◌, refl, sym, subst}
use mathlib.Core.Option.{Option, none, some}
use mathlib.Core.Logic.{◌⊎◌, inl, inr}
use mathlib.Core.List.{List, [], ◌∷◌}
use native.Mathlib.Omega.{arith}
use upcontrol.Prelude.Tests.{Bool-cases, if◌then◌else◌}
use upcontrol.Prelude.Lists.{In, IsDistinct}

abbrev pub Dict {ℓ} : Type ℓ → Type ℓ
Dict V = List (String × V)

module _ {ℓ} {V : Type ℓ} where
  unfoldable pub get : Dict V → String → Option V
  get [] k = none
  get ((j, v) ∷ m) k = if str_eq j k then some v else get m k

  unfoldable pub put : Dict V → String → V → Dict V
  put [] k v = (k, v) ∷ []
  put ((j, w) ∷ m) k v = if str_eq j k then (k, v) ∷ m else (j, w) ∷ put m k v

  pub get-put :
      (m : Dict V) (k j : String) (v : V)
      → get (put m k v) j ≡ (if str_eq k j then some v else get m j)
  unfolding get put
  get-put [] k j v = refl
  get-put ((i, w) ∷ m) k j v = ground (arith, eq_iff k j, eq_iff i k, eq_iff i j, get-put m k j v)

  abbrev pub keys : Dict V → List String
  keys [] = []
  keys ((k, _) ∷ m) = k ∷ keys m

  pub get_absent : (m : Dict V) (k : String) → ¬ In k (keys m) → get m k ≡ none
  unfolding get
  get_absent [] k n = refl
  get_absent ((j, v) ∷ m) k n = elim (Bool-cases (str_eq j k)) [
    | inl e ↦ absurd (n (inl (sym ((eq_iff j k).0 e))))
    | inr e ↦ rw e (get_absent m k (λ i. n (inr i)))
  ]

  pub In-keys-put :
      (m : Dict V) (k j : String) (v : V) → In j (keys (put m k v)) → (j ≡ k) ⊎ In j (keys m)
  unfolding put
  In-keys-put [] k j v (inl e) = inl e
  In-keys-put [] k j v (inr i) = absurd i
  In-keys-put ((i, w) ∷ m) k j v h = elim (Bool-cases (str_eq i k)) [
    | inl e ↦
        let h' : In j (k ∷ keys m) =
          subst (λ b. In j (keys (if b then (k, v) ∷ m else (i, w) ∷ put m k v))) e h in
        elim h' [ inl q ↦ inl q | inr q ↦ inr (inr q) ]
    | inr e ↦
        let h' : In j (i ∷ keys (put m k v)) =
          subst (λ b. In j (keys (if b then (k, v) ∷ m else (i, w) ∷ put m k v))) e h in
        elim h' [
          | inl q ↦ inr (inl q)
          | inr q ↦ elim (In-keys-put m k j v q) [ inl r ↦ inl r | inr r ↦ inr (inr r) ]
        ]
  ]

  -- A write keeps the keys distinct.
  pub keys-put-IsDistinct :
      (m : Dict V) (k : String) (v : V) → IsDistinct (keys m) → IsDistinct (keys (put m k v))
  unfolding put
  keys-put-IsDistinct [] k v d = (λ i. i, tt)
  keys-put-IsDistinct ((j, w) ∷ m) k v d = elim (Bool-cases (str_eq j k)) [
    | inl e ↦ rw e (subst (λ (i : String). ¬ In i (keys m)) ((eq_iff j k).0 e) d.0, d.1)
    | inr e ↦ rw e (
      λ i. elim (In-keys-put m k j v i) [ inl q ↦ ground (arith, eq_iff j k) | inr q ↦ d.0 q ],
      keys-put-IsDistinct m k v d.1,
    )
  ]
