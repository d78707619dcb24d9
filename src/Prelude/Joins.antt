-- ===== src/Prelude/Joins.antt =====
-- Texts joined end to end: what runs, prefixes and suffixes of the whole are.
use Prim.Native.Nat.{ℕ, zero, suc, ◌+◌, ◌≤◌, ◌<◌}
use mathlib.Core.Path.{◌≡◌, refl, ap}
use mathlib.Core.Bool.{Bool}
use mathlib.Core.List.{[], ◌∷◌, ◌++◌}
use native.Mathlib.Nat.{zero-add, suc-add}
use native.Mathlib.Omega.{arith}
use upcontrol.Prelude.Lists.{length}
use upcontrol.Prelude.Bytes.{Bytes, take, drop, span}

pub span-append_stop :
    (p : ℕ → Bool) (s t : Bytes) → span p s < length s → span p (s ++ t) ≡ span p s
unfolding span
span-append_stop p [] t h = absurd (omega arith)
span-append_stop p (c ∷ s) t h = ground (arith, span-append_stop p s t)

pub span-append_all :
    (p : ℕ → Bool) (s t : Bytes) → length s ≤ span p s → span p (s ++ t) ≡ length s + span p t
unfolding span
span-append_all p [] t h = omega arith
span-append_all p (c ∷ s) t h = ground (arith, span-append_all p s t)

pub drop-append : (n : ℕ) (s t : Bytes) → n ≤ length s → drop n (s ++ t) ≡ drop n s ++ t
unfolding drop
drop-append zero s t h = refl
drop-append (suc n) [] t h = absurd (omega arith)
drop-append (suc n) (c ∷ s) t h = drop-append n s t (omega arith)

pub drop-append_past : (n : ℕ) (s t : Bytes) → drop (length s + n) (s ++ t) ≡ drop n t
unfolding drop
drop-append_past n [] t = rw zero-add
drop-append_past n (c ∷ s) t = rw suc-add (drop-append_past n s t)

pub take-append_all : (s t : Bytes) → take (length s) (s ++ t) ≡ s
unfolding take
take-append_all [] t = refl
take-append_all (c ∷ s) t = ap (λ u. c ∷ u) (take-append_all s t)

pub drop-append_all : (s t : Bytes) → drop (length s) (s ++ t) ≡ t
unfolding drop
drop-append_all [] t = refl
drop-append_all (c ∷ s) t = drop-append_all s t

pub take-append : (n : ℕ) (s t : Bytes) → n ≤ length s → take n (s ++ t) ≡ take n s
unfolding take
take-append zero s t h = refl
take-append (suc n) [] t h = absurd (omega arith)
take-append (suc n) (c ∷ s) t h = ap (λ u. c ∷ u) (take-append n s t (omega arith))

pub length-drop-le : (n : ℕ) (s : Bytes) → length (drop n s) ≤ length s
unfolding drop
length-drop-le zero s = omega arith
length-drop-le (suc n) [] = omega arith
length-drop-le (suc n) (c ∷ s) = omega (arith, length-drop-le n s)
