-- ===== src/Deliver/Worker/Lease.antt =====
-- Which deliveries a tick takes: LeasePendingDeliveries,
-- back/internal/storage/pg/queries/delivery.sql.
use upcontrol.Prelude.{
  ℕ, zero, suc, ◌≤◌, ◌≡◌, refl, ◌∙◌, ap, ◌⊎◌, inl, inr, Bool, true, false, List, [], ◌∷◌, leb, In,
  if◌then◌else◌,
}
use upcontrol.Deliver.Queue.{Item, is_due, insert, due_rows, first}

pub In-first : (n : ℕ) (is : List Item) (i : Item) → In i (first n is) → In i is
unfolding first
In-first zero is i h = absurd h
In-first (suc n) [] i h = absurd h
In-first (suc n) (j ∷ js) i (inl e) = inl e
In-first (suc n) (j ∷ js) i (inr h) = inr (In-first n js i h)

In-insert : (i : Item) (js : List Item) (k : Item) → In k (insert i js) → (k ≡ i) ⊎ In k js
unfolding insert
In-insert i [] k (inl e) = inl e
In-insert i [] k (inr h) = absurd h
In-insert i (j ∷ js) k h = branch (λ t. In-insert i js k t) (leb i.next_try j.next_try) h
  where
    branch :
        (In k (insert i js) → (k ≡ i) ⊎ In k js)
        → (b : Bool) → In k (if b then i ∷ j ∷ js else j ∷ insert i js)
        → (k ≡ i) ⊎ In k (j ∷ js)
    branch later true h = h
    branch later false (inl e) = inr (inl e)
    branch later false (inr h) = elim (later h) [ inl e ↦ inl e | inr t ↦ inr (inr t) ]

pub In-due_rows :
    (now : ℕ) (is : List Item) (k : Item) → In k (due_rows now is) → In k is × (is_due now k ≡ true)
unfolding due_rows
In-due_rows now [] k h = absurd h
In-due_rows now (i ∷ is) k h = branch (λ t. In-due_rows now is k t) (is_due now i) refl h
  where
    branch :
        (In k (due_rows now is) → In k is × (is_due now k ≡ true))
        → (b : Bool) → is_due now i ≡ b
        → In k (if b then insert i (due_rows now is) else due_rows now is)
        → In k (i ∷ is) × (is_due now k ≡ true)
    branch later true d h = elim (In-insert i (due_rows now is) k h) [
      | inl e ↦ (inl e, ap (is_due now) e ∙ d)
      | inr t ↦ let (a, b) = later t in (inr a, b)
    ]
    branch later false d h = let (a, b) = later h in (inr a, b)

-- The earliest first.
abbrev IsSorted : List Item → Type 0
IsSorted [] = Unit
IsSorted (i ∷ is) = ((k : Item) → In k is → i.next_try ≤ k.next_try) × IsSorted is
