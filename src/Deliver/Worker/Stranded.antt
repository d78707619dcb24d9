-- ===== src/Deliver/Worker/Stranded.antt =====
-- What a tick does to a row that has a lease: Tick, back/internal/deliver/worker.go, and
-- LeasePendingDeliveries, back/internal/storage/pg/queries/delivery.sql.
use upcontrol.Prelude.{
  ℕ, ◌≡◌, refl, sym, ◌∙◌, ap, subst, inl, inr, true, false, ◌&&◌, not, List, [], ◌∷◌, Option, none,
  some, arith, ◌==◌, leb, In, IsDistinct, Bool-cases, if◌then◌else◌,
}
use upcontrol.Incident.Store.{update_where}
use upcontrol.Deliver.Queue.{Item, ItemState, pending, is_due, due_rows, first, has_id}
use upcontrol.Deliver.Worker.{World, Clock, Worker, process_item, process_all, tick, batch_size}
use upcontrol.Deliver.Worker.Turn.{IsTurn, process_item-IsTurn}
use upcontrol.Deliver.Worker.Lease.{In-first, In-due_rows}

-- The ids of the rows.
abbrev pub ids : List Item → List ℕ
ids [] = []
ids (i ∷ is) = i.id ∷ ids is

turn_keeps :
    (id : ℕ) (is js : List Item) (r : Item)
    → IsTurn id is js
    → In r is
    → (r.id == id) ≡ false
    → In r js
turn_keeps id [] js r t h e = absurd h
turn_keeps id (i ∷ is) [] r t h e = absurd t
turn_keeps id (i ∷ is) (j ∷ js) r (step, rest) (inl q) e = elim step [
  | inl (a, b) ↦ ground (arith, sym (ap (λ x. x.id == id) q) ∙ e, a)
  | inr (a, b) ↦ inl (q ∙ sym b)
]
turn_keeps id (i ∷ is) (j ∷ js) r (step, rest) (inr h) e = inr (turn_keeps id is js r rest h e)

process_all_keeps :
    (w : World) (clock : Clock) (taken : List Item) (s : Worker) (r : Item)
    → In r s.items
    → has_id r.id taken ≡ false
    → In r (process_all w clock taken s).items
unfolding process_all
process_all_keeps w clock [] s r h e = h
process_all_keeps w clock (i ∷ is) s r h e =
    process_all_keeps w clock is (process_item w clock i s) r
      (turn_keeps i.id s.items _ r (process_item-IsTurn w clock i s) h (ground (arith, e)))
      (ground (arith, e))

has_id-In : (id : ℕ) (is : List Item) → has_id id is ≡ true → (i : Item) × In i is × (i.id ≡ id)
has_id-In id [] h = ground (arith, h)
has_id-In id (i ∷ is) h = elim (Bool-cases (i.id == id)) [
  | inl e ↦ (i, inl refl, ground (arith, e))
  | inr e ↦ let (k, at, q) = has_id-In id is (ground (arith, h, e)) in (k, inr at, q)
]

In-ids : (is : List Item) (i : Item) → In i is → In i.id (ids is)
In-ids [] i h = absurd h
In-ids (j ∷ js) i (inl q) = inl (ap (λ x. x.id) q)
In-ids (j ∷ js) i (inr h) = inr (In-ids js i h)

same_row :
    (is : List Item) (i r : Item) → IsDistinct (ids is) → In i is → In r is → i.id ≡ r.id → i ≡ r
same_row [] i r d a b e = absurd a
same_row (j ∷ js) i r (alone, d) (inl p) (inl q) e = p ∙ sym q
same_row (j ∷ js) i r (alone, d) (inl p) (inr b) e =
    absurd (alone (subst (λ k. In k (ids js)) (sym e ∙ ap (λ x. x.id) p) (In-ids js r b)))
same_row (j ∷ js) i r (alone, d) (inr a) (inl q) e =
    absurd (alone (subst (λ k. In k (ids js)) (e ∙ ap (λ x. x.id) q) (In-ids js i a)))
same_row (j ∷ js) i r (alone, d) (inr a) (inr b) e = same_row js i r d a b e

due_unleased : (now : ℕ) (i : Item) → is_due now i ≡ true → i.leased ≡ false
unfolding is_due
due_unleased now i e = go i.state e
  where
    go :
        (k : ItemState)
        → elim k [ pending ↦ not i.leased && leb i.next_try now | _ ↦ false ] ≡ true
        → i.leased ≡ false
    go pending e = ground (arith, e)
    go ItemState.sent e = ground (arith, e)
    go ItemState.dead e = ground (arith, e)

marked_keeps :
    (is taken : List Item) (r : Item)
    → In r is
    → has_id r.id taken ≡ false
    → In r (update_where (λ i. has_id i.id taken) (λ i. record i { leased = true }) is)
unfolding update_where
marked_keeps [] taken r h e = absurd h
marked_keeps (i ∷ is) taken r (inl q) e =
    let same : has_id i.id taken ≡ false = sym (ap (λ x. has_id x.id taken) q) ∙ e in
    inl (q ∙ ap (λ b. if b then record i { leased = true } else i) (sym same))
marked_keeps (i ∷ is) taken r (inr h) e = inr (marked_keeps is taken r h e)

untaken :
    (now limit : ℕ) (is : List Item) (r : Item)
    → IsDistinct (ids is)
    → In r is
    → r.leased ≡ true
    → has_id r.id (first limit (due_rows now is)) ≡ false
untaken now limit is r d h l = elim (Bool-cases (has_id r.id (first limit (due_rows now is)))) [
  | inr e ↦ e
  | inl e ↦
      let (i, at, q) = has_id-In r.id (first limit (due_rows now is)) e in
      let (there, due) = In-due_rows now is i (In-first limit (due_rows now is) i at) in
      let same : i ≡ r = same_row is i r d there h q in
      ground (arith, sym (due_unleased now i due) ∙ ap (λ x. x.leased) same, l)
]

-- A row that has a lease is left as it is by a tick, whatever the time and however old the lease is.
pub tick_leased :
    (w : World) (clock : Clock) (lease : Option ℕ) (s : Worker) (r : Item)
    → IsDistinct (ids s.items)
    → In r s.items
    → r.leased ≡ true
    → In r (tick w clock lease s).items
unfolding tick
tick_leased w clock none s r d h l = h
tick_leased w clock (some now) s r d h l =
    let taken = first batch_size (due_rows now s.items) in
    let free = untaken now batch_size s.items r d h l in
    process_all_keeps w clock taken _ r (marked_keeps s.items taken r h free) free
