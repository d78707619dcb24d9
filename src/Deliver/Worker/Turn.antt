-- ===== src/Deliver/Worker/Turn.antt =====
-- A delivery's turn: processItem on its row, back/internal/deliver/worker.go.
use upcontrol.Prelude.{
  ℕ, ◌+◌, ◌≤◌, ◌≡◌, refl, ◌⊎◌, inl, inr, Bool, true, false, List, [], ◌∷◌, arith, pos, ◌==◌,
  is_zero, leb_ℤ, Bool-cases, ◌&&◌,
}
use upcontrol.Incident.Store.{update_where}
use upcontrol.Deliver.Queue.{Item, pending, Detail, mark_delivered, mark_dead, reschedule}
use upcontrol.Deliver.Retry.{SendOutcome, ok, retryable, fatal, next_try_at, max_attempts}
use upcontrol.Deliver.Worker.{
  World, Clock, Worker, Decision, drop, defer, deliver, decide, carry_out, settle, settle_rows,
  process_item, outcome_of, detail_of,
}

-- How a turn changes the row: one more attempt counted and the lease gone.
abbrev pub IsTurned : Item → Item → Type 0
IsTurned a b =
    (b.id ≡ a.id)
    × (b.attempts ≡ a.attempts + 1)
    × (b.leased ≡ false)
    × (b.class ≡ a.class)
    × (b.channel_id ≡ a.channel_id)

-- The turn of the rows with the id: every other row is is before.
abbrev pub IsTurn : ℕ → List Item → List Item → Type 0
IsTurn id [] js = js ≡ []
IsTurn id (i ∷ is) [] = ⊥
IsTurn id (i ∷ is) (j ∷ js) =
    ((((i.id == id) ≡ true) × IsTurned i j) ⊎ (((i.id == id) ≡ false) × (j ≡ i))) × IsTurn id is js

update-IsTurn :
    (id : ℕ) (f : Item → Item)
    → ((a : Item) → IsTurned a (f a))
    → (is : List Item) → IsTurn id is (update_where (λ k. k.id == id) f is)
unfolding update_where
update-IsTurn id f turned [] = refl
update-IsTurn id f turned (i ∷ is) = (
  elim (Bool-cases (i.id == id)) [
    | inl e ↦ rw e (inl (refl, turned i))
    | inr e ↦ rw e (inr (refl, refl))
  ],
  update-IsTurn id f turned is,
)

settle_rows-IsTurn :
    (w : World) (now : ℕ) (item : Item) (o : SendOutcome) (d : Detail) (is : List Item)
    → IsTurn item.id is (settle_rows w now item o d is)
unfolding settle_rows mark_delivered mark_dead reschedule
settle_rows-IsTurn w now item ok d is =
    update-IsTurn item.id _ (λ a. (refl, refl, refl, refl, refl)) is
settle_rows-IsTurn w now item fatal d is =
    update-IsTurn item.id _ (λ a. (refl, refl, refl, refl, refl)) is
settle_rows-IsTurn w now item retryable d is =
    elim (Bool-cases (is_zero (next_try_at w.rand (pos (item.attempts + 1)) retryable now))) [
      | inl e ↦ rw e (update-IsTurn item.id _ (λ a. (refl, refl, refl, refl, refl)) is)
      | inr e ↦ rw e (update-IsTurn item.id _ (λ a. (refl, refl, refl, refl, refl)) is)
    ]

-- However its turn ends, sent, dead, retried or put off, a delivery's row has one more attempt and
-- no lease, keeps its channel and class, and every other row is as it was.
pub process_item-IsTurn :
    (w : World) (clock : Clock) (item : Item) (s : Worker)
    → IsTurn item.id s.items (process_item w clock item s).items
unfolding process_item carry_out settle mark_dead reschedule
process_item-IsTurn w clock item s =
    carried (decide w clock (s.breakers item.channel_id) item (w.channel item.channel_id))
  where
    carried : (d : Decision) → IsTurn item.id s.items (carry_out w clock.at_outcome item d s).items
    carried (drop reason) = update-IsTurn item.id _ (λ a. (refl, refl, refl, refl, refl)) s.items
    carried (defer next) = update-IsTurn item.id _ (λ a. (refl, refl, refl, refl, refl)) s.items
    carried (deliver kind target p) =
        let r = w.send kind target p in
        settle_rows-IsTurn w clock.at_outcome item (outcome_of r) (detail_of r) s.items

abbrev pub is_pending : Item → Bool
is_pending i = elim i.state [ pending ↦ true | _ ↦ false ]

-- No row with the id is pending.
abbrev pub IsOver : ℕ → List Item → Type 0
IsOver id [] = Unit
IsOver id (i ∷ is) = (((i.id == id) && is_pending i) ≡ false) × IsOver id is

update-IsOver :
    (id : ℕ) (f : Item → Item)
    → ((a : Item) → is_pending (f a) ≡ false)
    → (is : List Item) → IsOver id (update_where (λ i. i.id == id) f is)
unfolding update_where
update-IsOver id f ends [] = tt
update-IsOver id f ends (i ∷ is) = (
  elim (Bool-cases (i.id == id)) [
    | inl e ↦ rw e (ground (arith, ends i))
    | inr e ↦ rw e (ground (arith, e))
  ],
  update-IsOver id f ends is,
)

settle_rows-IsOver :
    (w : World) (now : ℕ) (item : Item) (o : SendOutcome) (d : Detail) (is : List Item)
    → max_attempts ≤ item.attempts + 1
    → IsOver item.id (settle_rows w now item o d is)
unfolding settle_rows mark_delivered mark_dead reschedule next_try_at
settle_rows-IsOver w now item ok d is h = update-IsOver item.id _ (λ a. refl) is
settle_rows-IsOver w now item fatal d is h = update-IsOver item.id _ (λ a. refl) is
settle_rows-IsOver w now item retryable d is h =
    let full : leb_ℤ (pos max_attempts) (pos (item.attempts + 1)) ≡ true = ground (arith, h) in
    rw full (update-IsOver item.id _ (λ a. refl) is)

abbrev pub is_deferral : Decision → Bool
is_deferral (defer next) = true
is_deferral _ = false

-- A turn that counts the fifth attempt or a later one ends the delivery, sent or dead, unless the
-- channel is muted at that time.
pub process_item-IsOver :
    (w : World) (clock : Clock) (item : Item) (s : Worker)
    → max_attempts ≤ item.attempts + 1
    → is_deferral (decide w clock (s.breakers item.channel_id) item (w.channel item.channel_id))
      ≡ false
    → IsOver item.id (process_item w clock item s).items
unfolding process_item carry_out settle mark_dead reschedule
process_item-IsOver w clock item s h =
    carried (decide w clock (s.breakers item.channel_id) item (w.channel item.channel_id))
  where
    carried :
        (d : Decision)
        → is_deferral d ≡ false
        → IsOver item.id (carry_out w clock.at_outcome item d s).items
    carried (drop reason) e = update-IsOver item.id _ (λ a. refl) s.items
    carried (defer next) e = ground (arith, e)
    carried (deliver kind target p) e =
        let r = w.send kind target p in
        settle_rows-IsOver w clock.at_outcome item (outcome_of r) (detail_of r) s.items h
