-- ===== src/Deliver/Queue.antt =====
-- The delivery queue: its rows and the queries on them,
-- back/internal/storage/pg/queries/delivery.sql.
use upcontrol.Prelude.{
  ℕ, zero, suc, ◌+◌, String, Bool, true, false, ◌&&◌, ◌||◌, not, List, [], ◌∷◌, Option, some, ◌==◌,
  leb, if◌then◌else◌,
}
use upcontrol.Incident.Store.{Class, update_where}

-- AlertPayload, with the fields that the worker reads or writes.
pub record AlertPayload : Type 0 where
  pub title : String
  pub status : String
  pub monitor_name : String
  pub summary : String
  pub class : Option Class
  pub buttons : Bool
  pub group : Bool

pub data ItemState : Type 0 where
  pending sent dead : ItemState

pub data Detail : Type 0 where
  send_error : String → Detail
  http : ℕ → Detail

-- Why a delivery went dead: the texts of the source.
pub data DeadReason : Type 0 where
  channel_not_found project_frozen no_email_channel followup_without_incident incident_not_found
        closed_unmeasured max_retries :
      DeadReason
  no_sender : String → DeadReason
  refused : Detail → DeadReason

-- A row of delivery_queue. `payload` is what json.Unmarshal makes of the column.
pub record Item : Type 0 where
  pub id : ℕ
  pub incident_id : Option ℕ
  pub channel_id : ℕ
  pub class : Class
  pub payload : AlertPayload
  pub attempts : ℕ
  pub state : ItemState
  pub dead_reason : Option DeadReason
  pub leased : Bool
  pub next_try : ℕ

-- The queries that end a delivery's turn.
unfoldable pub mark_delivered : ℕ → List Item → List Item
unfolding update_where
mark_delivered id is =
    update_where (λ i. i.id == id)
      (λ i. record i { state = sent; leased = false; attempts = i.attempts + 1 }) is

unfoldable pub mark_dead : DeadReason → ℕ → List Item → List Item
unfolding update_where
mark_dead reason id is =
    update_where (λ i. i.id == id)
      (λ i. record i {
        state = dead;
        dead_reason = some reason;
        leased = false;
        attempts = i.attempts + 1;
      })
      is

unfoldable pub reschedule : ℕ → ℕ → List Item → List Item
unfolding update_where
reschedule next id is =
    update_where (λ i. i.id == id)
      (λ i. record i { leased = false; attempts = i.attempts + 1; next_try = next }) is

-- LeasePendingDeliveries: the due rows without a lease, the earliest first, at most `limit`.
unfoldable pub is_due : ℕ → Item → Bool
is_due now i = elim i.state [ pending ↦ not i.leased && leb i.next_try now | _ ↦ false ]

unfoldable pub insert : Item → List Item → List Item
insert i [] = i ∷ []
insert i (j ∷ js) = if leb i.next_try j.next_try then i ∷ j ∷ js else j ∷ insert i js

unfoldable pub due_rows : ℕ → List Item → List Item
unfolding is_due insert
due_rows now [] = []
due_rows now (i ∷ is) = if is_due now i then insert i (due_rows now is) else due_rows now is

unfoldable pub first : ℕ → List Item → List Item
first zero is = []
first (suc n) [] = []
first (suc n) (i ∷ is) = i ∷ first n is

abbrev pub has_id : ℕ → List Item → Bool
has_id id [] = false
has_id id (i ∷ is) = (i.id == id) || has_id id is

unfoldable pub lease_pending_deliveries : ℕ → ℕ → List Item → List Item × List Item
unfolding due_rows first update_where
lease_pending_deliveries now limit is =
    let taken = first limit (due_rows now is) in
    (taken, update_where (λ i. has_id i.id taken) (λ i. record i { leased = true }) is)
