-- ===== src/Deliver/Worker.antt =====
-- The delivery worker, back/internal/deliver/worker.go.
pub mod Decide
pub mod Turn
pub mod Lease
pub mod Stranded
use Prim.Native.String.{◌++◌ as concat}
use upcontrol.Prelude.{
  ℕ, zero, suc, ◌+◌, String, str_eq, Bool, true, false, ◌&&◌, ◌||◌, not, List, [], ◌∷◌, Option,
  none, some, ℤ, pos, ◌==◌, ltb, leb, is_some, is_zero, if◌then◌else◌,
}
use upcontrol.Incident.Store.{Class, page, followup, ticket, test, same_class, update_where}
use upcontrol.Deliver.Queue.{
  AlertPayload, Item, ItemState, pending, sent, dead, Detail, send_error, http, DeadReason,
  channel_not_found, project_frozen, no_email_channel, followup_without_incident,
  incident_not_found, closed_unmeasured, max_retries, no_sender, refused, mark_delivered, mark_dead,
  reschedule, lease_pending_deliveries,
}
use upcontrol.Deliver.Retry.{SendOutcome, ok, retryable, fatal, classify_error, next_try_at}
use upcontrol.Deliver.Breaker.{Breaker, is_open, record_success, record_failure}

pub record ChannelRow : Type 0 where
  pub kind : String
  pub target : String
  pub project_id : ℕ
  pub frozen : Bool
  pub muted_until : Option ℕ
  pub recipient_person_id : Option ℕ

pub record FollowUp : Type 0 where
  pub status : String
  pub monitor_name : String
  pub close_reason : Option String
  pub detected_at : Option ℕ
  pub resolved_at : Option ℕ

pub data SendResult : Type 0 where
  failed : String → SendResult
  answered : ℕ → SendResult

-- What the worker asks of others: the other tables' rows (none: no row or a failed query), the
-- registered senders, what a send returns, the duration line, the random jitter.
pub record World : Type 0 where
  pub channel : ℕ → Option ChannelRow
  pub email_target : ℕ → Option String
  pub incident : ℕ → Option FollowUp
  pub has_sender : String → Bool
  pub send : String → String → AlertPayload → SendResult
  pub down_for_line : ℕ → ℕ → String
  pub rand : ℕ → ℕ

-- The times that the worker reads the clock, in this order.
pub record Clock : Type 0 where
  pub at_breaker : ℕ
  pub at_mute : ℕ
  pub at_outcome : ℕ

pub record Worker : Type 0 where
  pub items : List Item
  pub attempts : List (ℕ × SendOutcome × Detail)
  pub breakers : ℕ → Breaker

-- The kind and the target to send to: the channel's, or its project's email channel while the
-- breaker is open.
unfoldable pub route : World → ChannelRow → Bool → Option (String × String)
route w ch tripped =
    if tripped && not (str_eq ch.kind "email")
    then elim (w.email_target ch.project_id) [
      | none ↦ none
      | some t ↦ if str_eq t "" then none else some ("email", t)
    ]
    else some (ch.kind, ch.target)

pub data Decision : Type 0 where
  drop : DeadReason → Decision
  defer : ℕ → Decision
  deliver : String → String → AlertPayload → Decision

-- The class and, for telegram, the buttons.
abbrev pub addressed : String → ChannelRow → Item → AlertPayload
addressed kind ch item =
    let p : AlertPayload = record item.payload { class = some item.class } in
    if str_eq kind "telegram"
    then record p { buttons = true; group = not (is_some ch.recipient_person_id) }
    else p

abbrev pub plan_paused : Option String → Bool
plan_paused none = false
plan_paused (some r) = str_eq r "plan_paused"

abbrev duration_line : World → FollowUp → String → String
duration_line w inc old = elim inc.detected_at [
  | none ↦ old
  | some a ↦ elim inc.resolved_at [ none ↦ old | some b ↦ w.down_for_line a b ]
]

-- What a follow-up says, from the incident's state at the time of the send.
abbrev pub follow_up : World → FollowUp → AlertPayload → AlertPayload
follow_up w inc p =
    let name = if str_eq p.monitor_name "" then inc.monitor_name else p.monitor_name in
    if str_eq inc.status "ok"
    then record p {
      title = concat name " recovered — it is back up";
      status = "ok";
      buttons = false;
      summary = duration_line w inc p.summary;
    }
    else record p { title = concat name " is still down after 15 minutes"; status = "down" }

-- The message of a follow-up, or why there is none.
unfoldable pub compose_follow_up :
    World → String → String → AlertPayload → Option FollowUp → Decision
compose_follow_up w kind target p none = drop incident_not_found
compose_follow_up w kind target p (some inc) =
    if plan_paused inc.close_reason
    then drop closed_unmeasured
    else deliver kind target (follow_up w inc p)

unfoldable pub compose : World → String → String → ChannelRow → Item → Decision
unfolding compose_follow_up
compose w kind target ch item =
    let p = addressed kind ch item in
    if same_class item.class followup
    then elim item.incident_id [
      | none ↦ drop followup_without_incident
      | some id ↦ compose_follow_up w kind target p (w.incident id)
    ]
    else deliver kind target p

abbrev pub muted_past : Option ℕ → ℕ → Bool
muted_past none now = false
muted_past (some t) now = ltb now t

abbrev pub until : Option ℕ → ℕ
until none = 0
until (some t) = t

unfoldable pub decide_routed :
    World → Clock → ChannelRow → Item → Option (String × String) → Decision
unfolding compose
decide_routed w clock ch item none = drop no_email_channel
decide_routed w clock ch item (some (kind, target)) =
    if not (w.has_sender kind)
    then drop (no_sender kind)
    else if muted_past ch.muted_until clock.at_mute
    then defer (until ch.muted_until)
    else compose w kind target ch item

-- What becomes of a leased delivery, before anything is sent.
unfoldable pub decide : World → Clock → Breaker → Item → Option ChannelRow → Decision
unfolding decide_routed route
decide w clock b item none = drop channel_not_found
decide w clock b item (some ch) =
    if ch.frozen && not (same_class item.class test)
    then drop project_frozen
    else decide_routed w clock ch item (route w ch (is_open b clock.at_breaker))

abbrev pub outcome_of : SendResult → SendOutcome
outcome_of (failed text) = retryable
outcome_of (answered code) = classify_error code

abbrev pub detail_of : SendResult → Detail
detail_of (failed text) = send_error text
detail_of (answered code) = http code

abbrev pub set_breaker : ℕ → Breaker → (ℕ → Breaker) → ℕ → Breaker
set_breaker c b breakers k = if k == c then b else breakers k

-- The row after a send that ended in `outcome`.
unfoldable pub settle_rows : World → ℕ → Item → SendOutcome → Detail → List Item → List Item
unfolding mark_delivered mark_dead reschedule next_try_at
settle_rows w now item ok detail is = mark_delivered item.id is
settle_rows w now item fatal detail is = mark_dead (refused detail) item.id is
settle_rows w now item retryable detail is =
    let next = next_try_at w.rand (pos (item.attempts + 1)) retryable now in
    if is_zero next then mark_dead max_retries item.id is else reschedule next item.id is

abbrev pub settle_breaker : SendOutcome → ℕ → Breaker → Breaker
settle_breaker ok now b = record_success b
settle_breaker _ now b = record_failure b now

unfoldable pub settle : World → ℕ → Item → SendResult → Worker → Worker
unfolding settle_rows
settle w now item result s = record {
  items = settle_rows w now item (outcome_of result) (detail_of result) s.items;
  attempts = (item.id, outcome_of result, detail_of result) ∷ s.attempts;
  breakers =
      set_breaker item.channel_id
        (settle_breaker (outcome_of result) now (s.breakers item.channel_id)) s.breakers;
}

unfoldable pub carry_out : World → ℕ → Item → Decision → Worker → Worker
unfolding settle
carry_out w now item (drop reason) s = record s { items = mark_dead reason item.id s.items }
carry_out w now item (defer next) s = record s { items = reschedule next item.id s.items }
carry_out w now item (deliver kind target p) s = settle w now item (w.send kind target p) s

unfoldable pub process_item : World → Clock → Item → Worker → Worker
unfolding decide carry_out
process_item w clock item s =
    carry_out w clock.at_outcome item
      (decide w clock (s.breakers item.channel_id) item (w.channel item.channel_id)) s

unfoldable pub process_all : World → Clock → List Item → Worker → Worker
unfolding process_item
process_all w clock [] s = s
process_all w clock (i ∷ is) s = process_all w clock is (process_item w clock i s)

abbrev pub batch_size : ℕ
batch_size = 20

-- `none` is a failed lease, which changes nothing.
unfoldable pub tick : World → Clock → Option ℕ → Worker → Worker
unfolding process_all lease_pending_deliveries
tick w clock none s = s
tick w clock (some now) s =
    let (taken, rows) = lease_pending_deliveries now batch_size s.items in
    process_all w clock taken (record s { items = rows })
