-- ===== src/Incident/Notify.antt =====
-- Who is told of an incident: notifyChannels of back/internal/incident/incident.go.
pub mod Audience
use upcontrol.Prelude.{
  ℕ, ◌+◌, String, str_eq, Bool, true, false, ◌&&◌, ◌||◌, not, List, [], ◌∷◌, map, Option, none,
  some, ◌==◌, is_some, if◌then◌else◌,
}
use upcontrol.Channel.Settings.{Settings}
use upcontrol.Incident.Seats.{Channel, Entitlement, muted_by_plan}
use upcontrol.Incident.Store.{
  Db, Tables, Faults, AlertChannel, Delivery, page, followup, enqueue_delivery,
  touch_incident_notified,
}

-- An incident's side of a notification; the payloads are text for the channel and are left out.
pub record NotifySpec : Type 0 where
  pub incident_id : ℕ
  pub wants : Settings → Bool
  pub has_followup : Bool

unfoldable pub elem : ℕ → List ℕ → Bool
elem x [] = false
elem x (y ∷ ys) = (x == y) || elem x ys

-- GetTenantPlan and GetPlanEntitlement, as far as they succeed.
abbrev pub entitlement_of : Tables → Faults → ℕ → Option Entitlement
entitlement_of tables faults tenant = if faults.plan then none else elim (tables.plans tenant) [
  | none ↦ none
  | some plan ↦ if faults.entitlement then none else tables.entitlements plan
]

-- The plan that the follow-up needs; "" when it is unknown or not asked for.
abbrev pub followup_plan : Tables → Faults → ℕ → NotifySpec → String
followup_plan tables faults tenant n =
    if n.has_followup && not faults.plan
    then elim (tables.plans tenant) [ none ↦ "" | some plan ↦ plan ]
    else ""

abbrev pub is_paid : String → Bool
is_paid plan = not (str_eq plan "") && not (str_eq plan "Free")

unfoldable pub send_page : Faults → NotifySpec → AlertChannel → Db × ℕ → Db × ℕ
send_page faults n ch (db, sent) = if faults.enqueue then (db, sent) else (
  enqueue_delivery db
      (record { incident_id = n.incident_id; channel_id = ch.channel.id; class = page }),
  sent + 1,
)

unfoldable pub send_followup : Faults → NotifySpec → String → AlertChannel → Db × ℕ → Db × ℕ
send_followup faults n plan ch (db, sent) =
    if (n.has_followup && (ch.notify.resolve_follow_up && is_paid plan)) && not faults.enqueue_at
    then (
      enqueue_delivery db
          (record { incident_id = n.incident_id; channel_id = ch.channel.id; class = followup }),
      sent,
    )
    else (db, sent)

-- One round of the loop over the channels; the number counts the pages that were queued.
unfoldable pub notify_one : Faults → NotifySpec → String → List ℕ → AlertChannel → Db × ℕ → Db × ℕ
unfolding send_page send_followup
notify_one faults n plan muted ch (db, sent) =
    if elem ch.channel.id muted
    then (db, sent)
    else if not (n.wants ch.notify)
    then (db, sent)
    else send_followup faults n plan ch (send_page faults n ch (db, sent))

unfoldable pub notify_all :
    Faults → NotifySpec → String → List ℕ → List AlertChannel → Db × ℕ → Db × ℕ
unfolding notify_one
notify_all faults n plan muted [] acc = acc
notify_all faults n plan muted (ch ∷ chs) acc =
    notify_all faults n plan muted chs (notify_one faults n plan muted ch acc)

unfoldable pub mark_sent : Faults → ℕ → Db × ℕ → Db
mark_sent faults id (db, sent) =
    if sent == 0 || faults.mark then db else touch_incident_notified db id

unfoldable pub notify_channels : Tables → Faults → ℕ → ℕ → NotifySpec → Db → Db
unfolding notify_all mark_sent elem muted_by_plan enqueue_delivery touch_incident_notified
notify_channels tables faults tenant project n db =
    if not faults.frozen && tables.frozen project
    then db
    else if faults.channels
    then db
    else (let chans = tables.channels project in
        let muted =
          muted_by_plan (entitlement_of tables faults tenant) (map (λ c. c.channel) chans) in
        mark_sent faults n.incident_id
          (notify_all faults n (followup_plan tables faults tenant n) muted chans (db, 0)))
