-- ===== src/Incident/Lifecycle/Quiet.antt =====
-- How the database may change through a notification, the evidence and the interval,
-- back/internal/incident/incident.go.
use upcontrol.Prelude.{
  ℕ, zero, suc, ◌≡◌, refl, ◌∙◌, String, Bool, true, false, ◌&&◌, ◌||◌, not, List, [], ◌∷◌, map,
  none, some, arith, ◌==◌, Bool-cases, inl, inr,
}
use upcontrol.Incident.Store.{
  Incident, SliceLine, Db, Tables, Faults, Delivery, AlertChannel, update_where,
  set_incident_effective_interval, add_incident_slice_line, enqueue_delivery,
  touch_incident_notified,
}
use upcontrol.Incident.Seats.{muted_by_plan}
use upcontrol.Incident.Notify.{
  NotifySpec, is_paid, elem, entitlement_of, followup_plan, notify_channels, notify_all, notify_one,
  mark_sent, send_page, send_followup,
}
use upcontrol.Incident.Lifecycle.{
  Evidence, no_store, query_failed, rows, freeze_slice, add_lines, set_interval,
}

-- An incident without the two marks.
abbrev pub core : Incident → Incident
core i = record i { notified = false; effective_interval_sec = none }

pub record IsQuiet (a b : Db) : Type 0 where
  pub incidents : map core b.incidents ≡ map core a.incidents
  pub updates : b.updates ≡ a.updates

pub IsQuiet-refl : (a : Db) → IsQuiet a a
IsQuiet-refl a = record { incidents = refl; updates = refl }

pub IsQuiet-trans : {a b c : Db} → IsQuiet a b → IsQuiet b c → IsQuiet a c
IsQuiet-trans p q = record {
  incidents = q.incidents ∙ p.incidents;
  updates = q.updates ∙ p.updates;
}

core-update_where :
    (p : Incident → Bool) (f : Incident → Incident)
    → ((i : Incident) → core (f i) ≡ core i)
    → (is : List Incident) → map core (update_where p f is) ≡ map core is
unfolding update_where
core-update_where p f keep [] = refl
core-update_where p f keep (i ∷ is) = elim (Bool-cases (p i)) [
  | inl e ↦ rw e (rw (keep i, core-update_where p f keep is) refl)
  | inr e ↦ rw e (rw (core-update_where p f keep is) refl)
]

touch-IsQuiet : (db : Db) (id : ℕ) → IsQuiet db (touch_incident_notified db id)
unfolding touch_incident_notified
touch-IsQuiet db id = record {
  incidents =
      core-update_where (λ i. i.id == id && not i.notified) (λ i. record i { notified = true })
        (λ i. refl) db.incidents;
  updates = refl;
}

enqueue-IsQuiet : (db : Db) (d : Delivery) → IsQuiet db (enqueue_delivery db d)
unfolding enqueue_delivery
enqueue-IsQuiet db d = ground arith

interval-IsQuiet : (db : Db) (id secs : ℕ) → IsQuiet db (set_incident_effective_interval db id secs)
unfolding set_incident_effective_interval
interval-IsQuiet db id secs = record {
  incidents =
      core-update_where (λ i. i.id == id) (λ i. record i { effective_interval_sec = some secs })
        (λ i. refl) db.incidents;
  updates = refl;
}

pub set_interval-IsQuiet :
    (f : Faults) (id secs : ℕ) (db : Db) → IsQuiet db (set_interval f id secs db)
unfolding set_interval
set_interval-IsQuiet f id zero db = IsQuiet-refl db
set_interval-IsQuiet f id (suc n) db = elim (Bool-cases f.interval) [
  | inl e ↦ rw e (IsQuiet-refl db)
  | inr e ↦ rw e (interval-IsQuiet db id (suc n))
]

line-IsQuiet : (db : Db) (l : SliceLine) → IsQuiet db (add_incident_slice_line db l)
unfolding add_incident_slice_line
line-IsQuiet db l = ground arith

add_lines-IsQuiet : (id : ℕ) (ls : List SliceLine) (db : Db) → IsQuiet db (add_lines id ls db)
unfolding add_lines
add_lines-IsQuiet id [] db = IsQuiet-refl db
add_lines-IsQuiet id (l ∷ ls) db =
    let db' = add_incident_slice_line db (record l { incident_id = id }) in
    IsQuiet-trans (line-IsQuiet db (record l { incident_id = id })) (add_lines-IsQuiet id ls db')

pub freeze_slice-IsQuiet : (e : Evidence) (id : ℕ) (db : Db) → IsQuiet db (freeze_slice e id db)
unfolding freeze_slice
freeze_slice-IsQuiet (rows ls) id db = add_lines-IsQuiet id ls db
freeze_slice-IsQuiet no_store id db = IsQuiet-refl db
freeze_slice-IsQuiet query_failed id db = IsQuiet-refl db

page-IsQuiet :
    (f : Faults) (n : NotifySpec) (ch : AlertChannel) (db : Db) (sent : ℕ)
    → IsQuiet db (send_page f n ch (db, sent)).0
unfolding send_page
page-IsQuiet f n ch db sent = elim (Bool-cases f.enqueue) [
  | inl e ↦ rw e (IsQuiet-refl db)
  | inr e ↦ rw e (enqueue-IsQuiet db _)
]

followup-IsQuiet :
    (f : Faults) (n : NotifySpec) (plan : String) (ch : AlertChannel) (db : Db) (sent : ℕ)
    → IsQuiet db (send_followup f n plan ch (db, sent)).0
unfolding send_followup
followup-IsQuiet f n plan ch db sent =
    elim (Bool-cases
      ((n.has_followup && (ch.notify.resolve_follow_up && is_paid plan)) && not f.enqueue_at)) [
        | inl e ↦ rw e (enqueue-IsQuiet db _)
        | inr e ↦ rw e (IsQuiet-refl db)
      ]

notify_one-IsQuiet :
    (f : Faults) (n : NotifySpec) (plan : String) (muted : List ℕ) (ch : AlertChannel) (db : Db)
    (sent : ℕ)
    → IsQuiet db (notify_one f n plan muted ch (db, sent)).0
unfolding notify_one
notify_one-IsQuiet f n plan muted ch db sent = elim (Bool-cases (elem ch.channel.id muted)) [
  | inl e ↦ rw (e, notify_one) (IsQuiet-refl db)
  | inr e ↦ elim (Bool-cases (n.wants ch.notify)) [
    | inl w ↦
        let (db', sent') = send_page f n ch (db, sent) in
        rw (e, notify_one)
          (rw (w, notify_one)
            (IsQuiet-trans (page-IsQuiet f n ch db sent) (followup-IsQuiet f n plan ch db' sent')))
    | inr w ↦ rw (e, notify_one) (rw (w, notify_one) (IsQuiet-refl db))
  ]
]

notify_all-IsQuiet :
    (f : Faults) (n : NotifySpec) (plan : String) (muted : List ℕ) (chs : List AlertChannel)
    (db : Db) (sent : ℕ)
    → IsQuiet db (notify_all f n plan muted chs (db, sent)).0
unfolding notify_all
notify_all-IsQuiet f n plan muted [] db sent = IsQuiet-refl db
notify_all-IsQuiet f n plan muted (ch ∷ chs) db sent =
    let (db', sent') = notify_one f n plan muted ch (db, sent) in
    IsQuiet-trans (notify_one-IsQuiet f n plan muted ch db sent)
      (notify_all-IsQuiet f n plan muted chs db' sent')

mark_sent-IsQuiet :
    (f : Faults) (id : ℕ) (db : Db) (sent : ℕ) → IsQuiet db (mark_sent f id (db, sent))
unfolding mark_sent
mark_sent-IsQuiet f id db sent = elim (Bool-cases (sent == 0 || f.mark)) [
  | inl e ↦ rw e (IsQuiet-refl db)
  | inr e ↦ rw e (touch-IsQuiet db id)
]

pub notify_channels-IsQuiet :
    (t : Tables) (f : Faults) (tenant project : ℕ) (n : NotifySpec) (db : Db)
    → IsQuiet db (notify_channels t f tenant project n db)
unfolding notify_channels
notify_channels-IsQuiet t f tenant project n db =
    elim (Bool-cases (not f.frozen && t.frozen project)) [
      | inl e ↦ rw (e, notify_channels) (IsQuiet-refl db)
      | inr e ↦ elim (Bool-cases f.channels) [
        | inl c ↦ rw (e, notify_channels) (rw (c, notify_channels) (IsQuiet-refl db))
        | inr c ↦
            let chans = t.channels project in
            let muted = muted_by_plan (entitlement_of t f tenant) (map (λ ch. ch.channel) chans) in
            let plan = followup_plan t f tenant n in
            let (db', sent) = notify_all f n plan muted chans (db, 0) in
            rw (e, notify_channels)
              (rw (c, notify_channels)
                (IsQuiet-trans (notify_all-IsQuiet f n plan muted chans db 0)
                  (mark_sent-IsQuiet f n.incident_id db' sent)))
      ]
    ]
