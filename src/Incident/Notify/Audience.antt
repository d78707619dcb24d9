-- ===== src/Incident/Notify/Audience.antt =====
-- Which deliveries a notification queues: notifyChannels of back/internal/incident/incident.go.
use upcontrol.Prelude.{
  ℕ, ◌+◌, ◌≡◌, refl, sym, ◌∙◌, ap, subst, inl, inr, String, Bool, true, false, ◌&&◌, ◌||◌, not,
  List, [], ◌∷◌, map, arith, ◌==◌, is_some, Bool-cases, if◌then◌else◌,
}
use upcontrol.Incident.Store.{
  Db, Tables, Faults, AlertChannel, Delivery, Class, page, followup, same_delivery, find,
  enqueue_delivery, touch_incident_notified,
}
use upcontrol.Incident.Seats.{muted_by_plan}
use upcontrol.Incident.Notify.{
  NotifySpec, elem, entitlement_of, followup_plan, is_paid, send_page, send_followup, notify_one,
  notify_all, mark_sent, notify_channels,
}

or_assoc : (a b c : Bool) → ((a || b) || c) ≡ (a || (b || c))
or_assoc true b c = refl
or_assoc false b c = refl

-- A delivery with this key is in the queue.
abbrev pub is_queued : Delivery → Db → Bool
is_queued d db = is_some (find (same_delivery d) db.queue)

same_delivery→eq : (d e : Delivery) → same_delivery d e ≡ true → d ≡ e
same_delivery→eq d e h = ground arith

same_delivery_refl : (d : Delivery) → same_delivery d d ≡ true
same_delivery_refl d = ground arith

queued-enqueue :
    (d e : Delivery) (db : Db)
    → is_queued d (enqueue_delivery db e) ≡ (is_queued d db || same_delivery d e)
unfolding enqueue_delivery find
queued-enqueue d e db =
    let more : Db = record db { queue = e ∷ db.queue } in
    elim (Bool-cases (is_queued e db)) [
      | inl q ↦
          subst
            (λ (b : Bool).
              is_queued d (if b then db else more) ≡ (is_queued d db || same_delivery d e))
            (sym q)
            (elim (Bool-cases (same_delivery d e)) [
              | inl s ↦
                  let here : is_queued d db ≡ true =
                    subst (λ k. is_queued k db ≡ true) (sym (same_delivery→eq d e s)) q in
                  ground (arith, here)
              | inr s ↦ ground (arith, s)
            ])
      | inr q ↦
          subst
            (λ (b : Bool).
              is_queued d (if b then db else more) ≡ (is_queued d db || same_delivery d e))
            (sym q)
            (elim (Bool-cases (same_delivery d e)) [
              | inl s ↦ ground (arith, s)
              | inr s ↦ ground (arith, s)
            ])
    ]

abbrev pub key : NotifySpec → AlertChannel → Class → Delivery
key n ch c = record { incident_id = n.incident_id; channel_id = ch.channel.id; class = c }

-- The channel should take `d`: it is not silenced and wants the incident, and `d` is its page, or
-- its follow-up where the incident has one, the channel asks for it and the plan is a paid one.
abbrev pub takes : NotifySpec → String → List ℕ → Delivery → AlertChannel → Bool
takes n plan muted d ch =
    not (elem ch.channel.id muted)
    && (n.wants ch.notify
        && (same_delivery d (key n ch page)
            || ((n.has_followup && (ch.notify.resolve_follow_up && is_paid plan))
                && same_delivery d (key n ch followup))))

abbrev pub reached : NotifySpec → String → List ℕ → Delivery → List AlertChannel → Bool
reached n plan muted d [] = false
reached n plan muted d (ch ∷ chs) = takes n plan muted d ch || reached n plan muted d chs

module _ (f : Faults) (n : NotifySpec) (plan : String) (muted : List ℕ) (d : Delivery) where
  queued-page :
      (ch : AlertChannel) (db : Db) (sent : ℕ)
      → f.enqueue ≡ false
      → is_queued d (send_page f n ch (db, sent)).0
        ≡ (is_queued d db || same_delivery d (key n ch page))
  unfolding send_page
  queued-page ch db sent e =
      subst
        (λ (b : Bool).
          is_queued d
            (if◌then◌else◌ {A = Db × ℕ} b (db, sent)
              (enqueue_delivery db (key n ch page), sent + 1)).0
          ≡ (is_queued d db || same_delivery d (key n ch page)))
        (sym e) (queued-enqueue d (key n ch page) db)

  queued-followup :
      (ch : AlertChannel) (db : Db) (sent : ℕ)
      → f.enqueue_at ≡ false
      → is_queued d (send_followup f n plan ch (db, sent)).0 ≡ (
          is_queued d db
          || ((n.has_followup && (ch.notify.resolve_follow_up && is_paid plan))
              && same_delivery d (key n ch followup)))
  unfolding send_followup
  queued-followup ch db sent e =
      branch (n.has_followup && (ch.notify.resolve_follow_up && is_paid plan)) f.enqueue_at e
    where
      branch :
          (b g : Bool)
          → g ≡ false
          → is_queued d
              (if◌then◌else◌ {A = Db × ℕ}
                (b && not g)
                (enqueue_delivery db (key n ch followup), sent)
                (db, sent)).0
            ≡ (is_queued d db || (b && same_delivery d (key n ch followup)))
      branch true false e = queued-enqueue d (key n ch followup) db
      branch false false e = ground arith
      branch b true e = ground (arith, e)

  queued-one :
      (ch : AlertChannel) (acc : Db × ℕ)
      → f.enqueue ≡ false
      → f.enqueue_at ≡ false
      → is_queued d (notify_one f n plan muted ch acc).0
        ≡ (is_queued d acc.0 || takes n plan muted d ch)
  unfolding notify_one
  queued-one ch (db, sent) e g = branch (elem ch.channel.id muted) (n.wants ch.notify)
    where
      page_sent : Db × ℕ
      page_sent = send_page f n ch (db, sent)

      wanted : Bool
      wanted =
          same_delivery d (key n ch page)
          || ((n.has_followup && (ch.notify.resolve_follow_up && is_paid plan))
              && same_delivery d (key n ch followup))

      both : is_queued d (send_followup f n plan ch page_sent).0 ≡ (is_queued d db || wanted)
      both =
          queued-followup ch page_sent.0 page_sent.1 g
          ∙ ap
              (λ b.
                b
                || ((n.has_followup && (ch.notify.resolve_follow_up && is_paid plan))
                    && same_delivery d (key n ch followup)))
              (queued-page ch db sent e)
          ∙ or_assoc (is_queued d db) _ _

      branch :
          (a b : Bool)
          → is_queued d
              (if◌then◌else◌ {A = Db × ℕ} a
                (db, sent)
                (if not b then (db, sent) else send_followup f n plan ch page_sent)).0
            ≡ (is_queued d db || (not a && (b && wanted)))
      branch true b = ground arith
      branch false true = both
      branch false false = ground arith

  queued-all :
      (chs : List AlertChannel) (acc : Db × ℕ)
      → f.enqueue ≡ false
      → f.enqueue_at ≡ false
      → is_queued d (notify_all f n plan muted chs acc).0
        ≡ (is_queued d acc.0 || reached n plan muted d chs)
  unfolding notify_all
  queued-all [] acc e g = ground arith
  queued-all (ch ∷ chs) acc e g =
      queued-all chs (notify_one f n plan muted ch acc) e g
      ∙ ap (λ b. b || reached n plan muted d chs) (queued-one ch acc e g)
      ∙ or_assoc (is_queued d acc.0) (takes n plan muted d ch) (reached n plan muted d chs)

queued-mark :
    (f : Faults) (id : ℕ) (d : Delivery) (acc : Db × ℕ)
    → is_queued d (mark_sent f id acc) ≡ is_queued d acc.0
unfolding mark_sent touch_incident_notified
queued-mark f id d (db, sent) = elim (Bool-cases (sent == 0 || f.mark)) [
  | inl e ↦ rw e refl
  | inr e ↦ rw e refl
]

-- Where the channels are read and the deliveries written, a delivery is queued afterwards if and
-- only if it was before, or the project is not frozen and one of its channels should take it: one
-- that the plan does not silence and that wants the incident gets its page, and its follow-up where
-- the incident has one, the channel asks for it and the tenant pays. No sibling's channel is told.
pub notify_channels-is_queued :
    (t : Tables) (f : Faults) (tenant project : ℕ) (n : NotifySpec) (d : Delivery) (db : Db)
    → f.channels ≡ false
    → f.enqueue ≡ false
    → f.enqueue_at ≡ false
    → is_queued d (notify_channels t f tenant project n db) ≡ (
        is_queued d db
        || (not (not f.frozen && t.frozen project)
            && reached n
                (followup_plan t f tenant n)
                (muted_by_plan
                  (entitlement_of t f tenant)
                  (map (λ ch. ch.channel) (t.channels project)))
                d
                (t.channels project)))
unfolding notify_channels
notify_channels-is_queued t f tenant project n d db c e g =
    branch (not f.frozen && t.frozen project) f.channels c
  where
    muted : List ℕ
    muted = muted_by_plan (entitlement_of t f tenant) (map (λ ch. ch.channel) (t.channels project))

    plan : String
    plan = followup_plan t f tenant n

    told : Db
    told = mark_sent f n.incident_id (notify_all f n plan muted (t.channels project) (db, 0))

    branch :
        (a b : Bool)
        → b ≡ false
        → is_queued d (if a then db else if b then db else told)
          ≡ (is_queued d db || (not a && reached n plan muted d (t.channels project)))
    branch true b h = ground arith
    branch false true h = ground (arith, h)
    branch false false h =
        queued-mark f n.incident_id d _
        ∙ queued-all f n plan muted d (t.channels project) (db, 0) e g
