-- ===== src/Deliver/Worker/Decide.antt =====
-- What may be sent: the guards of processItem, back/internal/deliver/worker.go.
use upcontrol.Prelude.{ℕ, ◌≡◌, ◌⊎◌, String, Bool, true, false, Option, none, some}
use upcontrol.Incident.Store.{followup, test, same_class}
use upcontrol.Deliver.Queue.{Item}
use upcontrol.Deliver.Breaker.{Breaker, is_open}
use upcontrol.Deliver.Worker.{
  World, Clock, ChannelRow, FollowUp, Decision, drop, defer, deliver, muted_past, plan_paused,
}

-- A follow-up is sent only for an incident that is known and was not closed by the plan.
abbrev pub IsMeasured : World → Item → Type 0
IsMeasured w item =
    (same_class item.class followup ≡ false)
    ⊎ ((id : ℕ) × (inc : FollowUp) × (item.incident_id ≡ some id)
        × (w.incident id ≡ some inc)
        × (plan_paused inc.close_reason ≡ false))

-- What a send guarantees of the channel's row `o` and of the item.
abbrev pub IsSafe : World → Clock → Breaker → Item → Option ChannelRow → Decision → Type 0
IsSafe w clock b item o (deliver kind target p) =
    (ch : ChannelRow) × (o ≡ some ch)
    × ((ch.frozen ≡ false) ⊎ (item.class ≡ test))
    × (((kind ≡ ch.kind) × (target ≡ ch.target))
        ⊎ ((kind ≡ "email") × (w.email_target ch.project_id ≡ some target)))
    × ((is_open b clock.at_breaker ≡ false) ⊎ (kind ≡ "email"))
    × (w.has_sender kind ≡ true)
    × (muted_past ch.muted_until clock.at_mute ≡ false)
    × (p.class ≡ some item.class)
    × IsMeasured w item
IsSafe w clock b item o (drop reason) = Unit
IsSafe w clock b item o (defer next) = Unit

-- The part of it that the message decides.
abbrev IsComposed : World → Item → String → String → Decision → Type 0
IsComposed w item kind target (deliver k t p) =
    (k ≡ kind) × (t ≡ target) × (p.class ≡ some item.class) × IsMeasured w item
IsComposed w item kind target (drop reason) = Unit
IsComposed w item kind target (defer next) = Unit

-- Where a route leads: the channel itself, or its project's email channel.
abbrev IsRouted : World → ChannelRow → Bool → Option (String × String) → Type 0
IsRouted w ch tripped none = Unit
IsRouted w ch tripped (some (kind, target)) =
    (((kind ≡ ch.kind) × (target ≡ ch.target))
      ⊎ ((kind ≡ "email") × (w.email_target ch.project_id ≡ some target)))
    × ((tripped ≡ false) ⊎ (kind ≡ "email"))
