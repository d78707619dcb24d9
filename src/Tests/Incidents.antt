-- ===== src/Tests/Incidents.antt =====
-- Incidents, their notifications and the seats at concrete inputs.
use upcontrol.Prelude.{
  Bool, ℕ, ◌+◌, ◌≡◌, refl, inl, inr, true, false, ◌&&◌, ◌||◌, not, List, [], ◌∷◌, map, none, some,
  arith, ℤ, pos, ◌==◌, In, if◌then◌else◌,
}
use upcontrol.Channel.Settings.{defaults}
use upcontrol.Incident.Seats
use upcontrol.Incident.Seats.{
  Channel, Kind, telegram, email, is_telegram, seat_of, muted_from, muted_telegram, muted_by_plan,
}
use upcontrol.Incident.Store.{
  recovered, Db, Monitor, AlertChannel, Tables, no_faults, Delivery, page,
}
use upcontrol.Incident.Notify.{entitlement_of, followup_plan, notify_channels}
use upcontrol.Incident.Notify.Audience.{is_queued, reached, notify_channels-is_queued}
use upcontrol.Incident.Lifecycle.{World, no_store, open_with, down_spec}
use upcontrol.Incident.Lifecycle.Single.{count_open, IsSingle}
use upcontrol.Incident.Lifecycle.Opening.{open_with_blind}
use upcontrol.Incident.Lifecycle.Promise.{
  Call, open_call, close_call, perform_all, AllPromised, Shows,
}
use upcontrol.Incident.Lifecycle.Refinement.{perform_all-Refines}

abbrev person : Channel
person = record { id = 1; kind = telegram; recipient_person_id = some 9 }

abbrev room : Channel
room = record { id = 2; kind = telegram; recipient_person_id = none }

abbrev second_person : Channel
second_person = record { id = 3; kind = telegram; recipient_person_id = some 8 }

abbrev chans : List Channel
chans = person ∷ room ∷ second_person ∷ []

silenced : In 3 (muted_telegram chans (pos 1) false)
unfolding muted_telegram muted_from Seats.take_seat Seats.holds
silenced = inr (inl refl)

abbrev shop : Monitor
shop = record {
  tenant_id = 1;
  project_id = 4;
  name = "Shop";
  target = "https://shop.example";
  kind = "website";
}

abbrev mail : AlertChannel
mail = record {
  channel = record { id = 7; kind = email; recipient_person_id = none };
  notify = defaults;
}

abbrev tables : Tables
tables = record {
  monitors = λ m. if m == 5 then some shop else none;
  frozen = λ p. false;
  channels = λ p. mail ∷ [];
  plans = λ t. some "Free";
  entitlements = λ p. none;
}

abbrev world : World
world = record { tables = tables; faults = no_faults; evidence = no_store }

abbrev blind : World
blind = record { tables = tables; faults = record no_faults { lookup = true }; evidence = no_store }

abbrev empty : Db
empty = record { next_id = 11; incidents = []; updates = []; slice = []; queue = [] }

abbrev fnv : ℕ → ℤ
fnv m = pos m

abbrev the_page : Delivery
the_page = record { incident_id = 11; channel_id = 7; class = page }

notify_channels-is_queued_example :
    is_queued the_page (notify_channels tables no_faults 1 4 (down_spec 11) empty) ≡ (
      is_queued the_page empty
      || (not (not false && false)
          && reached
              (down_spec 11)
              (followup_plan tables no_faults 1 (down_spec 11))
              (muted_by_plan
                (entitlement_of tables no_faults 1)
                (map (λ ch. ch.channel) (mail ∷ [])))
              the_page
              (mail ∷ [])))
notify_channels-is_queued_example =
    notify_channels-is_queued tables no_faults 1 4 (down_spec 11) the_page empty refl refl refl

none_open : IsSingle empty
unfolding count_open
none_open m = omega arith

abbrev once : Db
once = (open_with fnv world 5 "down" 60 true empty).1

open_with_blind_example :
    count_open 5 (open_with fnv blind 5 "down" 60 true once).1.incidents
    ≡ 1 + count_open 5 once.incidents
open_with_blind_example = open_with_blind fnv blind shop 5 60 "down" true once refl refl refl refl

abbrev calls : List Call
calls =
    open_call world 5 60 "down" true
    ∷ open_call world 5 60 "down" true
    ∷ close_call world 5 recovered
    ∷ []

empty-Shows : Shows empty (λ _. false)
unfolding Shows count_open
empty-Shows n = refl

perform_all-Refines_example :
    (last : ℕ → Bool) × AllPromised (λ _. false) calls (perform_all fnv calls empty).0 last
    × Shows (perform_all fnv calls empty).1 last
perform_all-Refines_example =
    perform_all-Refines fnv calls (λ _. false) empty empty-Shows (refl, (refl, (refl, tt)))
