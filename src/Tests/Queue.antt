-- ===== src/Tests/Queue.antt =====
-- The delivery queue and its worker at concrete inputs.
use upcontrol.Prelude.{
  ◌≡◌, refl, inl, inr, str_eq, true, false, [], ◌∷◌, none, some, arith, In, IsDistinct,
}
use upcontrol.Incident.Store.{page}
use upcontrol.Deliver.Queue.{AlertPayload, Item, pending}
use upcontrol.Deliver.Breaker.{Breaker, is_open}
use upcontrol.Deliver.Worker.{
  ChannelRow, World, answered, Clock, Worker, decide, process_item, tick,
}
use upcontrol.Deliver.Worker.Turn.{
  IsTurn, IsOver, is_deferral, process_item-IsTurn, process_item-IsOver,
}
use upcontrol.Deliver.Worker.Stranded.{ids, tick_leased}

abbrev alert : AlertPayload
alert = record {
  title = "down";
  status = "down";
  monitor_name = "Shop";
  summary = "";
  class = none;
  buttons = false;
  group = false;
}

abbrev fresh : Item
fresh = record {
  id = 1;
  incident_id = some 11;
  channel_id = 7;
  class = page;
  payload = alert;
  attempts = 4;
  state = pending;
  dead_reason = none;
  leased = false;
  next_try = 100;
}

abbrev stranded : Item
stranded = record fresh { id = 2; leased = true }

abbrev slack : ChannelRow
slack = record {
  kind = "slack";
  target = "https://hook.example";
  project_id = 4;
  frozen = false;
  muted_until = none;
  recipient_person_id = none;
}

-- Every channel is the same Slack hook, which answers 503.
abbrev world : World
world = record {
  channel = λ c. some slack;
  email_target = λ p. none;
  incident = λ i. none;
  has_sender = λ k. str_eq k "slack";
  send = λ k t p. answered 503;
  down_for_line = λ a b. "";
  rand = λ n. 0;
}

abbrev clock : Clock
clock = record { at_breaker = 200; at_mute = 200; at_outcome = 210 }

abbrev healthy : Breaker
healthy = record { failures_since = 0 }

abbrev worker : Worker
worker = record { items = fresh ∷ stranded ∷ []; attempts = []; breakers = λ c. healthy }

process_item-IsTurn_example :
    IsTurn 1 (fresh ∷ stranded ∷ []) (process_item world clock fresh worker).items
process_item-IsTurn_example = process_item-IsTurn world clock fresh worker

sends : is_deferral (decide world clock healthy fresh (some slack)) ≡ false
unfolding decide is_open
sends = refl

process_item-IsOver_example : IsOver 1 (process_item world clock fresh worker).items
process_item-IsOver_example = process_item-IsOver world clock fresh worker (omega arith) sends

distinct : IsDistinct (ids worker.items)
distinct = ((λ h. elim h [ inl e ↦ ground (arith, e) | inr f ↦ f ]), ((λ f. f), tt))

tick_leased_example : In stranded (tick world clock (some 900) worker).items
tick_leased_example =
    tick_leased world clock (some 900) worker stranded distinct (inr (inl refl)) refl
