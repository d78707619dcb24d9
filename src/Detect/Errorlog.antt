-- ===== src/Detect/Errorlog.antt =====
-- The error-log alerts, back/internal/detect/errorlog/errorlog.go, with the queries of
-- back/internal/storage/pg/queries/errorlog.sql. The text of an alert is left out.
pub mod Cooldown
pub mod Shared
use upcontrol.Prelude.{
  ℕ, zero, suc, ◌+◌, ◌*◌, ◌/◌, String, Bool, true, false, ◌&&◌, ◌||◌, not, List, [], ◌∷◌, Option,
  none, some, ℤ, pos, negsuc, ◌==◌, leb, leb_ℤ, sub, minute, second, if◌then◌else◌,
}
use upcontrol.Channel.Settings.{Settings}
use upcontrol.Incident.Seats
use upcontrol.Incident.Seats.{Channel, Entitlement, muted_by_plan}
use upcontrol.Incident.Notify.{elem}

abbrev pub new_error_cooldown : ℕ
new_error_cooldown = 30 * minute

abbrev pub repeat_threshold : ℕ
repeat_threshold = 2

abbrev pub lookback : ℕ
lookback = 2 * minute

pub record Group : Type 0 where
  pub fingerprint : ℕ
  pub count : ℕ
  pub service : String
  pub message : String
  pub last_ts : ℕ

-- No alert yet, or one at least `d` ago.
abbrev pub rested : Option ℕ → ℕ → ℕ → Bool
rested none d now = true
rested (some t) d now = leb_ℤ (pos d) (sub now t)

unfoldable pub should_fire_new : Group → Option ℕ → ℕ → Bool
should_fire_new g last now =
    if not (leb_ℤ (sub now g.last_ts) (pos lookback))
    then false
    else rested last new_error_cooldown now

unfoldable pub should_fire_repeat : Group → Option ℕ → ℕ → ℕ → Bool
should_fire_repeat g last window now =
    if not (leb repeat_threshold g.count) then false else rested last window now

pub record Subscription : Type 0 where
  pub channel_id : ℕ
  pub settings : Settings

pub data Kind : Type 0 where
  error repeat : Kind

abbrev pub same_kind : Kind → Kind → Bool
same_kind error error = true
same_kind repeat repeat = true
same_kind _ _ = false

-- A queued ticket: its key "errlog:<channel>:<fingerprint>:<kind>:<minute>".
pub record Ticket : Type 0 where
  pub channel_id : ℕ
  pub fingerprint : ℕ
  pub kind : Kind
  pub minute_no : ℕ

-- error_alert_state of the project, and delivery_queue.
pub record System : Type 0 where
  pub alerted : ℕ → Kind → Option ℕ
  pub queue : List Ticket

abbrev same_ticket : Ticket → Ticket → Bool
same_ticket a b =
    (a.channel_id == b.channel_id)
    && ((a.fingerprint == b.fingerprint)
        && (same_kind a.kind b.kind && (a.minute_no == b.minute_no)))

abbrev pub is_queued : Ticket → List Ticket → Bool
is_queued t [] = false
is_queued t (u ∷ us) = same_ticket t u || is_queued t us

-- `ON CONFLICT (idem_key) DO NOTHING`
unfoldable pub enqueue : ℕ → Group → Kind → ℕ → System → System
enqueue channel g kind now sys =
    let t : Ticket = record {
      channel_id = channel;
      fingerprint = g.fingerprint;
      kind = kind;
      minute_no = now / minute;
    } in
    if is_queued t sys.queue then sys else record sys { queue = t ∷ sys.queue }

unfoldable pub enqueue_all :
    (Settings → Bool) → Group → Kind → ℕ → List Subscription → System → System
unfolding enqueue
enqueue_all wants g kind now [] sys = sys
enqueue_all wants g kind now (s ∷ ss) sys =
    enqueue_all wants g kind now ss
      (if wants s.settings then enqueue s.channel_id g kind now sys else sys)

-- UpsertErrorAlertState
unfoldable pub upsert_error_alert_state : ℕ → Kind → ℕ → System → System
upsert_error_alert_state fp kind now sys = record sys {
  alerted = λ f k. if (f == fp) && same_kind k kind then some now else sys.alerted f k;
}

-- The groups of one pass: those that fire are sent and remembered.
unfoldable pub fire_groups :
    (Group → Bool) → (Settings → Bool) → Kind → ℕ → List Subscription → List Group → System → System
unfolding enqueue_all upsert_error_alert_state
fire_groups fires wants kind now subs [] sys = sys
fire_groups fires wants kind now subs (g ∷ gs) sys = fire_groups fires wants kind now subs gs (
    if fires g
    then upsert_error_alert_state g.fingerprint kind now (enqueue_all wants g kind now subs sys)
    else sys)

abbrev pub same_ℤ : ℤ → ℤ → Bool
same_ℤ = Seats.same

-- `windows[m] = true`
unfoldable pub holds_window : ℤ → List ℤ → Bool
holds_window m [] = false
holds_window m (k ∷ ks) = same_ℤ m k || holds_window m ks

unfoldable pub windows_of : List Subscription → List ℤ
unfolding holds_window
windows_of [] = []
windows_of (s ∷ ss) =
    let rest = windows_of ss in
    if s.settings.repeating_error_logs && not (holds_window s.settings.repeat_window_min rest)
    then s.settings.repeat_window_min ∷ rest
    else rest

unfoldable pub wants_new : List Subscription → Bool
wants_new [] = false
wants_new (s ∷ ss) = s.settings.error_logs || wants_new ss

-- The plan's mute; the channels are none when their read fails.
unfoldable pub audible :
    Option (List Channel) → Option Entitlement → List Subscription → List Subscription
unfolding muted_by_plan
audible none ent subs = subs
audible (some chans) ent subs = keep (muted_by_plan ent chans) subs
  where
    keep : List ℕ → List Subscription → List Subscription
    keep muted [] = []
    keep muted (s ∷ ss) =
        let rest = keep muted ss in if elem s.channel_id muted then rest else s ∷ rest

-- `time.Duration(windowMin) * time.Minute`; Resolve makes the minutes positive.
abbrev pub duration : ℤ → ℕ
duration (pos n) = n * minute
duration (negsuc n) = 0

-- What the telemetry store has since a span before now: none is a failed query.
abbrev pub Groups : Type 0
Groups = ℕ → Option (List Group)

abbrev pub wants_window : ℤ → Settings → Bool
wants_window w s = s.repeating_error_logs && same_ℤ s.repeat_window_min w

-- `last` is the memory that the scan has read. False is an error, which ends the scan.
unfoldable pub repeat_passes :
    Groups → (ℕ → Kind → Option ℕ) → ℕ → List Subscription → List ℤ → System → Bool × System
unfolding fire_groups should_fire_repeat
repeat_passes groups last now subs [] sys = (true, sys)
repeat_passes groups last now subs (w ∷ ws) sys = elim (groups (duration w)) [
  | none ↦ (false, sys)
  | some gs ↦ repeat_passes groups last now subs ws (
      fire_groups (λ g. should_fire_repeat g (last g.fingerprint repeat) (duration w) now)
        (wants_window w) repeat now subs gs sys)
]

unfoldable pub new_pass :
    Groups → (ℕ → Kind → Option ℕ) → ℕ → List Subscription → System → Bool × System
unfolding fire_groups should_fire_new wants_new
new_pass groups last now subs sys =
    if not (wants_new subs) then (true, sys) else elim (groups lookback) [
      | none ↦ (false, sys)
      | some gs ↦ (
        true,
        fire_groups (λ g. should_fire_new g (last g.fingerprint error) now) (λ s. s.error_logs)
            error now subs gs sys,
      )
    ]

-- `order` is the order in which Go ranges over the map of windows.
unfoldable pub scan_subscribed :
    (List ℤ → List ℤ) → Groups → Bool → ℕ → List Subscription → System → Bool × System
unfolding new_pass repeat_passes windows_of
scan_subscribed order groups state_fails now subs sys =
    if state_fails
    then (false, sys)
    else (let (fine, sys') = new_pass groups sys.alerted now subs sys in
        if not fine
        then (false, sys')
        else repeat_passes groups sys.alerted now subs (order (windows_of subs)) sys')

unfoldable pub scan_project :
    (List ℤ → List ℤ)
    → Groups
    → Option (List Channel)
    → Option Entitlement
    → Bool
    → ℕ
    → List Subscription
    → System
    → Bool × System
unfolding scan_subscribed audible
scan_project order groups chans ent state_fails now subs sys =
    scan_subscribed order groups state_fails now (audible chans ent subs) sys
