-- ===== src/Detect/Errorlog/Cooldown.antt =====
-- When an error is told of again, back/internal/detect/errorlog/errorlog.go.
use upcontrol.Prelude.{
  ℕ, ◌+◌, ◌/◌, ◌<◌, ◌≡◌, refl, ◌∙◌, ap, inl, inr, Bool, true, false, ◌&&◌, not, List, [], ◌∷◌,
  Option, none, some, arith, ℤ, pos, ◌==◌, leb_ℤ, sub, sub_ge, minute, Bool-cases, if◌then◌else◌,
}
use upcontrol.Channel.Settings.{Settings}
use upcontrol.Incident.Seats.{Channel, Entitlement}
use upcontrol.Detect.Errorlog.{
  Group, Groups, Subscription, Kind, error, repeat, same_kind, Ticket, System, new_error_cooldown,
  lookback, is_queued, enqueue, enqueue_all, upsert_error_alert_state, fire_groups, should_fire_new,
  should_fire_repeat, new_pass, repeat_passes, windows_of, wants_new, wants_window, duration,
  audible, scan_subscribed, scan_project,
}

abbrev pub is_about : ℕ → Kind → Ticket → Bool
is_about fp k t = (t.fingerprint == fp) && same_kind t.kind k

-- How many tickets there are about the error.
unfoldable pub tickets : ℕ → Kind → List Ticket → ℕ
tickets fp k [] = 0
tickets fp k (t ∷ ts) = (if is_about fp k t then 1 else 0) + tickets fp k ts

-- Nothing was told or remembered about the error.
abbrev pub IsSilent : ℕ → Kind → System → System → Type 0
IsSilent fp k a b =
    (b.alerted fp k ≡ a.alerted fp k) × (tickets fp k b.queue ≡ tickets fp k a.queue)

IsSilent-refl : (fp : ℕ) (k : Kind) (a : System) → IsSilent fp k a a
IsSilent-refl fp k a = (refl, refl)

IsSilent-trans :
    (fp : ℕ) (k : Kind) (a b c : System) → IsSilent fp k a b → IsSilent fp k b c → IsSilent fp k a c
IsSilent-trans fp k a b c (p, q) (r, s) = (r ∙ p, s ∙ q)

module _ (fp : ℕ) (k : Kind) where
  enqueue-IsSilent :
      (channel : ℕ) (g : Group) (kind : Kind) (now : ℕ) (sys : System)
      → ((g.fingerprint == fp) && same_kind kind k) ≡ false
      → IsSilent fp k sys (enqueue channel g kind now sys)
  unfolding enqueue tickets
  enqueue-IsSilent channel g kind now sys e =
      elim (Bool-cases (
        is_queued
          (record {
            channel_id = channel;
            fingerprint = g.fingerprint;
            kind = kind;
            minute_no = now / minute;
          })
          sys.queue)) [ inl q ↦ rw q (refl, refl) | inr q ↦ rw (q, e) (refl, ground arith) ]

  enqueue_all-IsSilent :
      (wants : Settings → Bool) (g : Group) (kind : Kind) (now : ℕ) (subs : List Subscription)
      (sys : System)
      → ((g.fingerprint == fp) && same_kind kind k) ≡ false
      → IsSilent fp k sys (enqueue_all wants g kind now subs sys)
  unfolding enqueue_all
  enqueue_all-IsSilent wants g kind now [] sys e = (refl, refl)
  enqueue_all-IsSilent wants g kind now (s ∷ ss) sys e = elim (Bool-cases (wants s.settings)) [
    | inl w ↦
        let next = enqueue s.channel_id g kind now sys in
        rw (w, enqueue_all)
          (IsSilent-trans fp k sys next (enqueue_all wants g kind now ss next)
            (enqueue-IsSilent s.channel_id g kind now sys e)
            (enqueue_all-IsSilent wants g kind now ss next e))
    | inr w ↦ rw (w, enqueue_all) (enqueue_all-IsSilent wants g kind now ss sys e)
  ]

  upsert-IsSilent :
      (g : Group) (kind : Kind) (now : ℕ) (sys : System)
      → ((g.fingerprint == fp) && same_kind kind k) ≡ false
      → IsSilent fp k sys (upsert_error_alert_state g.fingerprint kind now sys)
  unfolding upsert_error_alert_state
  upsert-IsSilent g kind now sys e = (ground (arith, e), refl)

  fire_groups-IsSilent :
      (fires : Group → Bool) (wants : Settings → Bool) (kind : Kind) (now : ℕ)
      (subs : List Subscription) (gs : List Group) (sys : System)
      → ((g : Group) → ((g.fingerprint == fp) && same_kind kind k) ≡ true → fires g ≡ false)
      → IsSilent fp k sys (fire_groups fires wants kind now subs gs sys)
  unfolding fire_groups
  fire_groups-IsSilent fires wants kind now subs [] sys h = (refl, refl)
  fire_groups-IsSilent fires wants kind now subs (g ∷ gs) sys h = elim (Bool-cases (fires g)) [
    | inr e ↦ rw (e, fire_groups) (fire_groups-IsSilent fires wants kind now subs gs sys h)
    | inl e ↦
        let other : ((g.fingerprint == fp) && same_kind kind k) ≡ false = ground (arith, e, h g) in
        let sent = enqueue_all wants g kind now subs sys in
        let kept = upsert_error_alert_state g.fingerprint kind now sent in
        let first = enqueue_all-IsSilent wants g kind now subs sys other in
        let second = upsert-IsSilent g kind now sent other in
        rw (e, fire_groups)
          (IsSilent-trans fp k sys kept (fire_groups fires wants kind now subs gs kept)
            (IsSilent-trans fp k sys sent kept first second)
            (fire_groups-IsSilent fires wants kind now subs gs kept h))
  ]

module _ (groups : Groups) (last : ℕ → Kind → Option ℕ) (fp t now : ℕ) where
  resting :
      (g : Group)
      → last fp error ≡ some t
      → now < t + new_error_cooldown
      → (g.fingerprint == fp) ≡ true
      → should_fire_new g (last g.fingerprint error) now ≡ false
  unfolding should_fire_new
  resting g known early same = elim (Bool-cases (leb_ℤ (sub now g.last_ts) (pos lookback))) [
    | inr e ↦ rw e refl
    | inl e ↦
        let at : last g.fingerprint error ≡ some t =
          ap (λ f. last f error) (eq g.fingerprint fp same) ∙ known in
        rw (e, at) (sub_ge now t new_error_cooldown (omega arith) (omega arith) ∙ ground arith)
  ]
    where
      eq : (a b : ℕ) → (a == b) ≡ true → a ≡ b
      eq a b h = ground arith

  new_pass-IsSilent :
      (subs : List Subscription) (sys : System)
      → last fp error ≡ some t
      → now < t + new_error_cooldown
      → IsSilent fp error sys (new_pass groups last now subs sys).1
  unfolding new_pass
  new_pass-IsSilent subs sys known early = branch (wants_new subs)
    where
      fires : Group → Bool
      fires g = should_fire_new g (last g.fingerprint error) now

      quiet :
          (g : Group) → ((g.fingerprint == fp) && same_kind error error) ≡ true → fires g ≡ false
      quiet g h = resting g known early (ground (arith, h))

      result : Option (List Group) → Bool × System
      result o = elim o [
        | none ↦ (false, sys)
        | some gs ↦ (true, fire_groups fires (λ s. s.error_logs) error now subs gs sys)
      ]

      asked : (o : Option (List Group)) → IsSilent fp error sys (result o).1
      asked none = (refl, refl)
      asked (some gs) =
          fire_groups-IsSilent fp error fires (λ s. s.error_logs) error now subs gs sys quiet

      branch :
          (b : Bool)
          → IsSilent fp error sys
              (if◌then◌else◌ {A = Bool × System} (not b) (true, sys) (result (groups lookback))).1
      branch true = asked (groups lookback)
      branch false = (refl, refl)

  -- Repeats are of the other kind.
  repeat_passes-IsSilent :
      (subs : List Subscription) (ws : List ℤ) (sys : System)
      → IsSilent fp error sys (repeat_passes groups last now subs ws sys).1
  unfolding repeat_passes
  repeat_passes-IsSilent subs [] sys = (refl, refl)
  repeat_passes-IsSilent subs (w ∷ ws) sys =
      asked (groups (duration w)) (λ next. repeat_passes-IsSilent subs ws next)
    where
      passed : List Group → System
      passed gs =
          fire_groups (λ g. should_fire_repeat g (last g.fingerprint repeat) (duration w) now)
            (wants_window w) repeat now subs gs sys

      result : Option (List Group) → Bool × System
      result o = elim o [
        | none ↦ (false, sys)
        | some gs ↦ repeat_passes groups last now subs ws (passed gs)
      ]

      asked :
          (o : Option (List Group))
          → ((next : System)
              → IsSilent fp error next (repeat_passes groups last now subs ws next).1)
          → IsSilent fp error sys (result o).1
      asked none rest = (refl, refl)
      asked (some gs) rest =
          IsSilent-trans fp error sys (passed gs)
            (repeat_passes groups last now subs ws (passed gs)).1
            (fire_groups-IsSilent fp error _ (wants_window w) repeat now subs gs sys
              (λ g h. ground (arith, h)))
            (rest (passed gs))

-- For 30 minutes after an "error appeared" alert no scan of the project queues another one for the
-- same error or moves its mark, whoever subscribes, whatever the store returns, in whichever order
-- the windows are passed, and where a query fails.
pub scan_project-IsSilent :
    (order : List ℤ → List ℤ) (groups : Groups) (chans : Option (List Channel))
    (ent : Option Entitlement) (state_fails : Bool) (fp t now : ℕ) (subs : List Subscription)
    (sys : System)
    → sys.alerted fp error ≡ some t
    → now < t + new_error_cooldown
    → IsSilent fp error sys (scan_project order groups chans ent state_fails now subs sys).1
unfolding scan_project scan_subscribed
scan_project-IsSilent order groups chans ent state_fails fp t now subs sys known early =
    branch state_fails
  where
    heard : List Subscription
    heard = audible chans ent subs

    appeared : Bool × System
    appeared = new_pass groups sys.alerted now heard sys

    repeated : Bool × System
    repeated = repeat_passes groups sys.alerted now heard (order (windows_of heard)) appeared.1

    first : IsSilent fp error sys appeared.1
    first = new_pass-IsSilent groups sys.alerted fp t now heard sys known early

    rest :
        (b : Bool)
        → IsSilent fp error sys
            (if◌then◌else◌ {A = Bool × System} (not b) (false, appeared.1) repeated).1
    rest false = first
    rest true =
        IsSilent-trans fp error sys appeared.1 repeated.1 first
          (repeat_passes-IsSilent groups sys.alerted fp t now heard _ appeared.1)

    branch :
        (b : Bool)
        → IsSilent fp error sys
            (if◌then◌else◌ {A = Bool × System} b
              (false, sys)
              (if not appeared.0 then (false, appeared.1) else repeated)).1
    branch true = (refl, refl)
    branch false = rest appeared.0
