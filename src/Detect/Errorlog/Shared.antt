-- ===== src/Detect/Errorlog/Shared.antt =====
-- The memory that the repeat windows share, back/internal/detect/errorlog/errorlog.go.
use upcontrol.Prelude.{ℕ, Bool, List}
use upcontrol.Channel.Settings.{Settings}
use upcontrol.Detect.Errorlog.{
  Group, Subscription, repeat, System, enqueue_all, upsert_error_alert_state, fire_groups,
}

module _ (fires : Group → Bool) (wants : Settings → Bool) (now : ℕ) (subs : List Subscription) where
  abbrev fire : List Group → System → System
  fire = fire_groups fires wants repeat now subs

  abbrev told : Group → System → System
  told g sys =
      upsert_error_alert_state g.fingerprint repeat now (enqueue_all wants g repeat now subs sys)
