-- ===== src/Tests/ErrorLogs.antt =====
-- Error-log alerts at concrete inputs.
use upcontrol.Prelude.{◌*◌, refl, Bool, true, false, [], ◌∷◌, none, some, arith, pos, minute}
use upcontrol.Channel.Settings.{defaults}
use upcontrol.Detect.Errorlog.{
  Group, Groups, Subscription, error, System, scan_project, should_fire_repeat,
}
use upcontrol.Detect.Errorlog.Cooldown.{IsSilent, scan_project-IsSilent}

abbrev panic : Group
panic = record {
  fingerprint = 31;
  count = 9;
  service = "api";
  message = "panic";
  last_ts = 1000 * minute;
}

abbrev groups : Groups
groups span = some (panic ∷ [])

abbrev channel : Subscription
channel = record { channel_id = 7; settings = record defaults { error_logs = true } }

abbrev told : System
told = record { alerted = λ f k. some (990 * minute); queue = [] }

scan_project-IsSilent_example :
    IsSilent 31 error told
      (scan_project (λ ws. ws) groups none none false (1000 * minute) (channel ∷ []) told).1
scan_project-IsSilent_example =
    scan_project-IsSilent (λ ws. ws) groups none none false 31 (990 * minute) (1000 * minute)
      (channel ∷ []) told refl (omega arith)

abbrev minutely : Subscription
minutely = record {
  channel_id = 7;
  settings = record defaults { repeating_error_logs = true; repeat_window_min = pos 1 };
}

abbrev empty : System
empty = record { alerted = λ f k. none; queue = [] }

abbrev every : Group → Bool
every g = should_fire_repeat g none minute (1000 * minute)
