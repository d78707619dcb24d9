-- ===== src/Tests/Settings.antt =====
-- Notification settings at concrete inputs.
use upcontrol.Prelude.{ℕ, ◌≡◌, refl, List, [], ◌∷◌, true, none, some, pos}
use upcontrol.Channel.Settings.{Settings, defaults, resolve, Patch}

abbrev wild : List ℕ → Settings → Settings
wild raw s = record s {
  error_logs = true;
  repeating_error_logs = true;
  repeat_window_min = pos 10000;
}

abbrev only_errors : Patch
only_errors = record {
  website_down = none;
  error_logs = some true;
  repeating_error_logs = none;
  repeat_window_min = some (pos 0);
  resolve_follow_up = none;
}

wild_resolved : (resolve wild (123 ∷ [])).repeat_window_min ≡ pos 120
unfolding resolve
wild_resolved = refl

abbrev repeating : Settings
repeating = record defaults { repeating_error_logs = true }
