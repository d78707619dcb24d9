-- ===== src/Channel/Settings.antt =====
-- What a destination hears about, back/internal/channel/notify/notify.go.
use upcontrol.Prelude.{
  ℕ, ◌≡◌, ◌≢◌, List, Bool, true, false, ◌&&◌, Option, none, some, arith, ℤ, pos, leb_ℤ, not,
  is_empty, if◌then◌else◌,
}

pub record Settings : Type 0 where
  pub website_down : Bool
  pub error_logs : Bool
  pub repeating_error_logs : Bool
  pub repeat_window_min : ℤ
  pub resolve_follow_up : Bool

abbrev pub defaults : Settings
defaults = record {
  website_down = true;
  error_logs = false;
  repeating_error_logs = false;
  repeat_window_min = pos 5;
  resolve_follow_up = false;
}

clamp_window : ℤ → ℤ
clamp_window w =
    if not (leb_ℤ (pos 1) w) then pos 1 else if not (leb_ℤ w (pos 120)) then pos 120 else w

unfoldable pub clamp : Settings → Settings
unfolding clamp_window
clamp s =
    let t = record s { repeat_window_min = clamp_window s.repeat_window_min } in
    if t.error_logs && t.repeating_error_logs then record t { error_logs = false } else t

-- `unmarshal raw s` is what json.Unmarshal leaves in `s`, its error dropped.
unfoldable pub resolve : (List ℕ → Settings → Settings) → List ℕ → Settings
unfolding clamp
resolve unmarshal raw = clamp (if is_empty raw then defaults else unmarshal raw defaults)

pub record Patch : Type 0 where
  pub website_down : Option Bool
  pub error_logs : Option Bool
  pub repeating_error_logs : Option Bool
  pub repeat_window_min : Option ℤ
  pub resolve_follow_up : Option Bool

set_website_down : Option Bool → Settings → Settings
set_website_down none s = s
set_website_down (some b) s = record s { website_down = b }

set_error_logs : Option Bool → Settings → Settings
set_error_logs none s = s
set_error_logs (some b) s =
    let t = record s { error_logs = b } in
    if t.error_logs then record t { repeating_error_logs = false } else t

set_repeating_error_logs : Option Bool → Settings → Settings
set_repeating_error_logs none s = s
set_repeating_error_logs (some b) s =
    let t = record s { repeating_error_logs = b } in
    if t.repeating_error_logs then record t { error_logs = false } else t

set_repeat_window_min : Option ℤ → Settings → Settings
set_repeat_window_min none s = s
set_repeat_window_min (some w) s = record s { repeat_window_min = w }

set_resolve_follow_up : Option Bool → Settings → Settings
set_resolve_follow_up none s = s
set_resolve_follow_up (some b) s = record s { resolve_follow_up = b }

overlay : Patch → Settings → Settings
unfolding set_website_down set_error_logs set_repeating_error_logs set_repeat_window_min
    set_resolve_follow_up
overlay p s =
    let a = set_website_down p.website_down s in
    let b = set_error_logs p.error_logs a in
    let c = set_repeating_error_logs p.repeating_error_logs b in
    let d = set_repeat_window_min p.repeat_window_min c in
    set_resolve_follow_up p.resolve_follow_up d

unfoldable pub apply : Patch → Settings → Settings
unfolding overlay clamp
apply p current = clamp (overlay p current)

-- Settled: the window is between 1 and 120 minutes, and at most one error axis is on.
pub record IsSettled (s : Settings) : Type 0 where
  pub window_low : leb_ℤ (pos 1) s.repeat_window_min ≡ true
  pub window_high : leb_ℤ s.repeat_window_min (pos 120) ≡ true
  pub exclusive : s.error_logs && s.repeating_error_logs ≡ false

clamp-IsSettled : (s : Settings) → IsSettled (clamp s)
unfolding clamp
clamp-IsSettled s = ground arith

clamp_settled : (s : Settings) → IsSettled s → clamp s ≡ s
unfolding clamp
clamp_settled s h = ground arith

resolve-IsSettled :
    (unmarshal : List ℕ → Settings → Settings) (raw : List ℕ) → IsSettled (resolve unmarshal raw)
unfolding resolve
resolve-IsSettled unmarshal raw =
    clamp-IsSettled (if is_empty raw then defaults else unmarshal raw defaults)

apply-IsSettled : (p : Patch) (s : Settings) → IsSettled (apply p s)
unfolding apply
apply-IsSettled p s = clamp-IsSettled (overlay p s)

-- Whatever the stored text and whatever a patch asks for, the settings that come back are settled.
pub resolve-apply-IsSettled :
    (unmarshal : List ℕ → Settings → Settings) (raw : List ℕ) (p : Patch) (current : Settings)
    → IsSettled (resolve unmarshal raw) × IsSettled (apply p current)
resolve-apply-IsSettled unmarshal raw p current =
    (resolve-IsSettled unmarshal raw, apply-IsSettled p current)

-- Applying a patch twice is applying it once.
pub apply_idem : (p : Patch) (s : Settings) → apply p (apply p s) ≡ apply p s
unfolding apply
apply_idem p s = ground arith

-- The two error axes after a patch to settled settings: a patch that turns one on turns the other
-- off, "repeating" wins when both are sent, and neither moves when neither is sent.
pub apply_axes :
    (p : Patch) (s : Settings)
    → IsSettled s
    → let t = apply p s in
      (p.repeating_error_logs ≡ some true
        → (t.repeating_error_logs ≡ true) × (t.error_logs ≡ false))
      × (p.error_logs ≡ some true
          → p.repeating_error_logs ≢ some true
          → (t.error_logs ≡ true) × (t.repeating_error_logs ≡ false))
      × (p.error_logs ≡ none
          → p.repeating_error_logs ≡ none
          → (t.error_logs ≡ s.error_logs) × (t.repeating_error_logs ≡ s.repeating_error_logs))
unfolding apply
apply_axes p s h = (λ r. ground arith, λ e r. ground arith, λ e r. ground arith)
