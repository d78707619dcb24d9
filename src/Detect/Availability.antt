-- ===== src/Detect/Availability.antt =====
-- The consecutive-failure detector, back/internal/detect/availability/availability.go.
-- A method that mutates `*State` returns the new state beside its transition.
pub mod Invariant
pub mod History
use upcontrol.Prelude.{
  ℕ, ◌+◌, String, Bool, true, false, ◌&&◌, ◌||◌, not, ℤ, leb, ◌==◌, str_eq, positive_or,
  if◌then◌else◌,
}

-- The Status* strings; `unset` is the empty string of a missing facts row.
pub data Status : Type 0 where
  unset nodata ok check down could_not_measure : Status

pub data Outcome : Type 0 where
  pass fail unmeasured : Outcome

pub record State : Type 0 where
  pub status : Status
  pub consecutive_failures : ℕ
  pub consecutive_unmeasured : ℕ
  pub last_check_at : ℕ

pub record Transition : Type 0 where
  pub opens : Bool
  pub closes : Bool
  pub close_reason : String

abbrev pub no_transition : Transition
no_transition = record { opens = false; closes = false; close_reason = "" }

abbrev pub default_threshold : ℕ
default_threshold = 3

abbrev pub unmeasured_threshold : ℕ
unmeasured_threshold = 3

-- A Detector is its threshold.
unfoldable pub new : ℤ → ℕ
new threshold = positive_or threshold default_threshold

unfoldable pub is_unmeasured : String → ℕ → Bool
is_unmeasured error_class status_code =
    str_eq error_class "challenge"
    || (str_eq error_class "status"
        && (status_code == 401 || status_code == 403 || status_code == 429))

abbrev pub is_down : Status → Bool
is_down down = true
is_down _ = false

process_ok : State → State × Transition
process_ok s =
    let s' = record s { status = ok; consecutive_failures = 0; consecutive_unmeasured = 0 } in
    if is_down s.status
    then (s', record { opens = false; closes = true; close_reason = "recovered" })
    else (s', no_transition)

process_fail : ℕ → State → State × Transition
process_fail threshold s =
    let n = s.consecutive_failures + 1 in
    let s' = record s { consecutive_failures = n; consecutive_unmeasured = 0 } in
    if is_down s.status
    then (s', no_transition)
    else if leb threshold n
    then (record s' { status = down }, record no_transition { opens = true })
    else (record s' { status = check }, no_transition)

process_unmeasured : State → State × Transition
process_unmeasured s =
    let n = s.consecutive_unmeasured + 1 in
    let s' = record s { consecutive_unmeasured = n } in
    if leb unmeasured_threshold n && not (is_down s.status)
    then (record s' { status = could_not_measure }, no_transition)
    else (s', no_transition)

dispatch : ℕ → Outcome → State → State × Transition
unfolding process_ok process_fail process_unmeasured
dispatch threshold pass s = process_ok s
dispatch threshold fail s = process_fail threshold s
dispatch threshold unmeasured s = process_unmeasured s

unfoldable pub process : ℕ → State → Outcome → ℕ → State × Transition
unfolding dispatch
process threshold s outcome at = dispatch threshold outcome (record s { last_check_at = at })
