-- ===== src/Deliver/Breaker.antt =====
-- The circuit breaker of a channel, back/internal/deliver/deliver.go.
use upcontrol.Prelude.{
  ℕ, ◌+◌, ◌≤◌, ◌<◌, ◌≡◌, refl, ◌↔◌, List, [], ◌∷◌, Bool, true, ◌&&◌, not, Option-cases, inl, inr,
  Option, none, some, arith, pos, leb_ℤ, is_zero, sub, sub_ge, if◌then◌else◌,
}

abbrev pub breaker_timeout : ℕ
breaker_timeout = 300000000000

-- When the failure streak started; 0 is healthy.
pub record Breaker : Type 0 where
  pub failures_since : ℕ

unfoldable pub is_open : Breaker → ℕ → Bool
is_open b now =
    not (is_zero b.failures_since) && leb_ℤ (pos breaker_timeout) (sub now b.failures_since)

unfoldable pub record_success : Breaker → Breaker
record_success b = record b { failures_since = 0 }

unfoldable pub record_failure : Breaker → ℕ → Breaker
record_failure b now = if is_zero b.failures_since then record b { failures_since = now } else b

-- What a channel has seen, the latest first.
pub data Event : Type 0 where
  success : Event
  failure : ℕ → Event

abbrev pub after : List Event → Breaker
after [] = record { failures_since = 0 }
after (success ∷ h) = record_success (after h)
after (failure now ∷ h) = record_failure (after h) now

-- The time of the first failure since the last success.
abbrev pub streak_start : List Event → Option ℕ
streak_start [] = none
streak_start (success ∷ h) = none
streak_start (failure now ∷ h) = elim (streak_start h) [ none ↦ some now | some t ↦ some t ]

-- No failure is stamped with the zero time.
abbrev pub IsStamped : List Event → Type 0
IsStamped [] = Unit
IsStamped (success ∷ h) = IsStamped h
IsStamped (failure now ∷ h) = (0 < now) × IsStamped h

abbrev start_or_zero : Option ℕ → ℕ
start_or_zero none = 0
start_or_zero (some t) = t

streak_pos : (h : List Event) (t : ℕ) → IsStamped h → streak_start h ≡ some t → 0 < t
streak_pos [] t s e = ground arith
streak_pos (success ∷ h) t s e = ground arith
streak_pos (failure now ∷ h) t s e = ground (arith, streak_pos h t s.1)

after-streak :
    (h : List Event) → IsStamped h → (after h).failures_since ≡ start_or_zero (streak_start h)
unfolding record_success record_failure
after-streak [] s = refl
after-streak (success ∷ h) s = refl
after-streak (failure now ∷ h) s = elim (Option-cases (streak_start h)) [
  | inl e ↦ ground (arith, after-streak h s.1)
  | inr (t, e) ↦ ground (arith, after-streak h s.1, streak_pos h t s.1 e)
]

open_iff :
    (b : Breaker) (o : Option ℕ) (now : ℕ)
    → b.failures_since ≡ start_or_zero o
    → ((t : ℕ) → o ≡ some t → 0 < t)
    → (is_open b now ≡ true) ↔ ((t : ℕ) × (o ≡ some t) × (t + breaker_timeout ≤ now))
unfolding is_open
open_iff b none now e p = (λ h. ground arith, λ (t, q, l). cc)
open_iff b (some t) now e p =
    let q = p t refl in
    let g = sub_ge now t breaker_timeout (omega arith) (omega arith) in
    (λ h. (t, refl, ground arith), λ (t', q', l). ground arith)

-- The breaker is open exactly when the channel has failed and not succeeded since, and the first of
-- those failures is at least five minutes old.
pub after-is_open_iff :
    (h : List Event) (now : ℕ)
    → IsStamped h
    → (is_open (after h) now ≡ true)
      ↔ ((t : ℕ) × (streak_start h ≡ some t) × (t + breaker_timeout ≤ now))
after-is_open_iff h now s =
    open_iff (after h) (streak_start h) now (after-streak h s) (λ t e. streak_pos h t s e)
