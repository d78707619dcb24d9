-- ===== src/Prelude/Clock.antt =====
-- Go's time.Time as nanoseconds since the zero time, so that `IsZero` is `== 0`, and `Sub` with
-- the saturation of time.Duration at the ends of int64.
use Prim.Native.Nat.{ℕ, ◌+◌, ◌-◌, ◌<◌, min}
use mathlib.Core.Path.{◌≡◌}
use mathlib.Core.Bool.{Bool, true, false}
use native.Mathlib.Omega.{arith}
use upcontrol.Prelude.Tests.{leb, ◌==◌, if◌then◌else◌}

-- `negsuc n` is -(n + 1).
pub data ℤ : Type 0 where
  pos : ℕ → ℤ
  negsuc : ℕ → ℤ

abbrev pub le_zero : ℤ → Bool
le_zero (pos n) = n == 0
le_zero (negsuc _) = true

abbrev pub is_neg : ℤ → Bool
is_neg (pos _) = false
is_neg (negsuc _) = true

abbrev pub leb_ℤ : ℤ → ℤ → Bool
leb_ℤ (pos a) (pos b) = leb a b
leb_ℤ (pos _) (negsuc _) = false
leb_ℤ (negsuc _) (pos _) = true
leb_ℤ (negsuc a) (negsuc b) = leb b a

-- `x` when it is positive, the default otherwise.
abbrev pub positive_or : ℤ → ℕ → ℕ
positive_or (pos n) d = if n == 0 then d else n
positive_or (negsuc _) d = d

abbrev pub max_duration : ℕ
max_duration = 9223372036854775807

abbrev pub second : ℕ
second = 1000000000

abbrev pub millisecond : ℕ
millisecond = 1000000

abbrev pub minute : ℕ
minute = 60000000000

abbrev pub hour : ℕ
hour = 3600000000000

abbrev pub is_zero : ℕ → Bool
is_zero t = t == 0

-- `a.Sub(b)`
unfoldable pub sub : ℕ → ℕ → ℤ
sub a b = if leb b a then pos (min (a - b) max_duration) else negsuc (min (b - a - 1) max_duration)

-- `now.Sub(t) <= d` and `now.Sub(t) >= d`, without the saturation.
pub sub_le : (now t d : ℕ) → d < max_duration → leb_ℤ (sub now t) (pos d) ≡ leb now (t + d)
unfolding sub
sub_le now t d h = ground arith

pub sub_ge : (now t d : ℕ) → 0 < d → d < max_duration → leb_ℤ (pos d) (sub now t) ≡ leb (t + d) now
unfolding sub
sub_ge now t d h k = ground arith
