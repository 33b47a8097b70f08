-- ===== src/Base/Machine.antt =====
-- Unsigned machine integers with saturating arithmetic, and durations in nanoseconds.
use Prim.Native.Nat.{ℕ, zero, suc, ◌+◌, ◌-◌, ◌*◌, ◌^◌, ◌%◌, ◌≤◌, ◌<◌, min}
use native.Mathlib.Omega.{arith}

abbrev pub u64_max : ℕ
u64_max = 18446744073709551615

abbrev pub u32_max : ℕ
u32_max = 4294967295

-- `x + 1` on `u32`, which wraps in a release build.
abbrev pub succ_u32 : ℕ → ℕ
succ_u32 n = (n + 1) % 4294967296

abbrev pub saturating_add : ℕ → ℕ → ℕ
saturating_add a b = min (a + b) u64_max

unfoldable pub saturating_mul : ℕ → ℕ → ℕ
saturating_mul a b = min (a * b) u64_max

pub saturating_mul-le : (a b : ℕ) → saturating_mul a b ≤ u64_max
unfolding saturating_mul
saturating_mul-le a b = omega arith

-- `u64::saturating_pow`
unfoldable pub saturating_pow : ℕ → ℕ → ℕ
saturating_pow a n = min (a ^ n) u64_max

-- A `Duration`, and an `Instant` or a moment on the calendar, in nanoseconds from a fixed origin.
abbrev pub Duration : Type 0
Duration = ℕ

abbrev pub Instant : Type 0
Instant = ℕ

abbrev pub from_secs : ℕ → Duration
from_secs n = n * 1000000000

abbrev pub from_millis : ℕ → Duration
from_millis n = n * 1000000

abbrev pub as_millis : Duration → ℕ
as_millis d = Prim.Native.Nat.◌/◌ d 1000000

-- `Duration::MAX`
abbrev pub duration_max : Duration
duration_max = 18446744073709551615999999999
