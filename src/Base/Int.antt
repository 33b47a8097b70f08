-- ===== src/Base/Int.antt =====
-- Signed integers over the native numbers, with what `i64` does at its upper end.
use Prim.Native.Nat.{ℕ, zero, suc, ◌+◌}
use mathlib.Core.Path.{◌≡◌}
use mathlib.Core.Bool.{Bool, true, false}
use native.Mathlib.Omega.{arith}
use pulumi_rs_kube_operator.Base.Tests.{◌==◌, if◌then◌else◌}

-- `negsuc n` is -(n + 1).
pub data ℤ : Type 0 where
  pos : ℕ → ℤ
  negsuc : ℕ → ℤ

-- `x.max(0) as u64`
abbrev pub pos_part : ℤ → ℕ
pos_part (pos n) = n
pos_part (negsuc n) = 0

-- `x > 0`
abbrev pub is_positive : ℤ → Bool
is_positive (pos zero) = false
is_positive (pos (suc n)) = true
is_positive (negsuc n) = false

unfoldable pub int_eq : ℤ → ℤ → Bool
int_eq (pos m) (pos n) = m == n
int_eq (pos m) (negsuc n) = false
int_eq (negsuc m) (pos n) = false
int_eq (negsuc m) (negsuc n) = m == n

pub int_eq→eq : (a b : ℤ) → int_eq a b ≡ true → a ≡ b
unfolding int_eq
int_eq→eq (pos m) (pos n) h = ground arith
int_eq→eq (pos m) (negsuc n) h = cc
int_eq→eq (negsuc m) (pos n) h = cc
int_eq→eq (negsuc m) (negsuc n) h = ground arith

pub int_eq_self : (a : ℤ) → int_eq a a ≡ true
unfolding int_eq
int_eq_self (pos n) = ground arith
int_eq_self (negsuc n) = ground arith

-- `x + 1` on `i64`, which wraps in a release build.
unfoldable pub succ_i64 : ℤ → ℤ
succ_i64 (pos n) = if n == 9223372036854775807 then negsuc 9223372036854775807 else pos (n + 1)
succ_i64 (negsuc zero) = pos 0
succ_i64 (negsuc (suc n)) = negsuc n

pub eq→int_eq : {a b : ℤ} → a ≡ b → int_eq a b ≡ true
eq→int_eq {b} e = rw e (int_eq_self b)
